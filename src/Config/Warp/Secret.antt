-- ===== src/Config/Warp/Secret.antt =====
-- generateRandomString of config/config.go, over the codes of the characters. The random bytes and
-- base64 are parameters; the code asks for 16 and 20 characters only, far from the bounds of an int.
use hiddify_core.Prelude.{
  ℕ, zero, suc, ◌+◌, ◌*◌, ◌/◌, ◌<◌, ◌≤◌, ◌≡◌, ◌≢◌, refl, Option, none, some, List, [], ◌∷◌, length,
  leb, if◌then◌else◌, arith, Outcome, done, crashed,
}

abbrev pub take : List ℕ → ℕ → List ℕ
take xs zero = []
take [] (suc n) = []
take (x ∷ xs) (suc n) = x ∷ take xs n

-- the number of random bytes that the code asks for
abbrev pub bytes_needed : ℕ → ℕ
bytes_needed n = (n * 6 + 7) / 8

module _ (read : ℕ → Option (List ℕ)) (encode : List ℕ → List ℕ) where
  -- A slice beyond the end of the text panics.
  unfoldable pub generate_random_string : ℕ → Outcome (List ℕ)
  generate_random_string n = elim (read (bytes_needed n)) [
    | none ↦ done (b'h' ∷ b'i' ∷ b'd' ∷ b'd' ∷ b'i' ∷ b'f' ∷ b'y' ∷ [])
    | some bytes ↦ let t = encode bytes in if leb n (length t) then done (take t n) else crashed
  ]

abbrev pub at_code : List ℕ → ℕ → ℕ
at_code [] i = 0
at_code (x ∷ xs) zero = x
at_code (x ∷ xs) (suc i) = at_code xs i

length-take : (xs : List ℕ) (n : ℕ) → n ≤ length xs → length (take xs n) ≡ n
length-take xs zero h = refl
length-take [] (suc n) h = absurd (omega arith)
length-take (x ∷ xs) (suc n) h = omega (arith, length-take xs n (omega arith))

at_code-take : (xs : List ℕ) (n i : ℕ) → i < n → at_code (take xs n) i ≡ at_code xs i
at_code-take xs zero i h = absurd (omega arith)
at_code-take [] (suc n) i h = refl
at_code-take (x ∷ xs) (suc n) zero h = refl
at_code-take (x ∷ xs) (suc n) (suc i) h = at_code-take xs n i (omega arith)

-- What is documented of rand.Read and of base64's URL encoding: all bytes asked for are filled in;
-- three bytes are four characters, the last group being filled up by padding, and no character that
-- stands for bits of the input is padding.
pub record Documented (read : ℕ → Option (List ℕ)) (encode : List ℕ → List ℕ) : Type 0 where
  pub fills : (k : ℕ) (bytes : List ℕ) → read k ≡ some bytes → length bytes ≡ k
  pub encoded : (bytes : List ℕ) → length (encode bytes) ≡ (length bytes + 2) / 3 * 4
  pub unpadded :
      (bytes : List ℕ) (i : ℕ) → i * 6 < length bytes * 8 → at_code (encode bytes) i ≢ b'='

-- A text of `n` characters, none of them padding.
pub record Drawn (n : ℕ) (t : List ℕ) : Type 0 where
  pub size : length t ≡ n
  pub unpadded : (i : ℕ) → i < n → at_code t i ≢ b'='

-- Where rand.Read and base64 do what their documents say and bytes can be drawn, the text has exactly
-- the length asked for, whatever it is, and no padding: the slice never leaves the encoded text.
generate_random_string-Drawn :
    (read : ℕ → Option (List ℕ)) (encode : List ℕ → List ℕ)
    → Documented read encode
    → (n : ℕ) (bytes : List ℕ) → read (bytes_needed n) ≡ some bytes
    → (t : List ℕ) × (generate_random_string read encode n ≡ done t) × Drawn n t
unfolding generate_random_string
generate_random_string-Drawn read encode d n bytes e =
    let size : length bytes ≡ bytes_needed n = d.fills (bytes_needed n) bytes e in
    let enough : n ≤ length (encode bytes) = omega (arith, d.encoded bytes) in
    (
      take (encode bytes) n,
      rw (e, generate_random_string) (ground arith),
      record {
        size = length-take (encode bytes) n enough;
        unpadded = λ i h. rw (at_code-take (encode bytes) n i h) (d.unpadded bytes i (omega arith));
      },
    )
