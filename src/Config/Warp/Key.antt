-- ===== src/Config/Warp/Key.antt =====
-- GeneratePrivateKey of pkg/warp/key.go, over bytes below 256. rand.Read is a parameter.
use Prim.Native.String.{◌++◌ as append}
use hiddify_core.Prelude.{
  ℕ, zero, suc, ◌+◌, ◌-◌, ◌/◌, ◌%◌, ◌<◌, ◌≡◌, ◌≢◌, refl, ap, ◌∙◌, List, [], ◌∷◌, length, All,
  nat_eq, if◌then◌else◌, arith, Result, ok, err,
}
use hiddify_core.Config.Warp.Endpoint.{at}

-- key[i] = f(key[i])
abbrev pub set_at : ℕ → (ℕ → ℕ) → List ℕ → List ℕ
set_at i f [] = []
set_at zero f (x ∷ xs) = f x ∷ xs
set_at (suc i) f (x ∷ xs) = x ∷ set_at i f xs

-- x & 248, x & 127 and x | 64 of a byte
abbrev pub and_248 : ℕ → ℕ
and_248 x = x - x % 8

abbrev pub and_127 : ℕ → ℕ
and_127 x = x % 128

abbrev pub or_64 : ℕ → ℕ
or_64 x = if nat_eq (x / 64 % 2) 1 then x else x + 64

-- The error's text is without the number of bytes, which it ends with.
unfoldable pub new_key : List ℕ → Result (List ℕ)
new_key b = if nat_eq (length b) 32 then ok b else err "wgtypes: incorrect key size"

module _ (read : ℕ → Result (List ℕ)) where
  unfoldable pub generate_key : Result (List ℕ)
  unfolding new_key
  generate_key = elim (read 32) [
    | err e ↦ err (append "wgtypes: failed to read random bytes: " e)
    | ok b ↦ new_key b
  ]

  unfoldable pub generate_private_key : Result (List ℕ)
  unfolding generate_key
  generate_private_key = elim generate_key [
    | err e ↦ err e
    | ok key ↦ ok (set_at 31 or_64 (set_at 31 and_127 (set_at 0 and_248 key)))
  ]

-- A private key for Curve25519, made of the bytes that were drawn: the first three bits and the last
-- one are cleared, the last but one is set, and the other bits are those drawn.
pub record Clamped (bytes key : List ℕ) : Type 0 where
  pub size : length key ≡ 32
  pub fits : All (λ x. x < 256) key
  pub first : (at key 0 % 8 ≡ 0) × (at key 0 / 8 ≡ at bytes 0 / 8)
  pub last : (at key 31 / 64 ≡ 1) × (at key 31 % 64 ≡ at bytes 31 % 64)
  pub others : (i : ℕ) → i ≢ 0 → i ≢ 31 → at key i ≡ at bytes i

length-set_at : (i : ℕ) (f : ℕ → ℕ) (xs : List ℕ) → length (set_at i f xs) ≡ length xs
length-set_at i f [] = refl
length-set_at zero f (x ∷ xs) = refl
length-set_at (suc i) f (x ∷ xs) = ap suc (length-set_at i f xs)

All-set_at :
    (P : ℕ → Type 0) (i : ℕ) (f : ℕ → ℕ) (xs : List ℕ)
    → ((x : ℕ) → P x → P (f x))
    → All P xs
    → All P (set_at i f xs)
All-set_at P i f [] h all = all
All-set_at P zero f (x ∷ xs) h all = (h x all.0, all.1)
All-set_at P (suc i) f (x ∷ xs) h all = (all.0, All-set_at P i f xs h all.1)

at-set_at_same :
    (i : ℕ) (f : ℕ → ℕ) (xs : List ℕ) → i < length xs → at (set_at i f xs) i ≡ f (at xs i)
at-set_at_same i f [] h = absurd (omega arith)
at-set_at_same zero f (x ∷ xs) h = refl
at-set_at_same (suc i) f (x ∷ xs) h = at-set_at_same i f xs (omega arith)

at-set_at_other : (i j : ℕ) (f : ℕ → ℕ) (xs : List ℕ) → j ≢ i → at (set_at i f xs) j ≡ at xs j
at-set_at_other i j f [] h = refl
at-set_at_other zero zero f (x ∷ xs) h = absurd (h refl)
at-set_at_other zero (suc j) f (x ∷ xs) h = refl
at-set_at_other (suc i) zero f (x ∷ xs) h = refl
at-set_at_other (suc i) (suc j) f (x ∷ xs) h = at-set_at_other i j f xs (λ e. h (ap suc e))

All-at : (P : ℕ → Type 0) (xs : List ℕ) (i : ℕ) → All P xs → i < length xs → P (at xs i)
All-at P [] i all h = absurd (omega arith)
All-at P (x ∷ xs) zero all h = all.0
All-at P (x ∷ xs) (suc i) all h = All-at P xs i all.1 (omega arith)

or_64-last : (x : ℕ) → ((or_64 (and_127 x) / 64) ≡ 1) × (or_64 (and_127 x) % 64 ≡ x % 64)
or_64-last x = ground arith

or_64-byte : (x : ℕ) → or_64 (and_127 x) < 256
or_64-byte x = ground arith

-- The key that the bytes give.
clamped : List ℕ → List ℕ
clamped bytes = set_at 31 or_64 (set_at 31 and_127 (set_at 0 and_248 bytes))

size_clamped : (bytes : List ℕ) → length (clamped bytes) ≡ length bytes
unfolding clamped
size_clamped bytes =
    length-set_at 31 or_64 (set_at 31 and_127 (set_at 0 and_248 bytes))
    ∙ length-set_at 31 and_127 (set_at 0 and_248 bytes)
    ∙ length-set_at 0 and_248 bytes

clamped-other :
    (bytes : List ℕ) (i : ℕ) → i ≢ 31 → at (clamped bytes) i ≡ at (set_at 0 and_248 bytes) i
unfolding clamped
clamped-other bytes i h =
    at-set_at_other 31 i or_64 (set_at 31 and_127 (set_at 0 and_248 bytes)) h
    ∙ at-set_at_other 31 i and_127 (set_at 0 and_248 bytes) h

clamped-last :
    (bytes : List ℕ) → 31 < length bytes → at (clamped bytes) 31 ≡ or_64 (and_127 (at bytes 31))
unfolding clamped
clamped-last bytes h =
    let low = set_at 0 and_248 bytes in
    let n : length low ≡ length bytes = length-set_at 0 and_248 bytes in
    at-set_at_same 31 or_64 (set_at 31 and_127 low) (omega (arith, length-set_at 31 and_127 low))
    ∙ ap or_64 (
        at-set_at_same 31 and_127 low (omega arith)
        ∙ ap and_127 (at-set_at_other 0 31 and_248 bytes (λ e. cc e)))

clamped-first : (bytes : List ℕ) → 0 < length bytes → at (clamped bytes) 0 ≡ and_248 (at bytes 0)
clamped-first bytes h = clamped-other bytes 0 (λ e. cc e) ∙ at-set_at_same 0 and_248 bytes h

All-clamped : (bytes : List ℕ) → All (λ x. x < 256) bytes → All (λ x. x < 256) (clamped bytes)
unfolding clamped
All-clamped bytes all =
    let low = set_at 0 and_248 bytes in
    let P : ℕ → Type 0 = λ x. x < 256 in
    All-set_at P 31 or_64 (set_at 31 and_127 low) (λ x h. ground arith)
      (All-set_at P 31 and_127 low (λ x h. omega arith)
        (All-set_at P 0 and_248 bytes (λ x h. omega arith) all))

clamped-Clamped :
    (bytes : List ℕ) → length bytes ≡ 32 → All (λ x. x < 256) bytes → Clamped bytes (clamped bytes)
clamped-Clamped bytes n all = record {
  size = size_clamped bytes ∙ n;
  fits = All-clamped bytes all;
  first = rw (clamped-first bytes (omega arith)) (omega arith, omega arith);
  last = rw (clamped-last bytes (omega arith)) (or_64-last (at bytes 31));
  others = λ i h h'. clamped-other bytes i h' ∙ at-set_at_other 0 i and_248 bytes h;
}

generated_key :
    (read : ℕ → Result (List ℕ)) (bytes : List ℕ)
    → read 32 ≡ ok bytes
    → length bytes ≡ 32
    → generate_key read ≡ ok bytes
unfolding generate_key new_key
generated_key read bytes e n = rw (e, generate_key) (rw (n, new_key) refl)

-- Where rand.Read fills the 32 bytes, there is a key, and it is the bytes clamped for Curve25519.
pub generate_private_key-Clamped :
    (read : ℕ → Result (List ℕ)) (bytes : List ℕ)
    → read 32 ≡ ok bytes
    → length bytes ≡ 32
    → All (λ x. x < 256) bytes
    → (key : List ℕ) × (generate_private_key read ≡ ok key) × Clamped bytes key
unfolding generate_private_key clamped
generate_private_key-Clamped read bytes e n all = (
  clamped bytes,
  rw (generated_key read bytes e n, generate_private_key) refl,
  clamped-Clamped bytes n all,
)
