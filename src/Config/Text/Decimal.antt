-- ===== src/Config/Text/Decimal.antt =====
-- The decimal print of a number, as strconv.Itoa writes it, against strconv.Atoi.
use Prim.Native.Char.{Char, code}
use hiddify_core.Prelude.{
  ℕ, zero, suc, ◌+◌, ◌-◌, ◌*◌, ◌/◌, ◌%◌, ◌<◌, ◌≤◌, ◌≡◌, refl, ap, ◌∙◌, inl, inr, Bool-cases, ◌≢◌,
  pos, String, true, some, ltb, not, if-elim, if◌then◌else◌, arith,
}
use hiddify_core.Config.Text.{is_space, digits, number, int_max, atoi}
use hiddify_core.Config.Text.Trimming.{unspaced}

abbrev pub digit_char : ℕ → Char
digit_char zero = "0"
digit_char (suc zero) = "1"
digit_char (suc (suc zero)) = "2"
digit_char (suc (suc (suc zero))) = "3"
digit_char (suc (suc (suc (suc zero)))) = "4"
digit_char (suc (suc (suc (suc (suc zero))))) = "5"
digit_char (suc (suc (suc (suc (suc (suc zero)))))) = "6"
digit_char (suc (suc (suc (suc (suc (suc (suc zero))))))) = "7"
digit_char (suc (suc (suc (suc (suc (suc (suc (suc zero)))))))) = "8"
digit_char (suc (suc (suc (suc (suc (suc (suc (suc (suc n))))))))) = "9"

-- The digits of `n` in front of `out`, on fuel.
unfoldable pub emit : ℕ → ℕ → String → String
emit zero n out = out
emit (suc fuel) n out =
    let more = emit fuel (n / 10) (String.◌∷◌ (digit_char (n % 10)) out) in
    if ltb n 10 then String.◌∷◌ (digit_char (n % 10)) out else more

-- A number is larger than the number of its digits.
unfoldable pub print : ℕ → String
unfolding emit
print n = emit (suc n) n ""

code-digit_char : (d : ℕ) → d < 10 → code (digit_char d) ≡ b'0' + d
code-digit_char zero h = refl
code-digit_char (suc zero) h = refl
code-digit_char (suc (suc zero)) h = refl
code-digit_char (suc (suc (suc zero))) h = refl
code-digit_char (suc (suc (suc (suc zero)))) h = refl
code-digit_char (suc (suc (suc (suc (suc zero))))) h = refl
code-digit_char (suc (suc (suc (suc (suc (suc zero)))))) h = refl
code-digit_char (suc (suc (suc (suc (suc (suc (suc zero))))))) h = refl
code-digit_char (suc (suc (suc (suc (suc (suc (suc (suc zero)))))))) h = refl
code-digit_char (suc (suc (suc (suc (suc (suc (suc (suc (suc n))))))))) h = omega arith

digits-digit :
    (m d : ℕ) (s : String) → d < 10 → digits m (String.◌∷◌ (digit_char d) s) ≡ digits (m * 10 + d) s
unfolding digits
digits-digit m d s h =
    let e = code-digit_char d h in let f : 48 + d - 48 ≡ d = omega arith in rw (e, f) (ground arith)

digits-emit : (fuel n : ℕ) (out : String) → n < fuel → digits 0 (emit fuel n out) ≡ digits n out
unfolding emit
digits-emit zero n out h = absurd (omega arith)
digits-emit (suc fuel) n out h =
    let d = n % 10 in
    elim (Bool-cases (ltb n 10)) [
      | inl small ↦
          let e : 0 * 10 + n % 10 ≡ n = ground arith in
          rw small (digits-digit 0 (n % 10) out (omega arith) ∙ ap (λ k. digits k out) e)
      | inr large ↦
          let e : n / 10 * 10 + n % 10 ≡ n = omega arith in
          rw large (
            digits-emit fuel (n / 10) (String.◌∷◌ (digit_char (n % 10)) out) (ground arith)
            ∙ (digits-digit (n / 10) (n % 10) out (omega arith) ∙ ap (λ k. digits k out) e))
    ]

-- What is printed has no white space.
solid-digit_char : (d : ℕ) → not (is_space (digit_char d)) ≡ true
unfolding is_space
solid-digit_char zero = refl
solid-digit_char (suc zero) = refl
solid-digit_char (suc (suc zero)) = refl
solid-digit_char (suc (suc (suc zero))) = refl
solid-digit_char (suc (suc (suc (suc zero)))) = refl
solid-digit_char (suc (suc (suc (suc (suc zero))))) = refl
solid-digit_char (suc (suc (suc (suc (suc (suc zero)))))) = refl
solid-digit_char (suc (suc (suc (suc (suc (suc (suc zero))))))) = refl
solid-digit_char (suc (suc (suc (suc (suc (suc (suc (suc zero)))))))) = refl
solid-digit_char (suc (suc (suc (suc (suc (suc (suc (suc (suc n))))))))) = refl

emit-unspaced :
    (fuel n : ℕ) (out : String) → unspaced out ≡ true → unspaced (emit fuel n out) ≡ true
unfolding emit
emit-unspaced zero n out h = h
emit-unspaced (suc fuel) n out h =
    let d = String.◌∷◌ (digit_char (n % 10)) out in
    let s : unspaced d ≡ true = rw (solid-digit_char (n % 10)) h in
    if-elim (λ t. unspaced t ≡ true) (ltb n 10) (λ _. s) (λ _. emit-unspaced fuel (n / 10) d s)

pub print-unspaced : (n : ℕ) → unspaced (print n) ≡ true
unfolding print
print-unspaced n = emit-unspaced (suc n) n "" refl

digits-print : (n : ℕ) → digits 0 (print n) ≡ some n
unfolding print digits
digits-print n = digits-emit (suc n) n "" (omega arith)

-- A text that is read as digits is read so by Atoi, which looks for a sign first.
atoi-digits :
    (s : String) (n : ℕ) → s ≢ "" → digits 0 s ≡ some n → n ≤ int_max → atoi s ≡ some (pos n)
unfolding atoi number
atoi-digits String.[] n ne h le = absurd (ne refl)
atoi-digits (String.◌∷◌ c s) n ne h le = ground arith

emit-ne-nil : (fuel n : ℕ) (out : String) → out ≢ "" → emit fuel n out ≢ ""
unfolding emit
emit-ne-nil zero n out h = h
emit-ne-nil (suc fuel) n out h =
    let d = String.◌∷◌ (digit_char (n % 10)) out in
    elim (Bool-cases (ltb n 10)) [
      | inl small ↦ rw small (λ e. cc)
      | inr large ↦ rw large (emit-ne-nil fuel (n / 10) d (λ e. cc))
    ]

pub print-ne-nil : (n : ℕ) → print n ≢ ""
unfolding print emit
print-ne-nil n =
    let d = String.◌∷◌ (digit_char (n % 10)) "" in
    elim (Bool-cases (ltb n 10)) [
      | inl small ↦ rw small (λ e. cc)
      | inr large ↦ rw large (emit-ne-nil n (n / 10) d (λ e. cc))
    ]

pub atoi-print : (n : ℕ) → n ≤ int_max → atoi (print n) ≡ some (pos n)
atoi-print n h = atoi-digits (print n) n (print-ne-nil n) (digits-print n) h
