-- ===== src/Prelude/Endings.antt =====
-- What a Go function that may fail or panic ends with.
use Prim.Native.String.{String}
use mathlib.Core.Path.{◌≡◌, refl}

-- a value, or an error by its text
pub data Result {ℓ} (A : Type ℓ) : Type ℓ where
  ok : A → Result A
  err : String → Result A

-- a value, an error, or a panic
pub data Outcome {ℓ} (A : Type ℓ) : Type ℓ where
  done : A → Outcome A
  failed : String → Outcome A
  crashed : Outcome A

infixl 5 ◌>>=◌
abbrev pub ◌>>=◌ {ℓ κ} : {A : Type ℓ} {B : Type κ} → Outcome A → (A → Outcome B) → Outcome B
done a >>= f = f a
failed e >>= f = failed e
crashed >>= f = crashed

abbrev pub from_result {ℓ} : {A : Type ℓ} → Result A → Outcome A
from_result (ok a) = done a
from_result (err e) = failed e

-- The predicate holds of the value, if there is one.
abbrev pub Returns {ℓ κ} : {A : Type ℓ} → (A → Type κ) → Outcome A → Type κ
Returns P (done a) = P a
Returns P (failed e) = Unit
Returns P crashed = Unit

-- There is a value, and the predicate holds of it.
abbrev pub Ensures {ℓ} : {A : Type ℓ} → (A → Type 0) → Outcome A → Type 0
Ensures P (done a) = P a
Ensures P (failed e) = ⊥
Ensures P crashed = ⊥

pub Returns-bind {ℓ κ μ} :
    {A : Type ℓ} {B : Type κ} (P : B → Type μ) (m : Outcome A) (f : A → Outcome B)
    → ((a : A) → m ≡ done a → Returns P (f a))
    → Returns P (m >>= f)
Returns-bind P (done a) f h = h a refl
Returns-bind P (failed e) f h = tt
Returns-bind P crashed f h = tt

pub Returns-then {ℓ κ μ ν} :
    {A : Type ℓ} {B : Type κ} (Q : A → Type ν) (P : B → Type μ) (m : Outcome A) (f : A → Outcome B)
    → Returns Q m
    → ((a : A) → Q a → Returns P (f a))
    → Returns P (m >>= f)
Returns-then Q P (done a) f q h = h a q
Returns-then Q P (failed e) f q h = tt
Returns-then Q P crashed f q h = tt

pub Ensures-then {ℓ κ} :
    {A : Type ℓ} {B : Type κ} (Q : A → Type 0) (P : B → Type 0) (m : Outcome A) (f : A → Outcome B)
    → Ensures Q m
    → ((a : A) → Q a → Ensures P (f a))
    → Ensures P (m >>= f)
Ensures-then Q P (done a) f q h = h a q
Ensures-then Q P (failed e) f q h = absurd q
Ensures-then Q P crashed f q h = absurd q

module _ {ℓ κ μ} {A : Type ℓ} (P : A → Type κ) (Q : A → Type μ) where
  pub Returns-both : (m : Outcome A) → Returns P m → Returns Q m → Returns (λ a. P a × Q a) m
  Returns-both (done a) p q = (p, q)
  Returns-both (failed e) p q = tt
  Returns-both crashed p q = tt

  pub Returns-weaken : (m : Outcome A) → ((a : A) → P a → Q a) → Returns P m → Returns Q m
  Returns-weaken (done a) f p = f a p
  Returns-weaken (failed e) f p = tt
  Returns-weaken crashed f p = tt
