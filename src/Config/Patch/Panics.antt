-- ===== src/Config/Patch/Panics.antt =====
-- Where the patches of an outbound panic.
use mathlib.Core.Path.{subst}
use hiddify_core.Prelude.{
  ◌≡◌, refl, sym, ◌∙◌, Bool, true, false, ◌&&◌, ◌||◌, arith, ◌==◌, eq_iff, inl, inr, Bool-cases,
  Outcome, done, failed, crashed, ◌>>=◌,
}
use hiddify_core.Config.Options.{ConfigOptions}
use hiddify_core.Config.Sing.{Value, null, object, Fields, get, Outbound}
use hiddify_core.Config.Patch.{
  set_xray, patch_xray, is_outbound_reality, is_group_or_dead, patch_tls_tricks, patch_object,
}

abbrev pub is_crashed {ℓ} : {A : Type ℓ} → Outcome A → Bool
is_crashed crashed = true
is_crashed _ = false

-- A value that the type assertion to an object panics on.
abbrev pub is_no_object : Value → Bool
is_no_object null = false
is_no_object (object f) = false
is_no_object _ = true

then_done {ℓ κ} :
    {A : Type ℓ} {B : Type κ} (m : Outcome A) (f : A → B)
    → is_crashed (m >>= λ a. done (f a)) ≡ is_crashed m
then_done (done a) f = refl
then_done (failed e) f = refl
then_done crashed f = refl

set_xray-crashed :
    (opt : ConfigOptions) (obj : Fields) (v : Value)
    → is_crashed (set_xray opt obj v) ≡ is_no_object v
set_xray-crashed opt obj null = refl
set_xray-crashed opt obj (object f) = refl
set_xray-crashed opt obj _ = refl

module _ (base : Outbound) (opt : ConfigOptions) (obj : Fields) where
  patch_xray-crashed : is_crashed (patch_xray base opt obj) ≡ (
      base.type == "xray"
      && opt.tls_tricks.enable_fragment
      && is_no_object (get "xray_fragment" obj))
  unfolding patch_xray
  patch_xray-crashed = ground (arith, set_xray-crashed opt obj (get "xray_fragment" obj))

  -- An outbound of Xray is neither a group nor one with REALITY.
  xray_patched :
      (base.type == "xray") ≡ true
      → (is_group_or_dead base.type || is_outbound_reality base) ≡ false
  unfolding is_outbound_reality
  xray_patched e =
      let p = (eq_iff base.type "xray").0 e in
      let g : is_group_or_dead base.type ≡ false =
        subst (λ t. is_group_or_dead t ≡ false) (sym p) refl in
      let v : (base.type == "vless") ≡ false = subst (λ t. (t == "vless") ≡ false) (sym p) refl in
      rw g (rw v refl)

  -- The patches of an outbound panic exactly where it is one for Xray, fragments are enabled, and its
  -- field "xray_fragment" is there, is not null and is no object.
  pub patch_object-crashed : is_crashed (patch_object base opt obj) ≡ (
      base.type == "xray"
      && opt.tls_tricks.enable_fragment
      && is_no_object (get "xray_fragment" obj))
  unfolding patch_object
  patch_object-crashed =
      then_done (patch_tls_tricks base opt obj) _
      ∙ elim (Bool-cases (is_group_or_dead base.type || is_outbound_reality base)) [
        | inl g ↦
            rw (g, patch_tls_tricks)
              (elim (Bool-cases (base.type == "xray")) [
                | inl x ↦ cc (g, xray_patched x)
                | inr n ↦ rw n refl
              ])
        | inr g ↦
            rw (g, patch_tls_tricks) (then_done (patch_xray base opt obj) _ ∙ patch_xray-crashed)
      ]
