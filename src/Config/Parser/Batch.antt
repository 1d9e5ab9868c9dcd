-- ===== src/Config/Parser/Batch.antt =====
-- The batch that patches the outbounds of a profile, whose results are kept by the outbounds' tags.
use mathlib.Core.Path.{subst}
use mathlib.Core.Option.{some-injective}
use hiddify_core.Prelude.{
  ℕ, zero, suc, ◌≡◌, refl, sym, ap, ◌∙◌, Option, none, some, List, [], ◌∷◌, Outcome, done, failed,
  crashed, ◌>>=◌,
}
use hiddify_core.Config.Options.{ConfigOptions}
use hiddify_core.Config.Sing.{Outbound}
use hiddify_core.Config.Warp.{Outside}
use hiddify_core.Config.Parser.{
  Formats, Jobs, jobs, batch_error, result_of, replaced, patch_outbounds,
}

abbrev pub get_elem? : List Outbound → ℕ → Option Outbound
get_elem? [] i = none
get_elem? (o ∷ os) zero = some o
get_elem? (o ∷ os) (suc i) = get_elem? os i

bind-done {ℓ κ} :
    {A : Type ℓ} {B : Type κ} (m : Outcome A) (f : A → Outcome B) {b : B}
    → (m >>= f) ≡ done b
    → (a : A) × (m ≡ done a) × (f a ≡ done b)
bind-done (done a) f h = (a, refl, h)
bind-done (failed e) f h = cc h
bind-done crashed f h = cc h

done-injective {ℓ} : {A : Type ℓ} (a b : A) → done a ≡ done b → a ≡ b
done-injective a b h = ap (λ m. elim m [ done x ↦ x | _ ↦ a ]) h

module _ (formats : Formats) (world : ℕ → Outside) where
  -- Each outbound has become the result for its tag.
  replaced-result :
      (js : Jobs) (os outs : List Outbound)
      → replaced formats world js os ≡ done outs
      → (i : ℕ) (a a' : Outbound) → get_elem? os i ≡ some a
      → get_elem? outs i ≡ some a'
      → result_of formats world a.tag js ≡ done a'
  unfolding replaced
  replaced-result js [] outs h i a a' p q = cc p
  replaced-result js (o ∷ os) outs h zero a a' p q =
      let r = bind-done (result_of formats world o.tag js) _ h in
      let s = bind-done (replaced formats world js os) _ r.2 in
      let q' : some r.0 ≡ some a' =
        subst (λ l. get_elem? l 0 ≡ some a') (sym (done-injective _ outs s.2)) q in
      subst (λ x. result_of formats world x.tag js ≡ done a') (some-injective _ _ p)
        (r.1 ∙ ap done (some-injective _ _ q'))
  replaced-result js (o ∷ os) outs h (suc i) a a' p q =
      let r = bind-done (result_of formats world o.tag js) _ h in
      let s = bind-done (replaced formats world js os) _ r.2 in
      replaced-result js os s.0 s.1 i a a' p
        (subst (λ l. get_elem? l (suc i) ≡ some a') (sym (done-injective _ outs s.2)) q)

  -- Two outbounds of a profile that have the same tag become one and the same outbound, whatever each
  -- of them was: all but one of the outbounds of a tag are lost.
  patch_outbounds-merges :
      (opt : Option ConfigOptions) (os outs : List Outbound)
      → patch_outbounds formats world opt os ≡ done outs
      → (i j : ℕ) (a b a' b' : Outbound) → get_elem? os i ≡ some a
      → get_elem? os j ≡ some b
      → get_elem? outs i ≡ some a'
      → get_elem? outs j ≡ some b'
      → a.tag ≡ b.tag
      → a' ≡ b'
  unfolding patch_outbounds
  patch_outbounds-merges opt os outs h i j a b a' b' p q p' q' t =
      let js = formats.order (jobs formats world opt 0 os) in
      let r = bind-done (batch_error formats world js) _ h in
      done-injective _ _ (
        sym (replaced-result js os outs r.2 i a a' p p')
        ∙ (ap (λ k. result_of formats world k js) t ∙ replaced-result js os outs r.2 j b b' q q'))
