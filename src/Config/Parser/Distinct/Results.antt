-- ===== src/Config/Parser/Distinct/Results.antt =====
-- The results of a batch in which every job ends with an outbound.
use mathlib.Core.Path.{subst, ap₂}
use mathlib.Core.Option.{some-injective}
use hiddify_core.Prelude.{
  ℕ, zero, suc, ◌≡◌, refl, sym, ap, ◌⊎◌, inl, inr, String, Bool, true, false, some, List, [], ◌∷◌,
  Memᴰ, ◌==◌, Outcome, done, failed, crashed, if◌then◌else◌, eq_iff,
}
use hiddify_core.Config.Sing.{Outbound}
use hiddify_core.Config.Warp.{Outside}
use hiddify_core.Config.Parser.{Formats, Jobs, batch_error, result_of, replaced}
use hiddify_core.Config.Parser.Batch.{get_elem?}

-- Every job has ended with an outbound.
abbrev pub AllDone : Jobs → Type 0
AllDone js = (t : String) (x : Outcome Outbound) → Memᴰ (t, x) js → (a : Outbound) × (x ≡ done a)

-- A later result, or that of the job where it is of the tag.
abbrev picked : Outcome Outbound → Bool → Outcome Outbound → Outcome Outbound
picked later b x = elim later [ done o ↦ done o | _ ↦ if b then x else crashed ]

picked-cases :
    (later x : Outcome Outbound) (b : Bool) (c : Outbound)
    → picked later b x ≡ done c
    → (later ≡ done c) ⊎ ((b ≡ true) × (x ≡ done c))
picked-cases (done o) x b c h = inl h
picked-cases (failed e) x true c h = inr (refl, h)
picked-cases (failed e) x false c h = cc h
picked-cases crashed x true c h = inr (refl, h)
picked-cases crashed x false c h = cc h

picked-own :
    (later x : Outcome Outbound) (b : Bool) (a : Outbound)
    → b ≡ true
    → x ≡ done a
    → (c : Outbound) × (picked later b x ≡ done c)
picked-own (done o) x b a p q = (o, refl)
picked-own (failed e) x b a p q = (a, rw (p, q) refl)
picked-own crashed x b a p q = (a, rw (p, q) refl)

picked-later :
    (later x : Outcome Outbound) (b : Bool) (a : Outbound)
    → later ≡ done a
    → (c : Outbound) × (picked later b x ≡ done c)
picked-later later x b a p = (a, rw p refl)

module _ (formats : Formats) (world : ℕ → Outside) where
  pub batch_error-AllDone : (js : Jobs) → AllDone js → batch_error formats world js ≡ done tt
  batch_error-AllDone [] h = refl
  batch_error-AllDone ((t, done a) ∷ js) h = batch_error-AllDone js (λ u x m. h u x (Memᴰ.tail m))
  batch_error-AllDone ((t, failed e) ∷ js) h = cc (h t (failed e) (Memᴰ.head refl)).1
  batch_error-AllDone ((t, crashed) ∷ js) h = cc (h t crashed (Memᴰ.head refl)).1

  -- The result for a tag is that of one of its jobs.
  pub result_of-mem :
      (k : String) (js : Jobs) (b : Outbound)
      → result_of formats world k js ≡ done b
      → Memᴰ (k, done b) js
  unfolding result_of
  result_of-mem k [] b h = cc h
  result_of-mem k ((t, x) ∷ js) b h =
      elim (picked-cases (result_of formats world k js) x (t == k) b h) [
        | inl e ↦ Memᴰ.tail (result_of-mem k js b e)
        | inr e ↦ Memᴰ.head (ap₂ (λ u v. (u, v)) (sym ((eq_iff t k).0 e.0)) (sym e.1))
      ]

  pub result_of-found :
      (k : String) (js : Jobs) (a : Outbound)
      → Memᴰ (k, done a) js
      → AllDone js
      → (b : Outbound) × (result_of formats world k js ≡ done b)
  unfolding result_of
  result_of-found k [] a m h = elim m [ ]
  result_of-found k ((t, x) ∷ js) a (Memᴰ.head e) h =
      picked-own (result_of formats world k js) x (t == k) a
        ((eq_iff t k).1 (sym (ap (λ p. p.0) e))) (sym (ap (λ p. p.1) e))
  result_of-found k ((t, x) ∷ js) a (Memᴰ.tail m) h =
      let r = result_of-found k js a m (λ u y n. h u y (Memᴰ.tail n)) in
      picked-later (result_of formats world k js) x (t == k) r.0 r.1

  -- Each outbound that has a result is replaced by one, in its place.
  pub replaced-found :
      (js : Jobs) (os : List Outbound)
      → ((i : ℕ) (a : Outbound)
          → get_elem? os i ≡ some a
          → (b : Outbound) × (result_of formats world a.tag js ≡ done b))
      → (outs : List Outbound) × (replaced formats world js os ≡ done outs)
        × ((i : ℕ) (a : Outbound)
            → get_elem? os i ≡ some a
            → (b : Outbound) × (get_elem? outs i ≡ some b)
              × (result_of formats world a.tag js ≡ done b))
  unfolding replaced
  replaced-found js [] h = ([], refl, λ i a p. cc p)
  replaced-found js (o ∷ os) h =
      let (b, e) = h 0 o refl in
      let (outs, e', g) = replaced-found js os (λ i a p. h (suc i) a p) in
      (b ∷ outs, rw (e, e', replaced) refl, λ i a p. go b outs e g i a p)
    where
      go :
          (b : Outbound) (outs : List Outbound)
          → result_of formats world o.tag js ≡ done b
          → ((i : ℕ) (a : Outbound)
              → get_elem? os i ≡ some a
              → (b : Outbound) × (get_elem? outs i ≡ some b)
                × (result_of formats world a.tag js ≡ done b))
          → (i : ℕ) (a : Outbound) → get_elem? (o ∷ os) i ≡ some a
          → (c : Outbound) × (get_elem? (b ∷ outs) i ≡ some c)
            × (result_of formats world a.tag js ≡ done c)
      go b outs e g zero a p =
          (b, refl, subst (λ x. result_of formats world x.tag js ≡ done b) (some-injective _ _ p) e)
      go b outs e g (suc i) a p = g i a p
