-- ===== src/Config/Parser/Distinct.antt =====
-- The batch that patches the outbounds of a profile whose tags are distinct.
mod Results
use mathlib.Core.Path.{subst, ap₂}
use mathlib.Core.Option.{some-injective}
use hiddify_core.Prelude.{
  ℕ, zero, suc, ◌+◌, ◌≡◌, refl, sym, ap, ◌∙◌, ◌↔◌, String, Option, none, some, List, [], ◌∷◌, Memᴰ,
  Outcome, done, false, arith,
}
use hiddify_core.Config.Options.{ConfigOptions}
use hiddify_core.Config.Sing.{Outbound}
use hiddify_core.Config.Warp.{Outside, patch_warp}
use hiddify_core.Config.Parser.{Formats, Jobs, jobs, patched, patch_outbounds}
use hiddify_core.Config.Parser.Batch.{get_elem?}
use hiddify_core.Config.Parser.Distinct.Results.{
  AllDone, batch_error-AllDone, result_of-mem, result_of-found, replaced-found,
}

-- No two outbounds have the same tag.
abbrev pub Distinct : List Outbound → Type 0
Distinct os =
    (i j : ℕ) (a b : Outbound)
    → get_elem? os i ≡ some a
    → get_elem? os j ≡ some b
    → a.tag ≡ b.tag
    → i ≡ j

module _ (formats : Formats) (world : ℕ → Outside) where
  -- What becomes of the outbound at a place.
  abbrev pub patch_of : Option ConfigOptions → ℕ → Outbound → Outcome Outbound
  patch_of opt i a = patched formats world (patch_warp (world i) a opt false none)

  -- The job of an outbound, and the outbound of a job.
  jobs-mem :
      (opt : Option ConfigOptions) (n : ℕ) (os : List Outbound) (i : ℕ) (a : Outbound)
      → get_elem? os i ≡ some a
      → Memᴰ (a.tag, patch_of opt (n + i) a) (jobs formats world opt n os)
  unfolding jobs
  jobs-mem opt n [] i a p = cc p
  jobs-mem opt n (o ∷ os) zero a p =
      let q : o ≡ a = some-injective _ _ p in
      Memᴰ.head
        (ap₂ (λ u v. (u, v)) (ap (λ z. z.tag) (sym q)) (ap₂ (patch_of opt) (omega arith) (sym q)))
  jobs-mem opt n (o ∷ os) (suc i) a p =
      let e : suc n + i ≡ n + suc i = omega arith in
      Memᴰ.tail (
        subst (λ k. Memᴰ (a.tag, patch_of opt k a) (jobs formats world opt (suc n) os)) e
          (jobs-mem opt (suc n) os i a p))

  jobs-outbound :
      (opt : Option ConfigOptions) (n : ℕ) (os : List Outbound) (t : String) (x : Outcome Outbound)
      → Memᴰ (t, x) (jobs formats world opt n os)
      → (i : ℕ) × (a : Outbound) × (get_elem? os i ≡ some a)
        × (a.tag ≡ t)
        × (patch_of opt (n + i) a ≡ x)
  unfolding jobs
  jobs-outbound opt n [] t x m = elim m [ ]
  jobs-outbound opt n (o ∷ os) t x (Memᴰ.head e) = (
    0,
    o,
    refl,
    sym (ap (λ p. p.0) e),
    ap (λ k. patch_of opt k o) (omega arith) ∙ sym (ap (λ p. p.1) e),
  )
  jobs-outbound opt n (o ∷ os) t x (Memᴰ.tail m) =
      let (i, a, p, q, r) = jobs-outbound opt (suc n) os t x m in
      (suc i, a, p, q, ap (λ k. patch_of opt k a) (omega arith) ∙ r)

  jobs-done :
      (opt : Option ConfigOptions) (os : List Outbound)
      → ((i : ℕ) (a : Outbound)
          → get_elem? os i ≡ some a
          → (b : Outbound) × (patch_of opt i a ≡ done b))
      → AllDone (jobs formats world opt 0 os)
  jobs-done opt os each t x m =
      let (i, a, p, q, r) = jobs-outbound opt 0 os t x m in
      let (b, e) = each i a p in (b, sym r ∙ (ap (λ k. patch_of opt k a) (omega arith) ∙ e))

  own-mem :
      (opt : Option ConfigOptions) (os : List Outbound) (i : ℕ) (a b : Outbound)
      → get_elem? os i ≡ some a
      → patch_of opt i a ≡ done b
      → Memᴰ (a.tag, done b) (jobs formats world opt 0 os)
  own-mem opt os i a b p q =
      let e : 0 + i ≡ i = omega arith in
      subst (λ x. Memᴰ (a.tag, x) (jobs formats world opt 0 os)) (ap (λ k. patch_of opt k a) e ∙ q)
        (jobs-mem opt 0 os i a p)

  -- With distinct tags, a job of the tag of an outbound is the job of the outbound.
  own-result :
      (opt : Option ConfigOptions) (os : List Outbound)
      → Distinct os
      → (i : ℕ) (a b : Outbound) → get_elem? os i ≡ some a
      → Memᴰ (a.tag, done b) (jobs formats world opt 0 os)
      → patch_of opt i a ≡ done b
  own-result opt os distinct i a b p m =
      let (j, a', p', t, r) = jobs-outbound opt 0 os a.tag (done b) m in
      let e : i ≡ j = distinct i j a a' p p' (sym t) in
      let same : a ≡ a' = some-injective _ _ (sym p ∙ ap (get_elem? os) e ∙ p') in
      ap₂ (patch_of opt) (omega arith) same ∙ r

  -- Where the tags of a profile are distinct, the batch ends every job, in whatever order, and
  -- patchWarp fails for none of the outbounds, every outbound is replaced, in its place, by what
  -- patchWarp makes of it.
  pub patch_outbounds-patches :
      ((js : Jobs) (x : String × Outcome Outbound) → Memᴰ x (formats.order js) ↔ Memᴰ x js)
      → (opt : Option ConfigOptions) (os : List Outbound) → Distinct os
      → ((i : ℕ) (a : Outbound)
          → get_elem? os i ≡ some a
          → (b : Outbound) × (patch_of opt i a ≡ done b))
      → (outs : List Outbound) × (patch_outbounds formats world opt os ≡ done outs)
        × ((i : ℕ) (a : Outbound)
            → get_elem? os i ≡ some a
            → (b : Outbound) × (get_elem? outs i ≡ some b) × (patch_of opt i a ≡ done b))
  unfolding patch_outbounds
  patch_outbounds-patches keeps opt os distinct each =
      let js = jobs formats world opt 0 os in
      let all : AllDone (formats.order js) =
        λ t x m. jobs-done opt os each t x ((keeps js (t, x)).0 m) in
      let (outs, e, g) = replaced-found formats world (formats.order js) os (λ i a p.
        let (b, q) = each i a p in
        result_of-found formats world a.tag (formats.order js) b
          ((keeps js (a.tag, done b)).1 (own-mem opt os i a b p q)) all) in
      (
        outs,
        rw (batch_error-AllDone formats world (formats.order js) all, patch_outbounds) e,
        λ i a p.
            let (b, q, r) = g i a p in
            (
              b,
              q,
              own-result opt os distinct i a b p (
                  (keeps js (a.tag, done b)).0
                    (result_of-mem formats world a.tag (formats.order js) b r)),
            ),
      )
