-- ===== src/Config/Collect/Members.antt =====
-- The tags of the groups are tags of outbounds.
use mathlib.Core.Path.{subst}
use hiddify_core.Prelude.{
  ℕ, suc, String, ◌≡◌, refl, Bool, true, ◌&&◌, Option, List, [], ◌∷◌, ◌++◌, any, All, All-append,
  All-map, arith, ◌==◌, eq_iff, if-elim, any-append-right, Outcome, done, failed, crashed, Returns,
  Returns-bind, Ensures, ◌⊎◌, inl, inr,
}
use hiddify_core.Config.Text.{contains}
use hiddify_core.Config.Options.{ConfigOptions}
use hiddify_core.Config.Sing.{Outbound}
use hiddify_core.Config.Warp.{Outside, StaticIps}
use hiddify_core.Config.Collect.OwnWarp.{Added, own_warp-Added}
use hiddify_core.Config.Patch.{Codec, patch_outbound}
use hiddify_core.Config.Collect.{
  warp_tag, patch_hiddify, adds_warp, generated_warp, own_warp, main_tag, Collected, is_skipped,
  keep_outbound, collect, collect_all,
}

abbrev pub has_tag : List Outbound → String → Bool
has_tag os t = any (λ o. o.tag == t) os

abbrev pub Tagged : List Outbound → String → Type 0
Tagged os t = has_tag os t ≡ true

pub has_tag-append-left : (os ps : List Outbound) (t : String) → Tagged os t → Tagged (os ++ ps) t
has_tag-append-left [] ps t h = cc h
has_tag-append-left (o ∷ os) ps t h = ground (arith, has_tag-append-left os ps t)

pub has_tag-append-right : (os ps : List Outbound) (t : String) → Tagged ps t → Tagged (os ++ ps) t
has_tag-append-right os ps t = any-append-right (λ o. o.tag == t) os ps

patch_hiddify-tag : (opt : ConfigOptions) (o : Outbound) → (patch_hiddify opt o).tag ≡ o.tag
unfolding patch_hiddify
patch_hiddify-tag opt o = ground arith

Tagged-last :
    (opt : ConfigOptions) (os : List Outbound) (o : Outbound)
    → Tagged (os ++ patch_hiddify opt o ∷ []) o.tag
Tagged-last opt os o =
    has_tag-append-right os (patch_hiddify opt o ∷ []) o.tag
      (rw (patch_hiddify-tag opt o) (rw ((eq_iff o.tag o.tag).1 refl)))

-- What the loop keeps: the tags of the groups are tags of outbounds, and so are the given tags.
pub record Grouped (given : List String) (c : Collected) : Type 0 where
  pub members : All (Tagged c.outbounds) c.tags
  pub given_tags : All (Tagged c.outbounds) given

more_tags :
    (os : List Outbound) (o : Outbound) (ts : List String)
    → All (Tagged os) ts
    → All (Tagged (os ++ o ∷ [])) ts
more_tags os o ts = All-map ts (λ t. has_tag-append-left os (o ∷ []) t)

keep_outbound-Grouped :
    (given : List String) (opt : ConfigOptions) (c : Collected) (o : Outbound) (domain : String)
    (static : Option StaticIps)
    → Grouped given c
    → Grouped given (keep_outbound opt c (o, domain, static))
unfolding keep_outbound
keep_outbound-Grouped given opt c o domain static h =
    if-elim (Grouped given) (is_skipped o.type)
      (λ e. record { members = h.members; given_tags = h.given_tags })
      (λ e. record {
        members =
            if-elim (All (Tagged (c.outbounds ++ patch_hiddify opt o ∷ [])))
              (contains o.tag "§hide§") (λ _. more_tags c.outbounds _ c.tags h.members)
              (λ _.
                All-append (Tagged (c.outbounds ++ patch_hiddify opt o ∷ [])) c.tags _
                  (more_tags c.outbounds _ c.tags h.members) (Tagged-last opt c.outbounds o, tt));
        given_tags = more_tags c.outbounds _ given h.given_tags;
      })

collect-Grouped :
    (given : List String) (world : ℕ → Outside) (codec : Codec) (opt : ConfigOptions) (n : ℕ)
    (input : List Outbound) (c : Collected)
    → Grouped given c
    → Returns (Grouped given) (collect world codec opt n input c)
unfolding collect
collect-Grouped given world codec opt n [] c h = h
collect-Grouped given world codec opt n (o ∷ os) c h =
    Returns-bind (Grouped given) (patch_outbound (world n) codec opt o c.static) _ (λ r e.
      collect-Grouped given world codec opt (suc n) os (keep_outbound opt c r)
        (keep_outbound-Grouped given opt c r.0 r.1 r.2 h))

module _ (world : ℕ → Outside) (codec : Codec) (opt : ConfigOptions) (static : StaticIps)
    (input : List Outbound) where
  pub collect_all-Grouped : Returns (Grouped []) (collect_all world codec opt static input)
  unfolding collect_all
  collect_all-Grouped = Returns-bind (Grouped []) (own_warp (world 0) opt) _ (λ warps e.
      collect-Grouped [] world codec opt 1 input _ (record { members = tt; given_tags = tt }))

  warp-Tagged :
      (o : Outbound) (warps : List Outbound) → Added (world 0) o warps → Tagged warps warp_tag
  warp-Tagged o warps a = rw (a.alone) (rw (a.tag) refl)

  generated-Grouped :
      (m : Outcome Outbound)
      → adds_warp opt ≡ true
      → generated_warp (world 0) opt ≡ m
      → Returns (Grouped (warp_tag ∷ [])) (collect_all world codec opt static input)
  unfolding collect_all
  generated-Grouped (done o) a g =
      Returns-bind (Grouped (warp_tag ∷ [])) (own_warp (world 0) opt) _ (λ warps e.
        collect-Grouped (warp_tag ∷ []) world codec opt 1 input _ (record {
          members = tt;
          given_tags = (
            warp-Tagged o warps
                (subst (Ensures (Added (world 0) o)) e (own_warp-Added (world 0) opt o a g)),
            tt,
          );
        }))
  generated-Grouped (failed e) a g = unfold own_warp in rw (a, g) tt
  generated-Grouped crashed a g = unfold own_warp in rw (a, g) tt

  -- Where the options add the Warp outbound, it is collected.
  pub collect_all-Warp :
      adds_warp opt ≡ true
      → Returns (Grouped (warp_tag ∷ [])) (collect_all world codec opt static input)
  collect_all-Warp a = generated-Grouped (generated_warp (world 0) opt) a refl

-- The main tag is the selector's, or that of the Warp outbound that is added.
pub main_tag-cases :
    (out : Outside) (opt : ConfigOptions)
    → (main_tag out opt ≡ "select") ⊎ ((main_tag out opt ≡ warp_tag) × (adds_warp opt ≡ true))
unfolding main_tag
main_tag-cases out opt =
    if-elim (λ t. (t ≡ "select") ⊎ ((t ≡ warp_tag) × (adds_warp opt ≡ true)))
      (adds_warp opt && opt.warp.mode == "warp_over_proxy")
      (λ e. by_outcome (generated_warp out opt) (ground arith)) (λ e. inl refl)
  where
    by_outcome :
        (m : Outcome Outbound)
        → adds_warp opt ≡ true
        → ((elim m [ done o ↦ warp_tag | _ ↦ "select" ]) ≡ "select")
          ⊎ (((elim m [ done o ↦ warp_tag | _ ↦ "select" ]) ≡ warp_tag) × (adds_warp opt ≡ true))
    by_outcome (done o) a = inr (refl, a)
    by_outcome (failed e) a = inl refl
    by_outcome crashed a = inl refl
