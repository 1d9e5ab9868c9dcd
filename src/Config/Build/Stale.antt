-- ===== src/Config/Build/Stale.antt =====
-- A build after one that sent Warp over the proxies.
use mathlib.Core.Path.{subst}
use hiddify_core.Prelude.{
  String, ◌≡◌, refl, sym, true, false, ◌||◌, List, [], ◌∷◌, ◌++◌, arith, ◌==◌, done,
}
use hiddify_core.Config.Options.{ConfigOptions}
use hiddify_core.Config.Sing.{Outbound}
use hiddify_core.Config.Outbounds.{fixed_outbounds, all_outbounds}
use hiddify_core.Config.Routing.{route_settings}
use hiddify_core.Config.Collect.{
  Collected, without_double, adds_warp, generated_warp, warp_tag, main_tag,
}
use hiddify_core.Config.Collect.Members.{has_tag}
use hiddify_core.Config.Build.{
  Options, Profile, World, BuildState, assembled, collected, next_state, build_config,
}

has_tag-append :
    (os ps : List Outbound) (t : String) → has_tag (os ++ ps) t ≡ (has_tag os t || has_tag ps t)
has_tag-append [] ps t = refl
has_tag-append (o ∷ os) ps t = ground (arith, has_tag-append os ps t)

no_warp :
    (opt : ConfigOptions) (c : Collected)
    → has_tag c.outbounds warp_tag ≡ false
    → has_tag (all_outbounds opt c.tags c.outbounds) warp_tag ≡ false
unfolding all_outbounds
no_warp opt c h = rw (has_tag-append c.outbounds (fixed_outbounds opt) warp_tag, h) refl

module _ (w₁ w₂ : World) (st : BuildState) (opt₁ opt₂ : ConfigOptions) (input₁ input₂ : Profile)
    (first : Outbound) (c : Collected) where
  -- After a build that generates the Warp outbound over the proxies, whatever else becomes of it, a
  -- second build from whose options and profile no outbound with Warp's tag comes succeeds with routes
  -- that end in Warp's tag, which none of its outbounds has.
  pub final-dangles :
      adds_warp (without_double opt₁ input₁.outbounds) ≡ true
      → (opt₁.warp.mode == "warp_over_proxy") ≡ true
      → generated_warp (w₁.outside 0) (without_double opt₁ input₁.outbounds) ≡ done first
      → collected w₂ opt₂ input₂ ≡ done c
      → has_tag c.outbounds warp_tag ≡ false
      → (o : Options) × ((build_config w₂ (build_config w₁ st opt₁ input₁).1 opt₂ input₂).0
          ≡ done o)
        × (o.route.final ≡ warp_tag)
        × (has_tag o.outbounds o.route.final ≡ false)
  unfolding build_config
  final-dangles a m g e h =
      let st₁ = next_state w₁ st opt₁ input₁ in
      let main : st₁.main_proxy_tag ≡ warp_tag = unfold next_state main_tag in rw (a, m, g) refl in
      let final : (assembled w₂ st₁ opt₂ input₂ c).route.final ≡ warp_tag =
        unfold route_settings in main in
      (
        assembled w₂ st₁ opt₂ input₂ c,
        rw e refl,
        final,
        subst (λ t. has_tag (all_outbounds opt₂ c.tags c.outbounds) t ≡ false) (sym final)
            (no_warp opt₂ c h),
      )
