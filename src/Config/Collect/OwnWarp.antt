-- ===== src/Config/Collect/OwnWarp.antt =====
-- The Warp outbound that the options add.
use mathlib.Core.Path.{subst}
use hiddify_core.Prelude.{
  String, ◌≡◌, ◌≢◌, refl, ◌∙◌, true, false, Option, none, some, List, [], ◌∷◌, ◌==◌, eq_iff,
  if-elim, Outcome, done, failed, crashed, ◌>>=◌, from_result, Returns, Returns-bind, Returns-then,
  Ensures,
}
use hiddify_core.Config.Options.{ConfigOptions, WarpWireguardConfig}
use hiddify_core.Config.Sing.{Outbound}
use hiddify_core.Config.Warp.{
  Outside, WarpRequest, StaticIps, client_bytes, wire_guard_to_singbox, generate_warp_singbox,
}
use hiddify_core.Config.Warp.Patched.{Settled, patch_warp-Settled}
use hiddify_core.Config.Collect.{
  warp_tag, adds_warp, named_warp, named_outcome, generated_warp, drop_error, own_warp,
}

abbrev IsWireGuard : Outbound → Type 0
IsWireGuard o = o.type ≡ "wireguard"

ne_empty : (t : String) → (t == "") ≡ false → t ≢ ""
ne_empty t e h = cc (e, (eq_iff t "").1 h)

module _ (out : Outside) where
  generate_warp_singbox-IsWireGuard :
      (wg : WarpWireguardConfig) (r : WarpRequest)
      → Returns IsWireGuard (generate_warp_singbox out wg r)
  unfolding generate_warp_singbox wire_guard_to_singbox
  generate_warp_singbox-IsWireGuard wg r =
      Returns-then IsWireGuard IsWireGuard (wire_guard_to_singbox out wg _ r.port) _
        (Returns-bind IsWireGuard (client_bytes (out.decode_base64 wg.client_id)) _ (λ bytes _.
          Returns-bind IsWireGuard (from_result (out.parse_prefix _)) _
            (λ v4 _. Returns-bind IsWireGuard (from_result (out.parse_prefix _)) _ (λ v6 _. refl))))
        (λ o h. h)

  -- An outbound that patchWarp can settle with a nil map.
  abbrev IsReady : Outbound → Type 0
  IsReady o = IsWireGuard o × (o.tag ≡ warp_tag) × (o.wire_guard.detour ≢ "")

  detoured : (opt : ConfigOptions) (o : Outbound) → (named_warp opt o).wire_guard.detour ≢ ""
  detoured opt o =
      if-elim (λ d. d ≢ "") (opt.warp.mode == "warp_over_proxy") (λ _. ne_empty "select" refl)
        (λ _. ne_empty "direct" refl)

  named_outcome-IsReady :
      (opt : ConfigOptions) (m : Outcome Outbound)
      → Returns IsWireGuard m
      → Returns IsReady (named_outcome opt m)
  named_outcome-IsReady opt (done o) h = (h, refl, detoured opt o)
  named_outcome-IsReady opt (failed e) h = tt
  named_outcome-IsReady opt crashed h = tt

  -- What is added where the options ask for it.
  pub record Added (o : Outbound) (os : List Outbound) : Type 0 where
    pub outbound : Outbound
    pub static : Option StaticIps
    pub alone : os ≡ outbound ∷ []
    pub tag : outbound.tag ≡ warp_tag
    pub settled : Settled out o (outbound, static)

  added :
      (o : Outbound) (x : Outcome (Outbound × Option StaticIps))
      → o.tag ≡ warp_tag
      → Ensures (Settled out o) x
      → Ensures (Added o) (drop_error o x >>= λ (o' : Outbound). done (o' ∷ []))
  added o (done r) t h = record {
    outbound = r.0;
    static = r.1;
    alone = refl;
    tag = h.tag ∙ t;
    settled = h;
  }
  added o (failed e) t h = absurd h
  added o crashed t h = absurd h

  -- Where the options ask for Warp and its outbound can be generated, exactly one outbound is added,
  -- with the tag of Warp, and it is what patchWarp makes of the generated one: the nil map that the
  -- call is given is never written to.
  pub own_warp-Added :
      (opt : ConfigOptions) (o : Outbound)
      → adds_warp opt ≡ true
      → generated_warp out opt ≡ done o
      → Ensures (Added o) (own_warp out opt)
  unfolding own_warp
  own_warp-Added opt o a g =
      let ready : IsReady o = subst (Returns IsReady) g (
        named_outcome-IsReady opt _
          (generate_warp_singbox-IsWireGuard opt.warp.wireguard_config _)) in
      rw (a, g)
        (added o _ ready.1 (patch_warp-Settled out o (some opt) none ready.0 (λ _. ready.2)))
