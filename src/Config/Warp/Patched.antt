-- ===== src/Config/Warp/Patched.antt =====
-- What patchWarp makes of a WireGuard outbound of the final configuration.
use mathlib.Core.Path.{subst}
use hiddify_core.Prelude.{
  ◌+◌, ◌++◌, Option-cases, if◌then◌else◌, ◌≤◌, ◌<◌, String, ◌≡◌, ◌≢◌, ◌⊎◌, inl, inr, refl, sym,
  Bool, true, false, ◌||◌, Option, none, some, List, [], ◌∷◌, arith, ◌==◌, eq_iff, if-elim, Outcome,
  done, ◌>>=◌, failed, crashed, Ensures,
}
use hiddify_core.Config.Options.{ConfigOptions}
use hiddify_core.Config.Sing.{WireGuard, Outbound}
use hiddify_core.Config.Warp.Endpoint.{random_warp_port_bounds}
use hiddify_core.Config.Warp.{
  Outside, StaticIps, set_static, is_placeholder, is_blocked_domain, settle_server, settle, finish,
  convert_custom, patch_warp, random_addresses,
}

abbrev pub lookup : String → StaticIps → List String
lookup k [] = []
lookup k ((j, v) ∷ m) = elim (j == k) [ true ↦ v | false ↦ lookup k m ]

lookup-set_static : (k : String) (v : List String) (m : StaticIps) → lookup k (set_static k v m) ≡ v
unfolding set_static
lookup-set_static k v [] = ground (arith, eq_iff k k)
lookup-set_static k v ((j, w) ∷ m) = ground (arith, eq_iff k k, eq_iff j k, lookup-set_static k v m)

-- No host is both.
not_both : (host : String) → (host == "auto4") ≡ true → (host == "auto6") ≡ true → ⊥
not_both host e f =
    let g : ("auto4" == "auto6") ≡ true =
      subst (λ h. (h == "auto6") ≡ true) ((eq_iff host "auto4").0 e) f in
    cc g

one_of :
    (a b : Bool) (x y : String)
    → (a ≡ true → b ≡ true → ⊥)
    → (if a then [] else x ∷ []) ++ (if b then [] else y ∷ []) ≢ []
one_of true true x y h = λ _. h refl refl
one_of true false x y h = λ e. cc e
one_of false b x y h = λ e. cc e

module _ (out : Outside) where
  random_addresses-ne-nil : (host : String) → random_addresses out host ≢ []
  unfolding random_addresses
  random_addresses-ne-nil host = one_of (host == "auto4") (host == "auto6") _ _ (not_both host)

  -- A usable server: one that was given, the fixed address, or the random name with addresses.
  abbrev pub Reachable : WireGuard → String × Option StaticIps → Type 0
  Reachable w (server, ips) =
      ((server ≡ w.server)
        × ((is_placeholder w.server || is_blocked_domain out.lookup_host w.server) ≡ false))
      ⊎ ((server ≡ "162.159.192.1") × (w.detour ≢ ""))
      ⊎ ((m : StaticIps) × (ips ≡ some m) × (server ≡ out.random_name) × (lookup server m ≢ []))

  random-Reachable :
      (w : WireGuard) (m : StaticIps)
      → Reachable w
          (out.random_name, some (set_static out.random_name (random_addresses out w.server) m))
  random-Reachable w m = inr (
      inr (
        set_static out.random_name (random_addresses out w.server) m,
        refl,
        refl,
        rw (lookup-set_static out.random_name (random_addresses out w.server) m)
            (random_addresses-ne-nil w.server),
      ))

  settle_server-Reachable :
      (w : WireGuard) (ips : Option StaticIps)
      → (ips ≡ none → w.detour ≢ "")
      → Ensures (Reachable w) (settle_server out w ips)
  unfolding settle_server
  settle_server-Reachable w ips h =
      if-elim (Ensures (Reachable w))
        (is_placeholder w.server || is_blocked_domain out.lookup_host w.server)
        (λ _.
          if-elim (Ensures (Reachable w)) (w.detour == "")
            (λ e. elim (Option-cases ips) [
              | inl n ↦ absurd (h n ((eq_iff w.detour "").0 e))
              | inr p ↦ rw (p.1) (random-Reachable w p.0)
            ])
            (λ e. inr (inl (refl, λ d. cc (e, (eq_iff w.detour "").1 d)))))
        (λ e. inl (refl, e))

  -- The outbound and the static addresses that patchWarp leaves of `base`.
  pub record Settled (base : Outbound) (r : Outbound × Option StaticIps) : Type 0 where
    pub tag : r.0.tag ≡ base.tag
    pub type : r.0.type ≡ base.type
    pub key : r.0.wire_guard.private_key ≡ base.wire_guard.private_key
    pub detour : r.0.wire_guard.detour ≡ base.wire_guard.detour
    pub reachable : Reachable base.wire_guard (r.0.wire_guard.server, r.1)
    pub port : r.0.wire_guard.server_port ≢ 0
    pub port_kept :
        base.wire_guard.server_port ≢ 0 → r.0.wire_guard.server_port ≡ base.wire_guard.server_port
    pub quiet :
        base.wire_guard.detour ≢ ""
        → (r.0.wire_guard.fake_packets ≡ "")
          × (r.0.wire_guard.fake_packets_size ≡ "")
          × (r.0.wire_guard.fake_packets_delay ≡ "")
    pub loud :
        base.wire_guard.detour ≡ ""
        → (r.0.wire_guard.fake_packets ≡ base.wire_guard.fake_packets)
          × (r.0.wire_guard.fake_packets_size ≡ base.wire_guard.fake_packets_size)
          × (r.0.wire_guard.fake_packets_delay ≡ base.wire_guard.fake_packets_delay)
          × (r.0.wire_guard.mtu ≡ base.wire_guard.mtu)
    pub mtu_small : base.wire_guard.mtu ≤ 1000 → r.0.wire_guard.mtu ≡ base.wire_guard.mtu
    pub mtu_lowered :
        base.wire_guard.detour ≢ ""
        → 1000 < base.wire_guard.mtu
        → r.0.wire_guard.mtu + 50 ≡ base.wire_guard.mtu

  settle-port : (w : WireGuard) → (settle out w).server_port ≢ 0
  unfolding settle
  settle-port w = ground (arith, random_warp_port_bounds out.port_draw)

  settle-server : (w : WireGuard) → (settle out w).server ≡ w.server
  unfolding settle
  settle-server w = ground arith

  settle-Settled :
      (base : Outbound) (r : String × Option StaticIps)
      → Reachable base.wire_guard r
      → Settled base
          (record base { wire_guard = settle out (record (base.wire_guard) { server = r.0 }) }, r.1)
  settle-Settled base r h =
      let w = record (base.wire_guard) { server = r.0 } in
      record {
        tag = refl;
        type = refl;
        key = unfold settle in ground arith;
        detour = unfold settle in ground arith;
        reachable = rw (settle-server w) h;
        port = settle-port w;
        port_kept = unfold settle in ground arith;
        quiet = unfold settle in λ d. ground (arith, eq_iff base.wire_guard.detour "");
        loud = unfold settle in λ d. ground (arith, eq_iff base.wire_guard.detour "");
        mtu_small = unfold settle in ground arith;
        mtu_lowered = unfold settle in λ d. ground (arith, eq_iff base.wire_guard.detour "");
      }

  finish-Settled :
      (base : Outbound) (x : Outcome (String × Option StaticIps))
      → Ensures (Reachable base.wire_guard) x
      → Ensures (Settled base) (
          x >>= λ (r : String × Option StaticIps). done (
            record base { wire_guard = settle out (record (base.wire_guard) { server = r.0 }) },
            r.1,
          ))
  finish-Settled base (done r) h = settle-Settled base r h
  finish-Settled base (failed e) h = absurd h
  finish-Settled base crashed h = absurd h

  pub patch_warp-Settled :
      (base : Outbound) (opt : Option ConfigOptions) (ips : Option StaticIps)
      → base.type ≡ "wireguard"
      → (ips ≡ none → base.wire_guard.detour ≢ "")
      → Ensures (Settled base) (patch_warp out base opt true ips)
  unfolding patch_warp convert_custom finish
  patch_warp-Settled base opt ips e h =
      let c : (base.type == "custom") ≡ false = subst (λ t. (t == "custom") ≡ false) (sym e) refl in
      let g : (base.type == "wireguard") ≡ true =
        subst (λ t. (t == "wireguard") ≡ true) (sym e) refl in
      rw (c, g)
        (finish-Settled base (settle_server out base.wire_guard ips)
          (settle_server-Reachable base.wire_guard ips h))
