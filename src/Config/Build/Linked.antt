-- ===== src/Config/Build/Linked.antt =====
-- What a configuration names is in it.
use mathlib.Core.Path.{subst}
use hiddify_core.Prelude.{
  sym, String, ◌≡◌, inl, inr, refl, true, ◌||◌, List, [], ◌∷◌, ◌++◌, any, all, All, All-map, arith,
  ◌==◌, if-elim, Outcome, done, failed, crashed, Returns, Returns-then,
}
use hiddify_core.Config.Options.{ConfigOptions}
use hiddify_core.Config.Sing.{Outbound}
use hiddify_core.Config.Outbounds.{selector, url_test, fixed_outbounds, all_outbounds}
use hiddify_core.Config.Routing.{route_settings}
use hiddify_core.Config.Routing.Declared.{known, route_settings-Routed}
use hiddify_core.Config.Dns.{
  DnsServer, DnsSettings, dns_servers, set_dns, set_fake_dns, with_rules, add_force_direct,
  built_dns,
}
use hiddify_core.Config.Dns.Servers.{Sound, built_dns-Sound}
use hiddify_core.Config.Collect.{
  Collected, without_double, over_warp, adds_warp, warp_tag, collect_all,
}
use hiddify_core.Config.Collect.Members.{
  Tagged, has_tag-append-left, has_tag-append-right, Grouped, collect_all-Grouped, collect_all-Warp,
  main_tag-cases,
}
use hiddify_core.Config.Build.{
  Options, Profile, World, BuildState, assembled, collected, next_state, build_config,
}

-- The server is reached directly or over an outbound with this tag.
abbrev pub DetourTagged : List Outbound → DnsServer → Type 0
DetourTagged os d = (d.detour == "" || any (λ o. o.tag == d.detour) os) ≡ true

module _ (w : World) (st : BuildState) (opt : ConfigOptions) (input : Profile) where
  -- What is linked in the configuration `o`.
  pub record Linked (o : Options) : Type 0 where
    pub select : Outbound
    pub auto : Outbound
    pub rest : List Outbound
    pub groups : o.outbounds ≡ select ∷ auto ∷ rest
    pub select_group : (select.tag ≡ "select") × (select.type ≡ "selector")
    pub auto_group : (auto.tag ≡ "auto") × (auto.type ≡ "urltest")
    pub select_over : select.members ≡ "auto" ∷ auto.members
    pub members : All (Tagged o.outbounds) select.members
    pub routed : all known opt.rules ≡ true → All (λ r. Tagged o.outbounds r.outbound) o.route.rules
    pub served : all known opt.rules ≡ true → Sound o.dns
    pub detours : All (DetourTagged o.outbounds) o.dns.servers
    pub over : over_warp (without_double opt input.outbounds) ≡ true → Tagged o.outbounds warp_tag
    pub left : Tagged o.outbounds (next_state w st opt input).main_proxy_tag
    pub final : o.route.final ≡ st.main_proxy_tag

  abbrev outs : Collected → List Outbound
  outs c = all_outbounds opt c.tags c.outbounds

  in_proxies : (c : Collected) (t : String) → Tagged c.outbounds t → Tagged (outs c) t
  unfolding all_outbounds
  in_proxies c t h =
      has_tag-append-right (selector c.tags ∷ url_test opt c.tags ∷ []) _ t
        (has_tag-append-left c.outbounds (fixed_outbounds opt) t h)

  in_fixed : (c : Collected) (t : String) → Tagged (fixed_outbounds opt) t → Tagged (outs c) t
  unfolding all_outbounds
  in_fixed c t h = has_tag-append-right (selector c.tags ∷ url_test opt c.tags ∷ c.outbounds) _ t h

  detoured :
      (os : List Outbound) (t : String) → Tagged os t → (t == "" || any (λ o. o.tag == t) os) ≡ true
  detoured os t h = ground arith

  servers-DetourTagged :
      (c : Collected)
      → All (DetourTagged (outs c)) (built_dns w.lookup_host w.library w.net opt c.keys).servers
  unfolding built_dns add_force_direct set_fake_dns with_rules set_dns dns_servers fixed_outbounds
  servers-DetourTagged c =
      let direct = detoured (outs c) "direct" (in_fixed c "direct" refl) in
      let fragment = detoured (outs c) "direct-fragment" (in_fixed c "direct-fragment" refl) in
      if-elim (λ (s : DnsSettings). All (DetourTagged (outs c)) s.servers) opt.dns.enable_fake_dns
        (λ _. (refl, (fragment, (direct, (direct, (refl, (refl, tt)))))))
        (λ _. (refl, (fragment, (direct, (direct, (refl, tt))))))

  main-Tagged :
      (c : Collected)
      → (adds_warp (without_double opt input.outbounds) ≡ true → Tagged c.outbounds warp_tag)
      → Tagged (outs c) (next_state w st opt input).main_proxy_tag
  unfolding next_state all_outbounds
  main-Tagged c h = elim (main_tag-cases (w.outside 0) (without_double opt input.outbounds)) [
    | inl e ↦
        let at_select : Tagged (outs c) "select" = refl in
        subst (λ t. Tagged (outs c) t) (sym e) at_select
    | inr p ↦ subst (λ t. Tagged (outs c) t) (sym p.0) (in_proxies c warp_tag (h p.1))
  ]

  adds_over :
      over_warp (without_double opt input.outbounds) ≡ true
      → adds_warp (without_double opt input.outbounds) ≡ true
  adds_over e = ground arith

  assembled-Linked :
      (c : Collected)
      → Grouped [] c
        × (adds_warp (without_double opt input.outbounds) ≡ true → Grouped (warp_tag ∷ []) c)
      → Linked (assembled w st opt input c)
  unfolding all_outbounds
  assembled-Linked c h =
      let warp : adds_warp (without_double opt input.outbounds) ≡ true
          → Tagged c.outbounds warp_tag =
        λ a. (h.1 a).given_tags.0 in
      record {
        select = selector c.tags;
        auto = url_test opt c.tags;
        rest = c.outbounds ++ fixed_outbounds opt;
        groups = refl;
        select_group = unfold selector in (refl, refl);
        auto_group = unfold url_test in (refl, refl);
        select_over = unfold selector url_test in refl;
        members = unfold selector in (refl, All-map c.tags (in_proxies c) h.0.members);
        routed = λ k.
            All-map (route_settings w.library opt st.main_proxy_tag).rules
              (λ r. in_fixed c r.outbound)
              (route_settings-Routed opt w.library st.main_proxy_tag k);
        served = λ k.
            let s = built_dns-Sound w.lookup_host w.library w.net opt c.keys k in
            record { rules = s.rules; final = s.final; resolvers = s.resolvers };
        detours = servers-DetourTagged c;
        over = λ e. in_proxies c warp_tag (warp (adds_over e));
        left = main-Tagged c warp;
        final = unfold route_settings in refl;
      }

  both_return :
      (P R : Collected → Type 0) (a : Type 0) (m : Outcome Collected)
      → Returns P m
      → (a → Returns R m)
      → Returns (λ c. P c × (a → R c)) m
  both_return P R a (done c) p r = (p, r)
  both_return P R a (failed e) p r = tt
  both_return P R a crashed p r = tt

  -- A configuration that is built begins with a selector with the tag "select" and a URL test with the
  -- tag "auto". The selector's members are "auto" and the members of the URL test, and each is the tag
  -- of one of its outbounds. Its DNS servers go out over outbounds that it has, and where the
  -- rules of the user are for "bypass", "block" or "proxy", so do its route rules, and its DNS rules
  -- and servers name servers that it has. Where proxies are sent over Warp, the Warp outbound is in
  -- it. The main proxy tag that the build leaves behind is the tag of one of its outbounds, while its
  -- routes end in the one that the build before left.
  pub build_config-Linked : Returns Linked (build_config w st opt input).0
  unfolding build_config collected
  build_config-Linked =
      let opt' = without_double opt input.outbounds in
      let static = (set_dns w.lookup_host opt).static_ips in
      Returns-then (λ c. Grouped [] c × (adds_warp opt' ≡ true → Grouped (warp_tag ∷ []) c)) Linked
        (collect_all w.outside w.codec opt' static input.outbounds) _
        (both_return (Grouped []) (Grouped (warp_tag ∷ [])) (adds_warp opt' ≡ true) _
          (collect_all-Grouped w.outside w.codec opt' static input.outbounds)
          (collect_all-Warp w.outside w.codec opt' static input.outbounds))
        assembled-Linked
