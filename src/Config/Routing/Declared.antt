-- ===== src/Config/Routing/Declared.antt =====
-- The outbounds that the rules name exist.
use hiddify_core.Prelude.{
  String, ◌≡◌, refl, Bool, true, ◌||◌, List, [], ◌∷◌, any, all, All, All-append, arith, ◌==◌,
  if-elim,
}
use hiddify_core.Config.Rules.{Rule, DefaultRule}
use hiddify_core.Config.Options.{ConfigOptions}
use hiddify_core.Config.Outbounds.{fixed_outbounds}
use hiddify_core.Config.Routing.{
  Library, hijack_rules, tun_rules, lan_rules, user_outbound, user_rules, ads_rules, region_rules,
  route_rules, route_settings,
}

-- The outbounds that the options are documented to name.
abbrev pub known : Rule → Bool
known r = r.outbound == "bypass" || (r.outbound == "block" || r.outbound == "proxy")

-- The outbound of the rule is one that every configuration has.
abbrev pub has_outbound : ConfigOptions → DefaultRule → Bool
has_outbound opt r = any (λ o. o.tag == r.outbound) (fixed_outbounds opt)

abbrev pub Routed : ConfigOptions → DefaultRule → Type 0
Routed opt r = has_outbound opt r ≡ true

module _ (opt : ConfigOptions) where
  user_outbound-Routed :
      (rule : Rule) (r : DefaultRule)
      → known rule ≡ true
      → Routed opt (user_outbound rule.outbound r)
  unfolding user_outbound fixed_outbounds
  user_outbound-Routed rule r h =
      if-elim (Routed opt) (rule.outbound == "bypass") (λ _. refl)
        (λ e.
          if-elim (Routed opt) (rule.outbound == "block") (λ _. refl)
            (λ e'.
              if-elim (Routed opt) (rule.outbound == "proxy") (λ _. refl) (λ e''. ground arith)))

  user_rules-Routed :
      (lib : Library) (rules : List Rule)
      → all known rules ≡ true
      → All (Routed opt) (user_rules lib rules)
  unfolding user_rules
  user_rules-Routed lib [] h = tt
  user_rules-Routed lib (rule ∷ rules) h =
      let rest = user_rules-Routed lib rules (ground arith) in
      if-elim (All (Routed opt)) (lib.is_valid_rule _)
        (λ _. (user_outbound-Routed rule _ (ground arith), rest)) (λ _. rest)

  -- Where every rule of the user is for "bypass", "block" or "proxy", every route rule of the
  -- configuration names one of the five outbounds that every configuration has: none of them is a
  -- proxy or a group of proxies.
  pub route_settings-Routed :
      (lib : Library) (main_proxy_tag : String)
      → all known opt.rules ≡ true
      → All (Routed opt) (route_settings lib opt main_proxy_tag).rules
  unfolding route_settings route_rules hijack_rules tun_rules lan_rules ads_rules region_rules
      fixed_outbounds
  route_settings-Routed lib main_proxy_tag h =
      let R = All (Routed opt) in
      All-append (Routed opt) hijack_rules _ (refl, (refl, tt))
        (All-append (Routed opt) (tun_rules opt) _
          (if-elim R opt.inbound.enable_tun (λ _. (refl, tt)) (λ _. tt))
          (All-append (Routed opt) (lan_rules opt) _
            (if-elim R opt.route.bypass_lan (λ _. (refl, tt)) (λ _. tt))
            (All-append (Routed opt) (user_rules lib opt.rules) _
              (user_rules-Routed lib opt.rules h)
              (All-append (Routed opt) (ads_rules opt) _
                (if-elim R opt.block_ads (λ _. (refl, tt)) (λ _. tt))
                (if-elim R (opt.region == "other") (λ _. tt) (λ _. (refl, (refl, tt))))))))
