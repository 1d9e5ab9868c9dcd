-- ===== src/Config/Routing/RuleSets.antt =====
-- The rule sets that the rules name are loaded.
pub mod Free
use Prim.Native.String.{◌++◌ as append}
use hiddify_core.Prelude.{
  String, ◌≡◌, refl, ap, Bool, true, false, none, some, List, [], ◌∷◌, ◌++◌, any, all, All,
  All-append, arith, ◌==◌, eq_iff, if-elim, any-append-right,
}
use hiddify_core.Config.Text.{split}
use hiddify_core.Config.Tags.{dns_remote_tag}
use hiddify_core.Config.Rules.{Rule, DefaultRule, DefaultDnsRule, empty_dns_rule, make_dns_rule}
use hiddify_core.Config.Routing.RuleSets.Free.{add_dns_domains-Free}
use hiddify_core.Config.Routing.Valid.{valid_dns_rules-All}
use hiddify_core.Config.Options.{ConfigOptions}
use hiddify_core.Config.Routing.{
  Library, RuleSet, user_dns_rule, user_dns_rules, test_dns_rules, region_dns_rules, dns_rules,
  routed_dns_rules, ads_sets, region_sets, region_tags,
}

-- Every one of the rule sets is loaded by the configuration.
abbrev pub loaded : ConfigOptions → List String → Bool
loaded opt ts = all (λ t. any (λ s. s.tag == t) (ads_sets opt ++ region_sets opt)) ts

abbrev Loaded : ConfigOptions → List String → Type 0
Loaded opt ts = loaded opt ts ≡ true

abbrev pub RuleLoaded : ConfigOptions → DefaultRule → Type 0
RuleLoaded opt r = Loaded opt r.rule_set

abbrev pub DnsLoaded : ConfigOptions → DefaultDnsRule → Type 0
DnsLoaded opt r = Loaded opt r.rule_set

Free-Loaded : (opt : ConfigOptions) (ts : List String) → ts ≡ [] → Loaded opt ts
Free-Loaded opt ts e = ap (loaded opt) e

same : (s : String) → (s == s) ≡ true
same s = (eq_iff s s).1 refl

abbrev tagged : String → RuleSet → Bool
tagged t s = s.tag == t

region_sets-tags :
    (opt : ConfigOptions)
    → (opt.region == "other") ≡ false
    → (any (tagged (append "geoip-" opt.region)) (region_sets opt) ≡ true)
      × (any (tagged (append "geosite-" opt.region)) (region_sets opt) ≡ true)
unfolding region_sets
region_sets-tags opt e =
    let h₁ = same (append "geoip-" opt.region) in
    let h₂ = same (append "geosite-" opt.region) in rw e (rw h₁ (rw h₂ (refl, ground arith)))

region_tags-Loaded :
    (opt : ConfigOptions) → (opt.region == "other") ≡ false → Loaded opt (region_tags opt.region)
region_tags-Loaded opt e =
    let hs = region_sets-tags opt e in
    rw (any-append-right (tagged (append "geoip-" opt.region)) (ads_sets opt) _ hs.0)
      (rw (any-append-right (tagged (append "geosite-" opt.region)) (ads_sets opt) _ hs.1) refl)

module _ (lib : Library) (opt : ConfigOptions) where
  user_dns_rule-Loaded :
      (outbound : String) (r : DefaultDnsRule)
      → r.rule_set ≡ []
      → All (DnsLoaded opt) (user_dns_rule opt outbound r)
  unfolding user_dns_rule
  user_dns_rule-Loaded outbound r free =
      let D = All (DnsLoaded opt) in
      let h = Free-Loaded opt _ free in
      if-elim D (outbound == "bypass") (λ _. (h, tt))
        (λ _.
          if-elim D (outbound == "block") (λ _. (h, tt))
            (λ _.
              if-elim D (outbound == "proxy")
                (λ _.
                  All-append (DnsLoaded opt) _ (record r { server = dns_remote_tag } ∷ [])
                    (if-elim D opt.dns.enable_fake_dns (λ _. (h, tt)) (λ _. tt)) (h, tt))
                (λ _. (h, tt))))

  user_dns_rules-Loaded : (rules : List Rule) → All (DnsLoaded opt) (user_dns_rules lib opt rules)
  unfolding user_dns_rules make_dns_rule
  user_dns_rules-Loaded [] = tt
  user_dns_rules-Loaded (rule ∷ rules) =
      All-append (DnsLoaded opt) (user_dns_rule opt rule.outbound _) _
        (user_dns_rule-Loaded rule.outbound _
          (add_dns_domains-Free lib.to_lower (split rule.domains) empty_dns_rule refl))
        (user_dns_rules-Loaded rules)

  test_dns_rules-Loaded : All (DnsLoaded opt) (test_dns_rules lib opt)
  unfolding test_dns_rules
  test_dns_rules-Loaded =
      elim (lib.url_host opt.url_test.connection_test_url)
        as (λ h. All (DnsLoaded opt) (elim h [
          | none ↦ []
          | some host ↦
              record empty_dns_rule {
                domain = host ∷ [];
                server = dns_remote_tag;
                rewrite_ttl = some 3000;
              }
              ∷ []
        ])) [ none ↦ tt | some host ↦ (refl, tt) ]

  dns_rules-Loaded : All (DnsLoaded opt) (dns_rules lib opt)
  unfolding dns_rules region_dns_rules
  dns_rules-Loaded =
      All-append (DnsLoaded opt) (user_dns_rules lib opt opt.rules) _
        (user_dns_rules-Loaded opt.rules)
        (All-append (DnsLoaded opt) (test_dns_rules lib opt) _ test_dns_rules-Loaded (
          if-elim (All (DnsLoaded opt)) (opt.region == "other") (λ _. tt)
            (λ e. (refl, (region_tags-Loaded opt e, tt)))))

  -- Every rule set that a DNS rule of the route settings names is among those that the same
  -- configuration loads.
  routed_dns_rules-Loaded : All (DnsLoaded opt) (routed_dns_rules lib opt)
  unfolding routed_dns_rules
  routed_dns_rules-Loaded =
      if-elim (All (DnsLoaded opt)) opt.dns.enable_dns_routing
        (λ _. valid_dns_rules-All lib (DnsLoaded opt) (dns_rules lib opt) dns_rules-Loaded)
        (λ _. tt)
