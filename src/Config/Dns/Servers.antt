-- ===== src/Config/Dns/Servers.antt =====
-- The DNS servers that the rules and the servers name exist.
use hiddify_core.Prelude.{
  String, ◌≡◌, refl, Bool, true, false, ◌||◌, ◌&&◌, Option, none, some, List, [], ◌∷◌, ◌++◌, any,
  all, All, All-append, All-map, arith, ◌==◌, if-elim,
}
use hiddify_core.Config.Tags.{dns_remote_tag, dns_direct_tag, dns_fake_tag}
use hiddify_core.Config.Rules.{Rule, DefaultDnsRule, empty_dns_rule}
use hiddify_core.Config.Options.{ConfigOptions}
use hiddify_core.Config.Routing.{
  Library, user_dns_rule, user_dns_rules, test_dns_rules, region_dns_rules, dns_rules,
  routed_dns_rules,
}
use hiddify_core.Config.Routing.Valid.{valid_dns_rules-All}
use hiddify_core.Config.Routing.Declared.{known}
use hiddify_core.Config.Dns.{
  Net, DnsServer, DnsSettings, dns_servers, fake_server, set_dns, set_fake_dns, with_rules,
  with_remote_host, prepend_rule, add_force_direct, built_dns,
}

-- A tag of a server that the options ask for.
abbrev served : ConfigOptions → String → Bool
served opt t =
    any (λ d. d.tag == t) (dns_servers opt) || (opt.dns.enable_fake_dns && dns_fake_tag == t)

abbrev Served : ConfigOptions → DefaultDnsRule → Type 0
Served opt r = served opt r.server ≡ true

module _ (opt : ConfigOptions) where
  user_dns_rule-Served :
      (rule : Rule) (r : DefaultDnsRule)
      → known rule ≡ true
      → All (Served opt) (user_dns_rule opt rule.outbound r)
  unfolding user_dns_rule dns_servers
  user_dns_rule-Served rule r h =
      let D = All (Served opt) in
      if-elim D (rule.outbound == "bypass") (λ _. (refl, tt))
        (λ e.
          if-elim D (rule.outbound == "block") (λ _. (refl, tt))
            (λ e'.
              if-elim D (rule.outbound == "proxy")
                (λ _.
                  All-append (Served opt) _ (record r { server = dns_remote_tag } ∷ [])
                    (if-elim D opt.dns.enable_fake_dns (λ b. (rw b refl, tt)) (λ _. tt)) (refl, tt))
                (λ e''. ground arith)))

  user_dns_rules-Served :
      (lib : Library) (rules : List Rule)
      → all known rules ≡ true
      → All (Served opt) (user_dns_rules lib opt rules)
  unfolding user_dns_rules
  user_dns_rules-Served lib [] h = tt
  user_dns_rules-Served lib (rule ∷ rules) h =
      All-append (Served opt) (user_dns_rule opt rule.outbound _) _
        (user_dns_rule-Served rule _ (ground arith))
        (user_dns_rules-Served lib rules (ground arith))

  test_dns_rules-Served : (lib : Library) → All (Served opt) (test_dns_rules lib opt)
  unfolding test_dns_rules dns_servers
  test_dns_rules-Served lib =
      elim (lib.url_host opt.url_test.connection_test_url)
        as (λ h. All (Served opt) (elim h [
          | none ↦ []
          | some host ↦
              record empty_dns_rule {
                domain = host ∷ [];
                server = dns_remote_tag;
                rewrite_ttl = some 3000;
              }
              ∷ []
        ])) [ none ↦ tt | some host ↦ (refl, tt) ]

  routed_dns_rules-Served :
      (lib : Library) → all known opt.rules ≡ true → All (Served opt) (routed_dns_rules lib opt)
  unfolding routed_dns_rules dns_rules region_dns_rules dns_servers
  routed_dns_rules-Served lib h =
      let D = All (Served opt) in
      if-elim D opt.dns.enable_dns_routing
        (λ _. valid_dns_rules-All lib (Served opt) (dns_rules lib opt) (
          All-append (Served opt) (user_dns_rules lib opt opt.rules) _
            (user_dns_rules-Served lib opt.rules h)
            (All-append (Served opt) (test_dns_rules lib opt) _ (test_dns_rules-Served lib)
              (if-elim D (opt.region == "other") (λ _. tt) (λ _. (refl, (refl, tt)))))))
        (λ _. tt)

-- A server with this tag is among the settings'.
abbrev defined : DnsSettings → String → Bool
defined s t = any (λ d. d.tag == t) s.servers

abbrev RuleDefined : List DnsServer → DefaultDnsRule → Type 0
RuleDefined ds r = any (λ d. d.tag == r.server) ds ≡ true

-- Every rule's server, the final server and the servers that resolve other servers' addresses exist.
pub record Sound (s : DnsSettings) : Type 0 where
  pub rules : All (RuleDefined s.servers) s.rules
  pub final : defined s s.final ≡ true
  pub resolvers :
      all (λ d. d.address_resolver == "" || defined s d.address_resolver) s.servers ≡ true

with_fake :
    (opt : ConfigOptions) (t : String)
    → served opt t ≡ true
    → any (λ d. d.tag == t) (dns_servers opt ++ fake_server ∷ []) ≡ true
unfolding dns_servers
with_fake opt t h = ground arith

without_fake :
    (opt : ConfigOptions) (t : String)
    → opt.dns.enable_fake_dns ≡ false
    → served opt t ≡ true
    → any (λ d. d.tag == t) (dns_servers opt) ≡ true
without_fake opt t e h = ground arith

faked :
    (lookup_host : String → Option (List String)) (opt : ConfigOptions) (rs : List DefaultDnsRule)
    → All (Served opt) rs
    → Sound (set_fake_dns opt (with_rules rs (set_dns lookup_host opt)))
unfolding set_fake_dns with_rules set_dns dns_servers
faked lookup_host opt rs h =
    if-elim Sound opt.dns.enable_fake_dns
      (λ e. record {
        rules =
            All-append (RuleDefined (dns_servers opt ++ fake_server ∷ [])) rs _
              (All-map rs (λ r. with_fake opt r.server) h) (refl, tt);
        final = refl;
        resolvers = refl;
      })
      (λ e. record {
        rules = All-map rs (λ r. without_fake opt r.server e) h;
        final = refl;
        resolvers = refl;
      })

direct-defined :
    (lookup_host : String → Option (List String)) (opt : ConfigOptions) (rs : List DefaultDnsRule)
    → defined (set_fake_dns opt (with_rules rs (set_dns lookup_host opt))) dns_direct_tag ≡ true
unfolding set_fake_dns with_rules set_dns dns_servers
direct-defined lookup_host opt rs =
    if-elim (λ s. defined s dns_direct_tag ≡ true) opt.dns.enable_fake_dns (λ _. refl) (λ _. refl)

prepended :
    (net : Net) (keys : List String) (s : DnsSettings)
    → defined s dns_direct_tag ≡ true
    → All (RuleDefined s.servers) s.rules
    → All (RuleDefined s.servers) (prepend_rule net keys s.rules)
prepended net [] s d h = h
prepended net (k ∷ ks) s d h = (d, h)

-- Where every rule of the user is for "bypass", "block" or "proxy", the DNS settings that are built
-- have a server for every rule of theirs, with the rules of the user, of the region, of the fake DNS
-- and of the proxies' servers, a final server, and a server for the address of every server that
-- asks for one.
pub built_dns-Sound :
    (lookup_host : String → Option (List String)) (lib : Library) (net : Net) (opt : ConfigOptions)
    (keys : List String)
    → all known opt.rules ≡ true
    → Sound (built_dns lookup_host lib net opt keys)
unfolding built_dns add_force_direct
built_dns-Sound lookup_host lib net opt keys h =
    let rs = routed_dns_rules lib opt in
    let s₀ = set_fake_dns opt (with_rules rs (set_dns lookup_host opt)) in
    let s = faked lookup_host opt rs (routed_dns_rules-Served opt lib h) in
    record {
      rules =
          prepended net (with_remote_host net opt keys) s₀ (direct-defined lookup_host opt rs)
            s.rules;
      final = s.final;
      resolvers = s.resolvers;
    }
