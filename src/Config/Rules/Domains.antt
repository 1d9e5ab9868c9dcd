-- ===== src/Config/Rules/Domains.antt =====
-- The domains of a rule: its route rule and its DNS rule choose the same ones.
use hiddify_core.Prelude.{
  String, ◌≡◌, Bool, true, false, List, [], ◌∷◌, ◌==◌, eq_iff, arith, Bool-cases, inl, inr,
  if◌then◌else◌,
}
use hiddify_core.Config.Text.{has_prefix, split, split_on}
use hiddify_core.Config.Rules.{
  Rule, DefaultRule, DefaultDnsRule, empty_rule, empty_dns_rule, make_ip_rule, add_port,
  make_port_rule, add_domain, make_domain_rule, add_dns_domain, add_dns_domains, make_dns_rule,
  make_rule,
}

-- The two rules select the same domains.
pub record SameDomains (d : DefaultDnsRule) (r : DefaultRule) : Type 0 where
  pub geosite : d.geosite ≡ r.geosite
  pub domain : d.domain ≡ r.domain
  pub domain_suffix : d.domain_suffix ≡ r.domain_suffix
  pub domain_regex : d.domain_regex ≡ r.domain_regex
  pub domain_keyword : d.domain_keyword ≡ r.domain_keyword

make_ip_rule-SameDomains :
    (d : DefaultDnsRule) (items : List String) (o : DefaultRule)
    → SameDomains d o
    → SameDomains d (make_ip_rule o items)
unfolding make_ip_rule
make_ip_rule-SameDomains d [] o h = h
make_ip_rule-SameDomains d (item ∷ items) o h = make_ip_rule-SameDomains d items _ (ground arith)

make_port_rule-SameDomains :
    (d : DefaultDnsRule) (items : List String) (o : DefaultRule)
    → SameDomains d o
    → SameDomains d (make_port_rule o items)
unfolding make_port_rule add_port
make_port_rule-SameDomains d [] o h = h
make_port_rule-SameDomains d (item ∷ items) o h =
    make_port_rule-SameDomains d items _ (ground arith)

either-SameDomains :
    (b : Bool) (d : DefaultDnsRule) (o o' : DefaultRule)
    → SameDomains d o
    → SameDomains d o'
    → SameDomains d (if b then o else o')
either-SameDomains true d o o' h h' = h
either-SameDomains false d o o' h h' = h'

add_network-SameDomains :
    (d : DefaultDnsRule) (o : DefaultRule) (ns : List String)
    → SameDomains d o
    → SameDomains d (record o { network = ns })
add_network-SameDomains d o ns h = ground arith

add_protocol-SameDomains :
    (d : DefaultDnsRule) (o : DefaultRule) (ns : List String)
    → SameDomains d o
    → SameDomains d (record o { protocol = ns })
add_protocol-SameDomains d o ns h = ground arith

module _ (to_lower : String → String) where
  add_domain-SameDomains :
      (item : String) (d : DefaultDnsRule) (o : DefaultRule)
      → SameDomains d o
      → SameDomains (add_dns_domain to_lower d item) (add_domain to_lower o item)
  unfolding add_domain add_dns_domain
  add_domain-SameDomains item d o h = ground arith

  add_domains-SameDomains :
      (items : List String) (d : DefaultDnsRule) (o : DefaultRule)
      → SameDomains d o
      → SameDomains (add_dns_domains to_lower d items) (make_domain_rule to_lower o items)
  unfolding add_dns_domains make_domain_rule
  add_domains-SameDomains [] d o h = h
  add_domains-SameDomains (item ∷ items) d o h =
      add_domains-SameDomains items _ _ (add_domain-SameDomains item d o h)

  split-SameDomains :
      (ds : String)
      → SameDomains
          (add_dns_domains to_lower empty_dns_rule (split ds))
          (if ds == "" then empty_rule else make_domain_rule to_lower empty_rule (split ds))
  split-SameDomains ds = elim (Bool-cases (ds == "")) [
    | inl e ↦
        rw ((eq_iff ds "").0 e)
          (unfold split_on has_prefix add_dns_domains add_dns_domain in ground arith)
    | inr e ↦ rw e (add_domains-SameDomains (split ds) _ _ (ground arith))
  ]

  -- The DNS rule and the route rule that are made of a rule select the same geosites, domains,
  -- suffixes, expressions and keywords, whatever the rule's other fields are.
  pub make_dns_rule-SameDomains :
      (r : Rule) → SameDomains (make_dns_rule to_lower r) (make_rule to_lower r)
  unfolding make_rule make_dns_rule
  make_dns_rule-SameDomains r =
      let h₁ = split-SameDomains r.domains in
      let h₂ =
        either-SameDomains (r.ip == "") _ _ _ h₁ (make_ip_rule-SameDomains _ (split r.ip) _ h₁) in
      let h₃ =
        either-SameDomains (r.port == "") _ _ _ h₂
          (make_port_rule-SameDomains _ (split r.port) _ h₂) in
      let h₄ = either-SameDomains (r.network == "") _ _ _ h₃ (add_network-SameDomains _ _ _ h₃) in
      either-SameDomains (r.protocol == "") _ _ _ h₄ (add_protocol-SameDomains _ _ _ h₄)
