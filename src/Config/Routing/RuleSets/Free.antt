-- ===== src/Config/Routing/RuleSets/Free.antt =====
-- The rules that are made of the user's rules name no rule set.
use hiddify_core.Prelude.{String, ◌≡◌, refl, List, [], ◌∷◌, arith, ◌==◌, if-elim}
use hiddify_core.Config.Text.{split}
use hiddify_core.Config.Rules.{
  Rule, DefaultRule, DefaultDnsRule, make_ip_rule, add_port, make_port_rule, add_domain,
  make_domain_rule, add_dns_domain, add_dns_domains, make_rule,
}
use hiddify_core.Config.Routing.{user_outbound}

abbrev pub Free : DefaultRule → Type 0
Free o = o.rule_set ≡ []

module _ (to_lower : String → String) where
  make_domain_rule-Free :
      (items : List String) (o : DefaultRule) → Free o → Free (make_domain_rule to_lower o items)
  unfolding make_domain_rule add_domain
  make_domain_rule-Free [] o h = h
  make_domain_rule-Free (item ∷ items) o h = make_domain_rule-Free items _ (ground arith)

  pub add_dns_domains-Free :
      (items : List String) (o : DefaultDnsRule)
      → o.rule_set ≡ []
      → (add_dns_domains to_lower o items).rule_set ≡ []
  unfolding add_dns_domains add_dns_domain
  add_dns_domains-Free [] o h = h
  add_dns_domains-Free (item ∷ items) o h = add_dns_domains-Free items _ (ground arith)

make_ip_rule-Free : (items : List String) (o : DefaultRule) → Free o → Free (make_ip_rule o items)
unfolding make_ip_rule
make_ip_rule-Free [] o h = h
make_ip_rule-Free (item ∷ items) o h = make_ip_rule-Free items _ (ground arith)

make_port_rule-Free :
    (items : List String) (o : DefaultRule) → Free o → Free (make_port_rule o items)
unfolding make_port_rule add_port
make_port_rule-Free [] o h = h
make_port_rule-Free (item ∷ items) o h = make_port_rule-Free items _ (ground arith)

pub make_rule-Free : (to_lower : String → String) (r : Rule) → Free (make_rule to_lower r)
unfolding make_rule
make_rule-Free to_lower r =
    let h₁ =
      if-elim Free (r.domains == "") (λ _. refl)
        (λ _. make_domain_rule-Free to_lower (split r.domains) _ refl) in
    let h₂ = if-elim Free (r.ip == "") (λ _. h₁) (λ _. make_ip_rule-Free (split r.ip) _ h₁) in
    let h₃ = if-elim Free (r.port == "") (λ _. h₂) (λ _. make_port_rule-Free (split r.port) _ h₂) in
    let h₄ = if-elim Free (r.network == "") (λ _. h₃) (λ _. h₃) in
    if-elim Free (r.protocol == "") (λ _. h₄) (λ _. h₄)

pub user_outbound-Free :
    (outbound : String) (r : DefaultRule) → Free r → Free (user_outbound outbound r)
unfolding user_outbound
user_outbound-Free outbound r h = ground arith
