-- ===== src/Config/Rules.antt =====
-- config/rules.go: the user's rules, as route rules and as DNS rules of sing-box.
pub mod Domains
pub mod Full
use hiddify_core.Prelude.{
  ℕ, String, Bool, false, Option, none, some, List, [], ◌∷◌, ◌++◌, ◌==◌, if◌then◌else◌,
}
use hiddify_core.Config.Text.{has_prefix, trim_prefix, contains, split, atoi, uint_16}

pub record Rule : Type 0 where
  pub rule_set_url : String
  pub domains : String
  pub ip : String
  pub port : String
  pub network : String
  pub protocol : String
  pub outbound : String

-- The fields of sing-box's DefaultRule that the code sets.
pub record DefaultRule : Type 0 where
  pub inbound : List String
  pub port : List ℕ
  pub port_range : List String
  pub process_name : List String
  pub network : List String
  pub protocol : List String
  pub geosite : List String
  pub geoip : List String
  pub ip_cidr : List String
  pub ip_is_private : Bool
  pub domain : List String
  pub domain_suffix : List String
  pub domain_regex : List String
  pub domain_keyword : List String
  pub rule_set : List String
  pub outbound : String

-- The fields of sing-box's DefaultDNSRule that the code sets.
pub record DefaultDnsRule : Type 0 where
  pub inbound : List String
  pub geosite : List String
  pub domain : List String
  pub domain_suffix : List String
  pub domain_regex : List String
  pub domain_keyword : List String
  pub rule_set : List String
  pub server : String
  pub disable_cache : Bool
  pub rewrite_ttl : Option ℕ

abbrev pub empty_rule : DefaultRule
empty_rule = record {
  inbound = [];
  port = [];
  port_range = [];
  process_name = [];
  network = [];
  protocol = [];
  geosite = [];
  geoip = [];
  ip_cidr = [];
  ip_is_private = false;
  domain = [];
  domain_suffix = [];
  domain_regex = [];
  domain_keyword = [];
  rule_set = [];
  outbound = "";
}

abbrev pub empty_dns_rule : DefaultDnsRule
empty_dns_rule = record {
  inbound = [];
  geosite = [];
  domain = [];
  domain_suffix = [];
  domain_regex = [];
  domain_keyword = [];
  rule_set = [];
  server = "";
  disable_cache = false;
  rewrite_ttl = none;
}

unfoldable pub make_ip_rule : DefaultRule → List String → DefaultRule
make_ip_rule o [] = o
make_ip_rule o (item ∷ items) =
    make_ip_rule
      (if has_prefix item "geoip:"
        then record o { geoip = o.geoip ++ trim_prefix item "geoip:" ∷ [] }
        else record o { ip_cidr = o.ip_cidr ++ item ∷ [] })
      items

unfoldable pub add_port : DefaultRule → String → DefaultRule
add_port o item =
    if contains item ":"
    then record o { port_range = o.port_range ++ item ∷ [] }
    else elim (atoi item) [ none ↦ o | some i ↦ record o { port = o.port ++ uint_16 i ∷ [] } ]

unfoldable pub make_port_rule : DefaultRule → List String → DefaultRule
make_port_rule o [] = o
make_port_rule o (item ∷ items) = make_port_rule (add_port o item) items

-- strings.ToLower is a parameter: it maps every character by the tables of Unicode.
module _ (to_lower : String → String) where
  unfoldable pub add_domain : DefaultRule → String → DefaultRule
  add_domain o item =
      if has_prefix item "geosite:"
      then record o { geosite = o.geosite ++ trim_prefix item "geosite:" ∷ [] }
      else if has_prefix item "full:"
      then record o { domain = o.domain ++ to_lower (trim_prefix item "full:") ∷ [] }
      else if has_prefix item "domain:"
      then record o {
        domain_suffix = o.domain_suffix ++ to_lower (trim_prefix item "domain:") ∷ [];
      }
      else if has_prefix item "regexp:"
      then record o { domain_regex = o.domain_regex ++ to_lower (trim_prefix item "regexp:") ∷ [] }
      else if has_prefix item "keyword:"
      then record o {
        domain_keyword = o.domain_keyword ++ to_lower (trim_prefix item "keyword:") ∷ [];
      }
      else o

  unfoldable pub make_domain_rule : DefaultRule → List String → DefaultRule
  make_domain_rule o [] = o
  make_domain_rule o (item ∷ items) = make_domain_rule (add_domain o item) items

  unfoldable pub add_dns_domain : DefaultDnsRule → String → DefaultDnsRule
  add_dns_domain o item =
      if has_prefix item "geosite:"
      then record o { geosite = o.geosite ++ trim_prefix item "geosite:" ∷ [] }
      else if has_prefix item "full:"
      then record o { domain = o.domain ++ to_lower (trim_prefix item "full:") ∷ [] }
      else if has_prefix item "domain:"
      then record o {
        domain_suffix = o.domain_suffix ++ to_lower (trim_prefix item "domain:") ∷ [];
      }
      else if has_prefix item "regexp:"
      then record o { domain_regex = o.domain_regex ++ to_lower (trim_prefix item "regexp:") ∷ [] }
      else if has_prefix item "keyword:"
      then record o {
        domain_keyword = o.domain_keyword ++ to_lower (trim_prefix item "keyword:") ∷ [];
      }
      else o

  unfoldable pub add_dns_domains : DefaultDnsRule → List String → DefaultDnsRule
  add_dns_domains o [] = o
  add_dns_domains o (item ∷ items) = add_dns_domains (add_dns_domain o item) items

  unfoldable pub make_dns_rule : Rule → DefaultDnsRule
  make_dns_rule r = add_dns_domains empty_dns_rule (split r.domains)

  unfoldable pub make_rule : Rule → DefaultRule
  make_rule r =
      let r₁ =
        if r.domains == "" then empty_rule else make_domain_rule empty_rule (split r.domains) in
      let r₂ = if r.ip == "" then r₁ else make_ip_rule r₁ (split r.ip) in
      let r₃ = if r.port == "" then r₂ else make_port_rule r₂ (split r.port) in
      let r₄ =
        if r.network == "" then r₃ else record r₃ { network = r₃.network ++ r.network ∷ [] } in
      if r.protocol == "" then r₄ else record r₄ { protocol = r₄.protocol ++ split r.protocol }
