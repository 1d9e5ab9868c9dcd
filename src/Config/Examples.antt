-- ===== src/Config/Examples.antt =====
-- Rules and options on which the theorems apply.
use hiddify_core.Prelude.{String, ◌≡◌, refl, true, Option, some, List, [], ◌∷◌, All, ◌==◌}
use hiddify_core.Config.Text.{atoi, uint_16, contains, strip_prefix, has_prefix, digits, number}
use hiddify_core.Config.Rules.{
  Rule, empty_rule, empty_dns_rule, make_dns_rule, make_rule, make_port_rule, add_port,
}
use hiddify_core.Config.Rules.Domains.{SameDomains, make_dns_rule-SameDomains}
use hiddify_core.Config.Rules.Full.{full_domains}
use hiddify_core.Config.Options.{ConfigOptions, default_config_options}
use hiddify_core.Config.Tags.{dns_direct_tag}
use hiddify_core.Config.Routing.{Library, route_settings}
use hiddify_core.Config.Routing.Declared.{Routed, route_settings-Routed}
use hiddify_core.Config.Dns.{
  Net, DnsSettings, with_remote_host, without_scheme, behind, through, insert_key, add_force_direct,
  set_dns, get_ips, public_ips,
}
use hiddify_core.Config.Dns.ForceDirect.{add_force_direct-domains}

abbrev user_rule : String → String → String → Rule
user_rule domains port outbound = record {
  rule_set_url = "";
  domains = domains;
  ip = "geoip:cn,10.0.0.0/8";
  port = port;
  network = "tcp";
  protocol = "";
  outbound = outbound;
}

abbrev options : ConfigOptions
options = record default_config_options {
  rules =
      user_rule "full:example.org,domain:cn" "80,8000:8080" "bypass"
      ∷ user_rule "keyword:ads" "" "block"
      ∷ user_rule "geosite:google" "443" "proxy"
      ∷ [];
  region = "ir";
  block_ads = true;
}

abbrev library : Library
library = record {
  to_lower = λ s. s;
  url_host = λ u. some "cp.cloudflare.com";
  is_valid_rule = λ r. true;
  is_valid_dns_rule = λ r. true;
}

abbrev net : Net
net = record {
  url_host = λ u. some "dns.google";
  is_ip = λ h. h == "1.1.1.1";
  order = λ ks. ks;
  to_lower = λ s. s;
}

abbrev lookup_host : String → Option (List String)
lookup_host d = some ("10.1.2.3" ∷ "104.17.1.1" ∷ [])

abbrev settings : DnsSettings
settings = set_dns lookup_host options

public_addresses : get_ips lookup_host ("sky.rethinkdns.com" ∷ []) ≡ "104.17.1.1" ∷ []
unfolding get_ips public_ips has_prefix strip_prefix
public_addresses = refl

-- The number of a port wraps at 65536.
wrapped_port : (make_port_rule empty_rule ("65616" ∷ [])).port ≡ 80 ∷ []
unfolding make_port_rule add_port contains has_prefix strip_prefix atoi number digits uint_16
wrapped_port = refl

scheme_removed : without_scheme "https://dns.google/dns-query" ≡ "dns.google/dns-query"
unfolding without_scheme behind through has_prefix strip_prefix
scheme_removed = refl

make_dns_rule-SameDomains_example :
    SameDomains
      (make_dns_rule (λ s. s) (user_rule "full:example.org,domain:cn" "80" "bypass"))
      (make_rule (λ s. s) (user_rule "full:example.org,domain:cn" "80" "bypass"))
make_dns_rule-SameDomains_example =
    make_dns_rule-SameDomains (λ s. s) (user_rule "full:example.org,domain:cn" "80" "bypass")

route_settings-Routed_example : All (Routed options) (route_settings library options "select").rules
route_settings-Routed_example = route_settings-Routed options library "select" refl

with_host : with_remote_host net options ("full:a.com" ∷ []) ≡ "dns.google" ∷ "full:a.com" ∷ []
unfolding with_remote_host insert_key without_scheme behind through has_prefix strip_prefix
with_host = refl

add_force_direct-domains_example :
    (add_force_direct net options ("full:a.com" ∷ []) settings).rules
    ≡ record empty_dns_rule {
      domain = full_domains (λ s. s) ("dns.google" ∷ "full:a.com" ∷ []);
      server = dns_direct_tag;
    }
      ∷ settings.rules
unfolding has_prefix strip_prefix
add_force_direct-domains_example =
    add_force_direct-domains net options settings ("full:a.com" ∷ []) "dns.google"
      ("full:a.com" ∷ []) "dns.google" ("full:a.com" ∷ []) with_host refl refl
