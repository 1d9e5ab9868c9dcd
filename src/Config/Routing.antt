-- ===== src/Config/Routing.antt =====
-- setRoutingOptions of config/config.go, part by part. sing-box's IsValid of the two kinds of rules,
-- url.Parse and strings.ToLower are parameters.
pub mod Declared
pub mod RuleSets
pub mod Valid
use Prim.Native.String.{◌++◌ as append}
use hiddify_core.Prelude.{
  String, Bool, true, Option, none, some, List, [], ◌∷◌, ◌++◌, ◌==◌, if◌then◌else◌,
}
use hiddify_core.Config.Tags.{
  dns_remote_tag, dns_direct_tag, dns_block_tag, dns_fake_tag, outbound_direct_tag,
  outbound_bypass_tag, outbound_block_tag, outbound_dns_tag, inbound_tun_tag, inbound_mixed_tag,
  inbound_dns_tag,
}
use hiddify_core.Config.Rules.{
  Rule, DefaultRule, DefaultDnsRule, empty_rule, empty_dns_rule, make_rule, make_dns_rule,
}
use hiddify_core.Config.Options.{ConfigOptions}

-- A remote rule set in the binary format, updated every five days.
pub record RuleSet : Type 0 where
  pub tag : String
  pub url : String

pub record RouteSettings : Type 0 where
  pub rules : List DefaultRule
  pub final : String
  pub auto_detect_interface : Bool
  pub override_android_vpn : Bool
  pub rule_sets : List RuleSet

-- What the functions outside the repository answer.
pub record Library : Type 0 where
  pub to_lower : String → String
  pub url_host : String → Option String
  pub is_valid_rule : DefaultRule → Bool
  pub is_valid_dns_rule : DefaultDnsRule → Bool

unfoldable pub hijack_rules : List DefaultRule
hijack_rules =
    record empty_rule { inbound = inbound_dns_tag ∷ []; outbound = outbound_dns_tag }
    ∷ record empty_rule { port = 53 ∷ []; outbound = outbound_dns_tag }
    ∷ []

unfoldable pub tun_rules : ConfigOptions → List DefaultRule
tun_rules opt =
    if opt.inbound.enable_tun
    then record empty_rule {
      process_name = "Hiddify" ∷ "Hiddify.exe" ∷ "HiddifyCli" ∷ "HiddifyCli.exe" ∷ [];
      outbound = outbound_bypass_tag;
    }
      ∷ []
    else []

unfoldable pub lan_rules : ConfigOptions → List DefaultRule
lan_rules opt =
    if opt.route.bypass_lan
    then record empty_rule { ip_is_private = true; outbound = outbound_bypass_tag } ∷ []
    else []

-- The switch on a user's rule. A rule for the proxy gets the outbound of DNS.
unfoldable pub user_outbound : String → DefaultRule → DefaultRule
user_outbound outbound r =
    if outbound == "bypass"
    then record r { outbound = outbound_bypass_tag }
    else if outbound == "block"
    then record r { outbound = outbound_block_tag }
    else if outbound == "proxy"
    then record r { outbound = outbound_dns_tag }
    else r

unfoldable pub user_rules : Library → List Rule → List DefaultRule
user_rules lib [] = []
user_rules lib (rule ∷ rules) =
    let rest = user_rules lib rules in
    let r = user_outbound rule.outbound (make_rule lib.to_lower rule) in
    if lib.is_valid_rule r then r ∷ rest else rest

unfoldable pub user_dns_rule : ConfigOptions → String → DefaultDnsRule → List DefaultDnsRule
user_dns_rule opt outbound r =
    if outbound == "bypass"
    then record r { server = dns_direct_tag } ∷ []
    else if outbound == "block"
    then record r { server = dns_block_tag; disable_cache = true } ∷ []
    else if outbound == "proxy"
    then (if opt.dns.enable_fake_dns
        then record r { server = dns_fake_tag; inbound = inbound_tun_tag ∷ inbound_mixed_tag ∷ [] }
          ∷ []
        else [])
      ++ record r { server = dns_remote_tag } ∷ []
    else r ∷ []

unfoldable pub user_dns_rules : Library → ConfigOptions → List Rule → List DefaultDnsRule
user_dns_rules lib opt [] = []
user_dns_rules lib opt (rule ∷ rules) =
    user_dns_rule opt rule.outbound (make_dns_rule lib.to_lower rule)
    ++ user_dns_rules lib opt rules

unfoldable pub test_dns_rules : Library → ConfigOptions → List DefaultDnsRule
test_dns_rules lib opt = elim (lib.url_host opt.url_test.connection_test_url) [
  | none ↦ []
  | some host ↦
      record empty_dns_rule { domain = host ∷ []; server = dns_remote_tag; rewrite_ttl = some 3000 }
      ∷ []
]

abbrev pub geo_url : String → String
geo_url file =
    append "https://raw.githubusercontent.com/hiddify/hiddify-geo/rule-set/" (append file ".srs")

abbrev pub block_set : String → String → RuleSet
block_set t file = record { tag = t; url = geo_url (append "block/" file) }

unfoldable pub ads_sets : ConfigOptions → List RuleSet
ads_sets opt =
    if opt.block_ads
    then block_set "geosite-ads" "geosite-category-ads-all"
      ∷ block_set "geosite-malware" "geosite-malware"
      ∷ block_set "geosite-phishing" "geosite-phishing"
      ∷ block_set "geosite-cryptominers" "geosite-cryptominers"
      ∷ block_set "geoip-phishing" "geoip-phishing"
      ∷ block_set "geoip-malware" "geoip-malware"
      ∷ []
    else []

unfoldable pub ads_rules : ConfigOptions → List DefaultRule
ads_rules opt =
    if opt.block_ads
    then record empty_rule {
      rule_set =
          "geosite-ads" ∷ "geosite-malware" ∷ "geosite-phishing" ∷ "geosite-cryptominers"
          ∷ "geoip-malware" ∷ "geoip-phishing" ∷ [];
      outbound = outbound_block_tag;
    }
      ∷ []
    else []

abbrev pub region_tags : String → List String
region_tags region = append "geoip-" region ∷ append "geosite-" region ∷ []

abbrev pub country_set : String → RuleSet
country_set t = record { tag = t; url = geo_url (append "country/" t) }

unfoldable pub region_sets : ConfigOptions → List RuleSet
region_sets opt =
    if opt.region == "other"
    then []
    else country_set (append "geoip-" opt.region) ∷ country_set (append "geosite-" opt.region) ∷ []

unfoldable pub region_rules : ConfigOptions → List DefaultRule
region_rules opt =
    if opt.region == "other"
    then []
    else record empty_rule {
      domain_suffix = append "." opt.region ∷ [];
      outbound = outbound_direct_tag;
    }
      ∷ record empty_rule { rule_set = region_tags opt.region; outbound = outbound_direct_tag }
      ∷ []

unfoldable pub region_dns_rules : ConfigOptions → List DefaultDnsRule
region_dns_rules opt =
    if opt.region == "other"
    then []
    else record empty_dns_rule {
      domain_suffix = append "." opt.region ∷ [];
      server = dns_direct_tag;
    }
      ∷ record empty_dns_rule { rule_set = region_tags opt.region; server = dns_direct_tag }
      ∷ []

unfoldable pub route_rules : Library → ConfigOptions → List DefaultRule
unfolding hijack_rules tun_rules lan_rules ads_rules region_rules
route_rules lib opt =
    hijack_rules
    ++ (tun_rules opt
        ++ (lan_rules opt ++ (user_rules lib opt.rules ++ (ads_rules opt ++ region_rules opt))))

unfoldable pub dns_rules : Library → ConfigOptions → List DefaultDnsRule
dns_rules lib opt =
    user_dns_rules lib opt opt.rules ++ (test_dns_rules lib opt ++ region_dns_rules opt)

-- options.Route; the final outbound is the package variable OutboundMainProxyTag.
unfoldable pub route_settings : Library → ConfigOptions → String → RouteSettings
route_settings lib opt main_proxy_tag = record {
  rules = route_rules lib opt;
  final = main_proxy_tag;
  auto_detect_interface = true;
  override_android_vpn = true;
  rule_sets = ads_sets opt ++ region_sets opt;
}

unfoldable pub valid_dns_rules : Library → List DefaultDnsRule → List DefaultDnsRule
valid_dns_rules lib [] = []
valid_dns_rules lib (r ∷ rs) =
    let rest = valid_dns_rules lib rs in if lib.is_valid_dns_rule r then r ∷ rest else rest

-- What is added to options.DNS.Rules.
unfoldable pub routed_dns_rules : Library → ConfigOptions → List DefaultDnsRule
routed_dns_rules lib opt =
    if opt.dns.enable_dns_routing then valid_dns_rules lib (dns_rules lib opt) else []
