-- ===== src/Config/Dns.antt =====
-- setDns, setFakeDns, getIPs and addForceDirect of config/config.go.
pub mod Servers
pub mod ForceDirect
use Prim.Native.String.{◌++◌ as append}
use hiddify_core.Prelude.{
  String, Bool, true, Option, none, some, List, [], ◌∷◌, ◌++◌, any, ◌==◌, if◌then◌else◌,
}
use hiddify_core.Config.Text.{has_prefix, strip_prefix, join}
use hiddify_core.Config.Tags.{
  dns_remote_tag, dns_local_tag, dns_direct_tag, dns_block_tag, dns_fake_tag, dns_tricks_direct_tag,
  outbound_direct_tag, outbound_bypass_tag, outbound_direct_fragment_tag, inbound_tun_tag,
}
use hiddify_core.Config.Rules.{Rule, DefaultDnsRule, empty_dns_rule, make_dns_rule}
use hiddify_core.Config.Routing.{Library, routed_dns_rules}
use hiddify_core.Config.Options.{ConfigOptions, DomainStrategy, as_is, use_ipv4}

pub record DnsServer : Type 0 where
  pub tag : String
  pub address : String
  pub address_resolver : String
  pub strategy : DomainStrategy
  pub detour : String

-- `fake_ip` holds the two ranges, where it is enabled.
pub record DnsSettings : Type 0 where
  pub static_ips : List (String × List String)
  pub independent_cache : Bool
  pub final : String
  pub servers : List DnsServer
  pub rules : List DefaultDnsRule
  pub fake_ip : Option (String × String)

unfoldable pub public_ips : List String → List String
public_ips [] = []
public_ips (ip ∷ ips) = let rest = public_ips ips in if has_prefix ip "10." then rest else ip ∷ rest

-- net.LookupHost is a parameter.
unfoldable pub get_ips : (String → Option (List String)) → List String → List String
unfolding public_ips
get_ips lookup_host [] = []
get_ips lookup_host (d ∷ ds) =
    let rest = get_ips lookup_host ds in
    elim (lookup_host d) [ none ↦ rest | some ips ↦ public_ips ips ++ rest ]

abbrev pub static_entry : List String → List (String × List String)
static_entry [] = []
static_entry (ip ∷ ips) = ("sky.rethinkdns.com", ip ∷ ips) ∷ []

unfoldable pub dns_servers : ConfigOptions → List DnsServer
dns_servers opt =
    record {
      tag = dns_remote_tag;
      address = opt.dns.remote_dns_address;
      address_resolver = dns_direct_tag;
      strategy = opt.dns.remote_dns_domain_strategy;
      detour = "";
    }
    ∷ record {
      tag = dns_tricks_direct_tag;
      address = "https://sky.rethinkdns.com/";
      address_resolver = "";
      strategy = opt.dns.direct_dns_domain_strategy;
      detour = outbound_direct_fragment_tag;
    }
    ∷ record {
      tag = dns_direct_tag;
      address = opt.dns.direct_dns_address;
      address_resolver = dns_local_tag;
      strategy = opt.dns.direct_dns_domain_strategy;
      detour = outbound_direct_tag;
    }
    ∷ record {
      tag = dns_local_tag;
      address = "local";
      address_resolver = "";
      strategy = as_is;
      detour = outbound_direct_tag;
    }
    ∷ record {
      tag = dns_block_tag;
      address = "rcode://success";
      address_resolver = "";
      strategy = as_is;
      detour = "";
    }
    ∷ []

unfoldable pub set_dns : (String → Option (List String)) → ConfigOptions → DnsSettings
unfolding get_ips dns_servers
set_dns lookup_host opt = record {
  static_ips = static_entry (get_ips lookup_host ("www.speedtest.net" ∷ "sky.rethinkdns.com" ∷ []));
  independent_cache = opt.dns.independent_dns_cache;
  final = dns_remote_tag;
  servers = dns_servers opt;
  rules = [];
  fake_ip = none;
}

abbrev pub fake_server : DnsServer
fake_server = record {
  tag = dns_fake_tag;
  address = "fakeip";
  address_resolver = "";
  strategy = use_ipv4;
  detour = "";
}

unfoldable pub set_fake_dns : ConfigOptions → DnsSettings → DnsSettings
set_fake_dns opt s =
    if opt.dns.enable_fake_dns
    then record s {
      fake_ip = some ("198.18.0.0/15", "fc00::/18");
      servers = s.servers ++ fake_server ∷ [];
      rules =
          s.rules
          ++ record empty_dns_rule {
            inbound = inbound_tun_tag ∷ [];
            server = dns_fake_tag;
            disable_cache = true;
          }
            ∷ [];
    }
    else s

-- The text behind the first occurrence of `sep`, if there is one.
unfoldable pub behind : String → String → Option String
unfolding strip_prefix
behind sep String.[] = strip_prefix sep ""
behind sep (String.◌∷◌ c s) =
    let later = behind sep s in
    elim (strip_prefix sep (String.◌∷◌ c s)) [ some rest ↦ some rest | none ↦ later ]

-- The text up to the first occurrence of `sep`, with it, or all of the text.
unfoldable pub through : String → String → String
unfolding has_prefix
through sep String.[] = ""
through sep (String.◌∷◌ c s) =
    let later = String.◌∷◌ c (through sep s) in
    if has_prefix (String.◌∷◌ c s) sep then sep else later

-- strings.SplitAfter(address, "://")[1] where there is a scheme
unfoldable pub without_scheme : String → String
unfolding behind through
without_scheme address = elim (behind "://" address) [
  | none ↦ address
  | some rest ↦ through "://" rest
]

-- `url_host` is url.Parse with the field Host, `is_ip` is net.ParseIP against nil, and `order` is the
-- order in which Go goes through the keys of the map, all of them parameters.
pub record Net : Type 0 where
  pub url_host : String → Option String
  pub is_ip : String → Bool
  pub order : List String → List String
  pub to_lower : String → String

-- directDNSDomains[key] = true
unfoldable pub insert_key : String → List String → List String
insert_key k ks = if any (λ j. j == k) ks then ks else k ∷ ks

unfoldable pub with_remote_host : Net → ConfigOptions → List String → List String
unfolding without_scheme insert_key
with_remote_host net opt keys =
    elim (net.url_host (append "https://" (without_scheme opt.dns.remote_dns_address))) [
      | none ↦ keys
      | some host ↦ if net.is_ip host then keys else insert_key host keys
    ]

abbrev pub force_rule : String → Rule
force_rule domains = record {
  rule_set_url = "";
  domains = domains;
  ip = "";
  port = "";
  network = "";
  protocol = "";
  outbound = outbound_bypass_tag;
}

abbrev pub prepend_rule : Net → List String → List DefaultDnsRule → List DefaultDnsRule
prepend_rule net [] rules = rules
prepend_rule net (k ∷ ks) rules =
    record (make_dns_rule net.to_lower (force_rule (join (net.order (k ∷ ks))))) {
      server = dns_direct_tag;
    }
    ∷ rules

unfoldable pub add_force_direct : Net → ConfigOptions → List String → DnsSettings → DnsSettings
unfolding with_remote_host
add_force_direct net opt keys s = record s {
  rules = prepend_rule net (with_remote_host net opt keys) s.rules;
}

-- The rules that setRoutingOptions adds.
unfoldable pub with_rules : List DefaultDnsRule → DnsSettings → DnsSettings
with_rules rs s = record s { rules = s.rules ++ rs }

-- The calls of BuildConfig that write the DNS settings, in its order. `keys` are the domains of the
-- proxies' servers that setOutbounds has collected; the static addresses that it adds are left out.
unfoldable pub built_dns :
    (String → Option (List String)) → Library → Net → ConfigOptions → List String → DnsSettings
unfolding set_dns set_fake_dns add_force_direct with_rules
built_dns lookup_host lib net opt keys =
    add_force_direct net opt keys
      (set_fake_dns opt (with_rules (routed_dns_rules lib opt) (set_dns lookup_host opt)))
