-- ===== src/Config/Inbounds.antt =====
-- setInbound of config/config.go.
pub mod Listeners
use hiddify_core.Prelude.{ℕ, String, Bool, true, false, List, [], ◌∷◌, ◌++◌, if◌then◌else◌}
use hiddify_core.Config.Tags.{inbound_tun_tag, inbound_mixed_tag, inbound_dns_tag}
use hiddify_core.Config.Options.{ConfigOptions, DomainStrategy, as_is, use_ipv4, use_ipv6}

-- The fields of sing-box's Inbound that the code sets, of the three types that it makes.
pub record Inbound : Type 0 where
  pub type : String
  pub tag : String
  pub stack : String
  pub mtu : ℕ
  pub auto_route : Bool
  pub strict_route : Bool
  pub endpoint_independent_nat : Bool
  pub inet4_address : List String
  pub inet6_address : List String
  pub listen : String
  pub listen_port : ℕ
  pub set_system_proxy : Bool
  pub sniff_enabled : Bool
  pub sniff_override_destination : Bool
  pub domain_strategy : DomainStrategy

abbrev pub bare : String → String → Inbound
bare k t = record {
  type = k;
  tag = t;
  stack = "";
  mtu = 0;
  auto_route = false;
  strict_route = false;
  endpoint_independent_nat = false;
  inet4_address = [];
  inet6_address = [];
  listen = "";
  listen_port = 0;
  set_system_proxy = false;
  sniff_enabled = false;
  sniff_override_destination = false;
  domain_strategy = as_is;
}

unfoldable pub inbound_domain_strategy : ConfigOptions → DomainStrategy
inbound_domain_strategy opt = if opt.route.resolve_destination then opt.route.ipv6_mode else as_is

-- the addresses of the tunnel, by families
unfoldable pub tun_inet4 : DomainStrategy → List String
tun_inet4 use_ipv6 = []
tun_inet4 _ = "172.19.0.1/28" ∷ []

unfoldable pub tun_inet6 : DomainStrategy → List String
tun_inet6 use_ipv4 = []
tun_inet6 _ = "fdfe:dcba:9876::1/126" ∷ []

unfoldable pub tun_inbound : ConfigOptions → Inbound
unfolding tun_inet4 tun_inet6
tun_inbound opt = record (bare "tun" inbound_tun_tag) {
  stack = opt.inbound.tun_stack;
  mtu = opt.inbound.mtu;
  auto_route = true;
  strict_route = opt.inbound.strict_route;
  endpoint_independent_nat = true;
  inet4_address = tun_inet4 opt.route.ipv6_mode;
  inet6_address = tun_inet6 opt.route.ipv6_mode;
  sniff_enabled = true;
  sniff_override_destination = true;
  domain_strategy = inbound_domain_strategy opt;
}

-- With the tunnel service, the tunnel is that of another process.
unfoldable pub tun_inbounds : ConfigOptions → List Inbound
unfolding tun_inbound
tun_inbounds opt =
    if opt.inbound.enable_tun_service
    then []
    else if opt.inbound.enable_tun
    then tun_inbound opt ∷ []
    else []

abbrev pub bind : ConfigOptions → String
bind opt = if opt.route.allow_connection_from_lan then "0.0.0.0" else "127.0.0.1"

unfoldable pub mixed_inbound : ConfigOptions → Inbound
unfolding inbound_domain_strategy
mixed_inbound opt = record (bare "mixed" inbound_mixed_tag) {
  listen = bind opt;
  listen_port = opt.inbound.mixed_port;
  set_system_proxy = opt.inbound.set_system_proxy;
  sniff_enabled = true;
  sniff_override_destination = true;
  domain_strategy = inbound_domain_strategy opt;
}

unfoldable pub dns_inbound : ConfigOptions → Inbound
dns_inbound opt = record (bare "direct" inbound_dns_tag) {
  listen = bind opt;
  listen_port = opt.inbound.local_dns_port;
}

-- What setInbound adds to the inbounds that are there.
unfoldable pub set_inbound : ConfigOptions → List Inbound → List Inbound
unfolding tun_inbounds mixed_inbound dns_inbound
set_inbound opt given = given ++ (tun_inbounds opt ++ (mixed_inbound opt ∷ dns_inbound opt ∷ []))
