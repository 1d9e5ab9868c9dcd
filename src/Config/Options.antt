-- ===== src/Config/Options.antt =====
-- config/option.go: the options of the user, and their defaults. The embedded structs are fields.
use hiddify_core.Prelude.{ℕ, String, Bool, true, false, List, []}
use hiddify_core.Config.Rules.{Rule}

-- The domain strategies of sing-dns that the code names, and the others.
pub data DomainStrategy : Type 0 where
  as_is use_ipv4 use_ipv6 : DomainStrategy
  other_strategy : ℕ → DomainStrategy

-- WarpAccount and WarpWireguardConfig of config/warp_account.go
pub record WarpAccount : Type 0 where
  pub account_id : String
  pub access_token : String

pub record WarpWireguardConfig : Type 0 where
  pub private_key : String
  pub local_address_ipv4 : String
  pub local_address_ipv6 : String
  pub peer_public_key : String
  pub client_id : String

pub record DnsOptions : Type 0 where
  pub remote_dns_address : String
  pub remote_dns_domain_strategy : DomainStrategy
  pub direct_dns_address : String
  pub direct_dns_domain_strategy : DomainStrategy
  pub independent_dns_cache : Bool
  pub enable_fake_dns : Bool
  pub enable_dns_routing : Bool

-- The ports are uint16, the MTU uint32.
pub record InboundOptions : Type 0 where
  pub enable_tun : Bool
  pub enable_tun_service : Bool
  pub set_system_proxy : Bool
  pub mixed_port : ℕ
  pub tproxy_port : ℕ
  pub local_dns_port : ℕ
  pub mtu : ℕ
  pub strict_route : Bool
  pub tun_stack : String

-- The interval is in seconds.
pub record UrlTestOptions : Type 0 where
  pub connection_test_url : String
  pub url_test_interval : ℕ

pub record RouteOptions : Type 0 where
  pub resolve_destination : Bool
  pub ipv6_mode : DomainStrategy
  pub bypass_lan : Bool
  pub allow_connection_from_lan : Bool

pub record TlsTricks : Type 0 where
  pub enable_fragment : Bool
  pub fragment_size : String
  pub fragment_sleep : String
  pub mixed_sni_case : Bool
  pub enable_padding : Bool
  pub padding_size : String

pub record MuxOptions : Type 0 where
  pub enable : Bool
  pub padding : Bool
  pub max_streams : ℕ
  pub protocol : String

pub record WarpOptions : Type 0 where
  pub enable_warp : Bool
  pub mode : String
  pub wireguard_config_str : String
  pub wireguard_config : WarpWireguardConfig
  pub fake_packets : String
  pub fake_packet_size : String
  pub fake_packet_delay : String
  pub fake_packet_mode : String
  pub clean_ip : String
  pub clean_port : ℕ
  pub account : WarpAccount

pub record ConfigOptions : Type 0 where
  pub enable_full_config : Bool
  pub log_level : String
  pub enable_clash_api : Bool
  pub clash_api_port : ℕ
  pub clash_api_secret : String
  pub region : String
  pub block_ads : Bool
  pub rules : List Rule
  pub warp : WarpOptions
  pub warp_2 : WarpOptions
  pub mux : MuxOptions
  pub tls_tricks : TlsTricks
  pub dns : DnsOptions
  pub inbound : InboundOptions
  pub url_test : UrlTestOptions
  pub route : RouteOptions

-- What Go gives the fields that DefaultConfigOptions leaves out.
abbrev pub zero_warp : WarpOptions
zero_warp = record {
  enable_warp = false;
  mode = "";
  wireguard_config_str = "";
  wireguard_config = record {
    private_key = "";
    local_address_ipv4 = "";
    local_address_ipv6 = "";
    peer_public_key = "";
    client_id = "";
  };
  fake_packets = "";
  fake_packet_size = "";
  fake_packet_delay = "";
  fake_packet_mode = "";
  clean_ip = "";
  clean_port = 0;
  account = record { account_id = ""; access_token = "" };
}

unfoldable pub default_config_options : ConfigOptions
default_config_options = record {
  enable_full_config = false;
  log_level = "warn";
  enable_clash_api = true;
  clash_api_port = 6756;
  clash_api_secret = "";
  region = "other";
  block_ads = false;
  rules = [];
  warp = zero_warp;
  warp_2 = zero_warp;
  mux = record { enable = false; padding = true; max_streams = 8; protocol = "h2mux" };
  tls_tricks = record {
    enable_fragment = false;
    fragment_size = "10-100";
    fragment_sleep = "50-200";
    mixed_sni_case = false;
    enable_padding = false;
    padding_size = "1200-1500";
  };
  dns = record {
    remote_dns_address = "1.1.1.1";
    remote_dns_domain_strategy = as_is;
    direct_dns_address = "1.1.1.1";
    direct_dns_domain_strategy = as_is;
    independent_dns_cache = false;
    enable_fake_dns = false;
    enable_dns_routing = false;
  };
  inbound = record {
    enable_tun = false;
    enable_tun_service = false;
    set_system_proxy = false;
    mixed_port = 2334;
    tproxy_port = 2335;
    local_dns_port = 16450;
    mtu = 9000;
    strict_route = true;
    tun_stack = "mixed";
  };
  url_test = record { connection_test_url = "http://cp.cloudflare.com/"; url_test_interval = 600 };
  route = record {
    resolve_destination = false;
    ipv6_mode = as_is;
    bypass_lan = false;
    allow_connection_from_lan = false;
  };
}
