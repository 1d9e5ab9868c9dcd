-- ===== src/Config/Sing.antt =====
-- The values of sing-box's option package and of decoded JSON that config/ reads and writes.
pub mod Reading
use hiddify_core.Prelude.{ℕ, String, Bool, Option, none, List, [], ◌==◌, if◌then◌else◌}

-- option.OutboundMultiplexOptions, option.TLSFragmentOptions, option.TLSTricksOptions
pub record Multiplex : Type 0 where
  pub enabled : Bool
  pub padding : Bool
  pub max_streams : ℕ
  pub protocol : String

pub record Fragment : Type 0 where
  pub enabled : Bool
  pub size : String
  pub sleep : String

pub record Tricks : Type 0 where
  pub mixed_case_sni : Bool
  pub padding_mode : String
  pub padding_size : String

-- A value of Go's type `any`, as decoded JSON holds it and the code adds to it. Numbers are decoded to
-- float64, which the code does not read: a number is its text. `null` is nil.
mutual
  pub data Value : Type 0 where
    null : Value
    boolean : Bool → Value
    float : String → Value
    text : String → Value
    array : Values → Value
    object : Fields → Value
    multiplex_value : Multiplex → Value
    fragment_value : Fragment → Value
    tricks_value : Tricks → Value

  pub data Values : Type 0 where
    nil : Values
    cons : Value → Values → Values

  pub data Fields : Type 0 where
    end : Fields
    field : String → Value → Fields → Fields

-- m[key], which is nil where the key is missing
unfoldable pub get : String → Fields → Value
get k end = null
get k (field j v m) = if j == k then v else get k m

-- m[key] = value
unfoldable pub put : String → Value → Fields → Fields
put k v end = field k v end
put k v (field j w m) = if j == k then field k v m else field j w (put k v m)

-- `t, _ := v.(string)`
abbrev pub text_of : Value → String
text_of (text t) = t
text_of _ = ""

-- `n, _ := v.(uint16)`: no value that JSON is decoded to has this type.
abbrev pub uint_16_of : Value → ℕ
uint_16_of null = 0
uint_16_of _ = 0

pub record WireGuard : Type 0 where
  pub server : String
  pub server_port : ℕ
  pub private_key : String
  pub peer_public_key : String
  pub reserved : List ℕ
  pub mtu : ℕ
  pub local_address : List String
  pub fake_packets : String
  pub fake_packets_size : String
  pub fake_packets_delay : String
  pub fake_packets_mode : String
  pub detour : String

abbrev pub zero_wire_guard : WireGuard
zero_wire_guard = record {
  server = "";
  server_port = 0;
  private_key = "";
  peer_public_key = "";
  reserved = [];
  mtu = 0;
  local_address = [];
  fake_packets = "";
  fake_packets_size = "";
  fake_packets_delay = "";
  fake_packets_mode = "";
  detour = "";
}

-- OutboundTLSOptions with what its Reality says of being enabled, and the type of the transport
pub record Tls : Type 0 where
  pub enabled : Bool
  pub reality : Option Bool
  pub tricks : Option Tricks

pub record Secured : Type 0 where
  pub tls : Option Tls
  pub transport : Option String

abbrev pub unsecured : Secured
unsecured = record { tls = none; transport = none }

-- URLTestOutboundOptions but for the members. A duration is the pattern of an int64, in nanoseconds.
pub record UrlTest : Type 0 where
  pub url : String
  pub interval : ℕ
  pub tolerance : ℕ
  pub idle_timeout : ℕ

-- The other structs of options, one for each protocol, that have a detour.
pub data Protocol : Type 0 where
  direct_protocol http hysteria hysteria_2 ssh shadow_tls shadowsocks shadowsocks_r socks tuic tor
        trojan_protocol vless_protocol vmess_protocol :
      Protocol

-- option.Outbound holds the options of all protocols side by side. `other` is what the code neither
-- reads nor writes.
pub record Outbound : Type 0 where
  pub tag : String
  pub type : String
  pub members : List String
  pub default : String
  pub test : Option UrlTest
  pub fragment : Option Fragment
  pub custom_options : Fields
  pub wire_guard : WireGuard
  pub vless : Secured
  pub trojan : Secured
  pub vmess : Secured
  pub detours : Protocol → String
  pub other : Fields

abbrev pub plain : String → String → Outbound
plain t k = record {
  tag = t;
  type = k;
  members = [];
  default = "";
  test = none;
  fragment = none;
  custom_options = end;
  wire_guard = zero_wire_guard;
  vless = unsecured;
  trojan = unsecured;
  vmess = unsecured;
  detours = λ p. "";
  other = end;
}
