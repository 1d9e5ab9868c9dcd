-- ===== src/Config/Runs.antt =====
-- Builds of a configuration on concrete options, profiles and answers from outside.
use hiddify_core.Prelude.{
  ℕ, zero, suc, ◌≡◌, refl, true, false, ◌&&◌, none, some, List, [], ◌∷◌, arith, All, ◌<◌, ◌==◌, ok,
  done, Returns,
}
use hiddify_core.Config.Options.{ConfigOptions, default_config_options, zero_warp}
use hiddify_core.Config.Sing.{
  float, text, Fields, end, field, zero_wire_guard, Outbound, plain, get,
}
use hiddify_core.Config.Text.{contains}
use hiddify_core.Config.Dns.{set_dns, insert_key}
use hiddify_core.Config.Warp.{Outside, patch_warp, generate_warp_singbox, wire_guard_to_singbox}
use hiddify_core.Config.Warp.Key.{Clamped, generate_private_key, generate_private_key-Clamped}
use hiddify_core.Config.Patch.{Codec, patch_object, patch_outbound, server_domain}
use hiddify_core.Config.Patch.Changes.{Kept, patch_object-keeps}
use hiddify_core.Config.Patch.Panics.{is_crashed, is_no_object, patch_object-crashed}
use hiddify_core.Config.Inbounds.{set_inbound}
use hiddify_core.Config.Inbounds.Listeners.{Reached, set_inbound-Reached}
use hiddify_core.Config.Collect.{Collected, warp_tag, patch_hiddify}
use hiddify_core.Config.Collect.Members.{has_tag}
use hiddify_core.Config.Build.{Options, Profile, World, BuildState, build_config, collected}
use hiddify_core.Config.Build.Linked.{Linked, build_config-Linked}
use hiddify_core.Config.Build.Stale.{final-dangles}

abbrev pub outside : Outside
outside = record {
  decode_base64 = λ s. 1 ∷ 2 ∷ 3 ∷ [];
  parse_prefix = λ s. ok s;
  lookup_host = λ d. some ("104.17.1.1" ∷ []);
  key_pair = ok ("private", "public");
  register = λ k. ok (record {
    id = "id";
    token = "token";
    license = "";
    private_key = "";
    peers = "peer" ∷ [];
    address_v4 = "172.16.0.2";
    address_v6 = "2606::2";
    client_id = "AQID";
  });
  update_account = λ t i l. ok l;
  random_ip = λ v4 v6. "162.159.193.7";
  port_draw = 2;
  random_name = "abcdefghijabcdefghij";
}

abbrev proxy : Outbound
proxy = plain "berlin" "vless"

abbrev fields : Fields
fields = field "server" (text "example.com") (field "uuid" (text "u") end)

abbrev codec : Codec
codec = record { to_object = λ o. ok fields; of_object = λ f. ok proxy; is_ip = λ s. false }

abbrev pub options : ConfigOptions
options = record default_config_options {
  warp = record zero_warp { enable_warp = true; mode = "warp_over_proxy" };
}

abbrev pub world : World
world = record {
  outside = λ n. outside;
  codec = codec;
  library = record {
    to_lower = λ s. s;
    url_host = λ u. none;
    is_valid_rule = λ r. true;
    is_valid_dns_rule = λ r. true;
  };
  net = record { url_host = λ u. none; is_ip = λ h. false; order = λ ks. ks; to_lower = λ s. s };
  lookup_host = λ d. none;
  secret = "abcdefghijklmnop";
  format_port = λ n. "6756";
}

abbrev pub profile : Profile
profile = record { inbounds = []; outbounds = proxy ∷ [] }

abbrev pub state : BuildState
state = record { main_proxy_tag = "select"; tunnel_running = false }

abbrev detoured : Outbound
detoured = record (plain "w" "wireguard") {
  wire_guard = record zero_wire_guard { server = "auto"; mtu = 1330; detour = "select" };
}

patch_object-keeps_example : Returns (Kept "server" fields) (patch_object proxy options fields)
unfolding default_config_options
patch_object-keeps_example = patch_object-keeps proxy options "server" refl fields

abbrev xray_fields : Fields
xray_fields = field "xray_fragment" (float "1") end

patch_object-crashed_example : is_crashed (patch_object (plain "x" "xray") options xray_fields) ≡ (
    "xray" == "xray"
    && options.tls_tricks.enable_fragment
    && is_no_object (get "xray_fragment" xray_fields))
patch_object-crashed_example = patch_object-crashed (plain "x" "xray") options xray_fields

set_inbound-Reached_example : Reached options [] (set_inbound options [])
set_inbound-Reached_example = set_inbound-Reached options []

abbrev first : Outbound
first = record (plain warp_tag "wireguard") {
  wire_guard = record {
    server = "auto4";
    server_port = 0;
    private_key = "";
    peer_public_key = "";
    reserved = 1 ∷ 2 ∷ 3 ∷ [];
    mtu = 1330;
    local_address = "/24" ∷ "/128" ∷ [];
    fake_packets = "1-3";
    fake_packets_size = "10-30";
    fake_packets_delay = "10-30";
    fake_packets_mode = "";
    detour = "select";
  };
}

build_config-Linked_example :
    Returns (Linked world state options profile) (build_config world state options profile).0
build_config-Linked_example = build_config-Linked world state options profile

abbrev proxies : Collected
proxies = record {
  keys = "full:example.com" ∷ [];
  outbounds = proxy ∷ [];
  tags = "berlin" ∷ [];
  static = some [];
}

final-dangles_example :
    (o : Options) × ((build_config world
        (build_config world state options profile).1
        default_config_options
        profile).0
      ≡ done o)
    × (o.route.final ≡ warp_tag)
    × (has_tag o.outbounds o.route.final ≡ false)
unfolding default_config_options generate_warp_singbox collected wire_guard_to_singbox
    patch_outbound patch_warp server_domain patch_hiddify contains set_dns get insert_key
final-dangles_example =
    final-dangles world world state options default_config_options profile profile first proxies
      refl refl refl refl refl

-- A source that gives the byte 255.
abbrev full_bytes : ℕ → List ℕ
full_bytes zero = []
full_bytes (suc n) = 255 ∷ full_bytes n

full_bytes-All : (n : ℕ) → All (λ x. x < 256) (full_bytes n)
full_bytes-All zero = tt
full_bytes-All (suc n) = (omega arith, full_bytes-All n)

generate_private_key-Clamped_example :
    (key : List ℕ) × (generate_private_key (λ n. ok (full_bytes n)) ≡ ok key)
    × Clamped (full_bytes 32) key
generate_private_key-Clamped_example =
    generate_private_key-Clamped (λ n. ok (full_bytes n)) (full_bytes 32) refl refl
      (full_bytes-All 32)
