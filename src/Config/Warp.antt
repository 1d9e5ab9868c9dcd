-- ===== src/Config/Warp.antt =====
-- config/warp.go with CreateIdentityOnly of pkg/warp/account.go, and isBlockedDomain and
-- generateRandomString of config/config.go.
pub mod Account
pub mod Endpoint
pub mod Key
pub mod Patched
pub mod Secret
use Prim.Native.String.{◌++◌ as append}
use hiddify_core.Prelude.{
  ℕ, ◌+◌, ◌-◌, ◌/◌, String, Bool, true, false, not, ◌&&◌, ◌||◌, Option, none, some, List, [], ◌∷◌,
  ◌++◌, any, ltb, nat_eq, if◌then◌else◌, ◌==◌, Result, Outcome, done, crashed, from_result, ◌>>=◌,
}
use hiddify_core.Config.Text.{has_prefix}
use hiddify_core.Config.Options.{WarpWireguardConfig, ConfigOptions}
use hiddify_core.Config.Warp.Endpoint.{random_warp_port}
use hiddify_core.Config.Sing.{
  Value, object, Fields, get, text_of, uint_16_of, WireGuard, zero_wire_guard, Outbound, plain,
}

-- The identity that Cloudflare registers: the account's texts with its license, the public keys of its peers, the
-- addresses and the client id.
pub record Identity : Type 0 where
  pub id : String
  pub token : String
  pub license : String
  pub private_key : String
  pub peers : List String
  pub address_v4 : String
  pub address_v6 : String
  pub client_id : String

-- What is outside: base64 decoding, whose errors are dropped, netip.ParsePrefix, net.LookupHost, the
-- generation of keys, the service of Cloudflare, and what is drawn at random: the addresses of
-- RandomWarpEndpoint by families, the number that chooses the port, and the name that stands for the
-- addresses.
pub record Outside : Type 0 where
  pub decode_base64 : String → List ℕ
  pub parse_prefix : String → Result String
  pub lookup_host : String → Option (List String)
  pub key_pair : Result (String × String)
  pub register : String → Result Identity
  pub update_account : String → String → String → Result String
  pub random_ip : Bool → Bool → String
  pub port_draw : ℕ
  pub random_name : String

-- Three bytes, of zero where there are fewer than two; with exactly two the third is out of range.
unfoldable pub client_bytes : List ℕ → Outcome (List ℕ)
client_bytes (a ∷ b ∷ c ∷ rest) = done (a ∷ b ∷ c ∷ [])
client_bytes (a ∷ b ∷ []) = crashed
client_bytes (a ∷ []) = done (0 ∷ 0 ∷ 0 ∷ [])
client_bytes [] = done (0 ∷ 0 ∷ 0 ∷ [])

-- isBlockedDomain: whether the text "full:" begins with the domain is what the code asks first.
unfoldable pub is_blocked_domain : (String → Option (List String)) → String → Bool
is_blocked_domain lookup_host domain =
    if has_prefix "full:" domain
    then false
    else elim (lookup_host domain) [ none ↦ true | some ips ↦ any (λ ip. has_prefix ip "10.") ips ]

abbrev pub defaulted : String → String → String
defaulted d s = if s == "" then d else s

-- the hosts that stand for a random address
abbrev pub is_placeholder : String → Bool
is_placeholder host =
    host == "default"
    || (host == "random" || (host == "auto" || (host == "auto4" || host == "auto6")))

-- what GenerateWarpSingbox takes beside the keys
pub record WarpRequest : Type 0 where
  pub host : String
  pub port : ℕ
  pub fake_packets : String
  pub fake_packets_size : String
  pub fake_packets_delay : String
  pub fake_packets_mode : String

-- The keys of the map from a name to its static addresses; nil is a nil map.
abbrev pub StaticIps : Type 0
StaticIps = List (String × List String)

unfoldable pub set_static : String → List String → StaticIps → StaticIps
set_static k v [] = (k, v) ∷ []
set_static k v ((j, w) ∷ m) = if j == k then (k, v) ∷ m else (j, w) ∷ set_static k v m

module _ (out : Outside) where
  unfoldable pub wire_guard_to_singbox : WarpWireguardConfig → String → ℕ → Outcome Outbound
  unfolding client_bytes
  wire_guard_to_singbox wg server port = do
    bytes ← client_bytes (out.decode_base64 wg.client_id)
    v4 ← from_result (out.parse_prefix (append wg.local_address_ipv4 "/24"))
    v6 ← from_result (out.parse_prefix (append wg.local_address_ipv6 "/128"))
    done (record (plain "WARP" "wireguard") {
      wire_guard = record zero_wire_guard {
        server = server;
        server_port = port;
        private_key = wg.private_key;
        peer_public_key = wg.peer_public_key;
        reserved = bytes;
        mtu = 1330;
        local_address = v4 ∷ v6 ∷ [];
      };
    })

  unfoldable pub generate_warp_singbox : WarpWireguardConfig → WarpRequest → Outcome Outbound
  generate_warp_singbox wg r =
      let host = defaulted "auto4" r.host in
      let automatic = host == "auto" || (host == "auto4" || host == "auto6") in
      let packets = if automatic then defaulted "1-3" r.fake_packets else r.fake_packets in
      let fake = not (packets == "") in
      let size = if fake then defaulted "10-30" r.fake_packets_size else r.fake_packets_size in
      let delay = if fake then defaulted "10-30" r.fake_packets_delay else r.fake_packets_delay in
      wire_guard_to_singbox wg host r.port >>= λ (o : Outbound). done (record o {
        wire_guard = record (o.wire_guard) {
          fake_packets = packets;
          fake_packets_size = size;
          fake_packets_delay = delay;
          fake_packets_mode = r.fake_packets_mode;
        };
      })

  -- CreateIdentityOnly; of the account that an update answers the license is kept.
  unfoldable pub create_identity_only : String → Outcome Identity
  create_identity_only license = from_result out.key_pair >>= λ (k : String × String).
      from_result (out.register k.1) >>= λ (i : Identity).
      let keyed : Identity = record i { private_key = k.0 } in
      if license == ""
      then done keyed
      else from_result (out.update_account i.token i.id license) >>= λ (l : String).
          done (record keyed { license = l })

  -- GenerateWarpInfo with no old account: the first peer's key is read.
  unfoldable pub generate_warp_info : String → Outcome WarpWireguardConfig
  generate_warp_info license = create_identity_only license >>= λ (i : Identity). elim i.peers [
    | [] ↦ crashed
    | peer ∷ peers ↦ done (record {
      private_key = i.private_key;
      local_address_ipv4 = i.address_v4;
      local_address_ipv6 = i.address_v6;
      peer_public_key = peer;
      client_id = i.client_id;
    })
  ]

  unfoldable pub generate_warp : String → WarpRequest → Outcome Outbound
  generate_warp license r =
      generate_warp_info license >>= λ (wg : WarpWireguardConfig). generate_warp_singbox wg r

  -- The options of a custom outbound with a "warp" entry: the port is never of the type asked for.
  abbrev pub warp_request : Fields → WarpRequest
  warp_request warp = record {
    host = text_of (get "host" warp);
    port = uint_16_of (get "port" warp);
    fake_packets = text_of (get "fake_packets" warp);
    fake_packets_size = text_of (get "fake_packets_size" warp);
    fake_packets_delay = text_of (get "fake_packets_delay" warp);
    fake_packets_mode = text_of (get "fake_packets_mode" warp);
  }

  unfoldable pub warp_outbound : Option ConfigOptions → Fields → Outcome Outbound
  warp_outbound none warp = generate_warp (text_of (get "key" warp)) (warp_request warp)
  warp_outbound (some opt) warp =
      let key = text_of (get "key" warp) in
      if key == "p1"
      then generate_warp_singbox opt.warp.wireguard_config (warp_request warp)
      else if key == "p2"
      then generate_warp_singbox opt.warp_2.wireguard_config (warp_request warp)
      else generate_warp key (warp_request warp)

  abbrev pub is_left : Option ConfigOptions → Fields → Bool
  is_left none warp = text_of (get "key" warp) == "p1" || text_of (get "key" warp) == "p2"
  is_left (some opt) warp = false

  -- The first half of patchWarp: a custom outbound for Warp becomes a WireGuard outbound.
  abbrev pub from_custom : Outbound → Option ConfigOptions → Value → Outcome Outbound
  from_custom base opt (object warp) =
      if is_left opt warp
      then done base
      else warp_outbound opt warp >>= λ (o : Outbound). done (record base {
        type = "wireguard";
        wire_guard = record (o.wire_guard) { detour = text_of (get "detour" warp) };
      })
  from_custom base opt _ = done base

  unfoldable pub convert_custom : Outbound → Option ConfigOptions → Outcome Outbound
  convert_custom base opt =
      if base.type == "custom"
      then from_custom base opt (get "warp" base.custom_options)
      else done base

  -- A random name with addresses of its own.
  unfoldable pub random_addresses : String → List String
  random_addresses host =
      (if host == "auto4" then [] else out.random_ip false true ∷ [])
      ++ (if host == "auto6" then [] else out.random_ip true false ∷ [])

  -- The server of a WireGuard outbound in the final configuration.
  unfoldable pub settle_server : WireGuard → Option StaticIps → Outcome (String × Option StaticIps)
  unfolding is_blocked_domain random_addresses
  settle_server w ips =
      if is_placeholder w.server || is_blocked_domain out.lookup_host w.server
      then (if w.detour == ""
          then elim ips [
            | none ↦ crashed
            | some m ↦
                done
                  (out.random_name, some (set_static out.random_name (random_addresses w.server) m))
          ]
          else done ("162.159.192.1", ips))
      else done (w.server, ips)

  -- The rest of the options: the port, and what a detour does not allow.
  unfoldable pub settle : WireGuard → WireGuard
  settle w =
      let w₁ = record w {
        server_port =
            if nat_eq w.server_port 0 then random_warp_port out.port_draw else w.server_port;
      } in
      if w.detour == "" then w₁ else record w₁ {
        mtu = if ltb 1000 w.mtu then w.mtu - 50 else w.mtu;
        fake_packets = "";
        fake_packets_size = "";
        fake_packets_delay = "";
      }

  unfoldable pub finish : Outbound → Option StaticIps → Outcome (Outbound × Option StaticIps)
  unfolding settle_server settle
  finish base ips = settle_server base.wire_guard ips >>= λ (r : String × Option StaticIps).
      done (record base { wire_guard = settle (record (base.wire_guard) { server = r.0 }) }, r.1)

  unfoldable pub patch_warp :
      Outbound
      → Option ConfigOptions
      → Bool
      → Option StaticIps
      → Outcome (Outbound × Option StaticIps)
  unfolding convert_custom
  patch_warp base opt final ips = convert_custom base opt >>= λ (o : Outbound).
      if final && o.type == "wireguard" then finish o ips else done (o, ips)
