-- ===== src/Core/Tunnel.antt =====
-- The tunnel service of v2/tunnel_service.go: a core service run from a raw configuration.
pub mod Replies
use hiddify_core.Prelude.{
  ℤ, pos, int_eq, String, Bool, true, false, Option, none, some, [], ◌∷◌, concat, if◌then◌else◌,
}
use hiddify_core.Core.State.{StartRequest, Service, Calls, Exit, replied, panicked}
use hiddify_core.Core.Handlers.{start, stop}

-- TunnelStartRequest
pub record TunnelStartRequest : Type 0 where
  pub ipv6 : Bool
  pub server_port : ℤ
  pub strict_route : Bool
  pub endpoint_independent_nat : Bool
  pub stack : String

-- TunnelResponse
pub record TunnelResponse : Type 0 where
  pub message : String

unfoldable pub format_bool : Bool → String
format_bool true = "true"
format_bool false = "false"

-- The numbers are printed by the Go library.
module _ (format_int : ℤ → String) where
  unfoldable pub make_tunnel_config : Bool → ℤ → Bool → Bool → String → String
  make_tunnel_config ipv6 server_port strict_route endpoint_independent_nat stack =
      let inet_6 : String =
        if ipv6 then "      \"inet6_address\": \"fdfe:dcba:9876::1/126\"," else "" in
      concat (
        "{\n\t\t\"log\":{\n\t\t\t\"level\": \"warn\"\n\t\t},\n"
        ∷ "\t\t\"inbounds\": [\n\t\t  {\n\t\t\t\"type\": \"tun\",\n"
        ∷ "\t\t\t\"tag\": \"tun-in\",\n"
        ∷ "\t\t\t\"interface_name\": \"HiddifyTunnel\",\n"
        ∷ "\t\t\t\"inet4_address\": \"172.19.0.1/30\",\n\t\t\t"
        ∷ inet_6
        ∷ "\n\t\t\t\"auto_route\": true,\n\t\t\t\"strict_route\": "
        ∷ format_bool strict_route
        ∷ ",\n\t\t\t\"endpoint_independent_nat\": "
        ∷ format_bool endpoint_independent_nat
        ∷ ",\n\t\t\t\"stack\": \""
        ∷ stack
        ∷ "\"\n\t\t  }\n\t\t],\n\t\t\"outbounds\": [\n\t\t  {\n"
        ∷ "\t\t\t\"type\": \"socks\",\n\t\t\t\"tag\": \"socks-out\",\n"
        ∷ "\t\t\t\"server\": \"127.0.0.1\",\n\t\t\t\"server_port\": "
        ∷ format_int server_port
        ∷ ",\n\t\t\t\"version\": \"5\"\n\t\t  },\n\t\t  {\n"
        ∷ "\t\t\t\"type\": \"direct\",\n\t\t\t\"tag\": \"direct-out\"\n\t\t  }\n"
        ∷ "\t\t],\n\t\t\"route\": {\n\t\t  \"rules\": [\n\t\t\t{\n"
        ∷ "\t\t\t\t\"process_name\":[\n\t\t\t\t\t\"Hiddify.exe\",\n"
        ∷ "\t\t\t\t\t\"Hiddify\",\n\t\t\t\t\t\"HiddifyCli\",\n"
        ∷ "\t\t\t\t\t\"HiddifyCli.exe\"\n\t\t\t\t\t],\n"
        ∷ "\t\t\t\t\"outbound\": \"direct-out\"\n\t\t\t}\n\t\t  ]\n\t\t}\n\t  }"
        ∷ [])

  tunnel_start_request : TunnelStartRequest → StartRequest
  unfolding make_tunnel_config
  tunnel_start_request r = record {
    config_path = "";
    config_content =
        make_tunnel_config r.ipv6
          (if int_eq r.server_port (pos 0) then pos 12334 else r.server_port) r.strict_route
          r.endpoint_independent_nat r.stack;
    disable_memory_limit = true;
    delay_start = false;
    enable_old_command_server = false;
    enable_raw_config = true;
  }

  module _ {Config ConfigOptions : Type 0} (c : Calls Config ConfigOptions) where
    -- The answer is the message, with the error of Start or Stop if there is one.
    respond :
        Exit × Service ConfigOptions → Option TunnelResponse × Option String × Service ConfigOptions
    respond (replied i none, s) = (some (record { message = "OK" }), none, s)
    respond (replied i (some e), s) = (some (record { message = e }), some e, s)
    respond (panicked, s) = (none, none, s)

    pub tunnel_start :
        TunnelStartRequest
        → Service ConfigOptions
        → Option TunnelResponse × Option String × Service ConfigOptions
    tunnel_start r s =
        respond (start c (tunnel_start_request r) (record s { use_flutter_bridge = false }))

    pub tunnel_stop :
        Service ConfigOptions → Option TunnelResponse × Option String × Service ConfigOptions
    tunnel_stop s = respond (stop c s)
