-- ===== src/Config/Commander.antt =====
-- config/admin_service_commander.go and config/admin_service_cmd_runner.go: how the tunnel service is
-- asked to start and stop, and installed where it does not answer.
pub mod Attempts
use hiddify_core.Prelude.{
  pos, String, Bool, true, false, not, Option, none, some, List, [], ◌∷◌, ◌==◌, if◌then◌else◌,
}
use hiddify_core.Config.Options.{ConfigOptions, DomainStrategy, use_ipv4}
use hiddify_core.Core.Tunnel.{TunnelStartRequest}

-- What is done outside: the calls of the service, commands in the background or not, and the second
-- that is waited for the service.
pub data Action : Type 0 where
  stop_call exit_call pause : Action
  start_call : TunnelStartRequest → Action
  command : Bool → List String → Action

-- the newest first
abbrev pub Log : Type 0
Log = List Action

-- What is outside: the environment's APPIMAGE, whether the port is taken, the error of a command, and
-- the errors of the calls Start and Stop. Each may depend on what was done before.
pub record Host : Type 0 where
  pub appimage : String
  pub executable_path : String
  pub port_in_use : Log → Bool
  pub command_error : Log → Bool → List String → Option String
  pub start_error : Log → TunnelStartRequest → Option String
  pub stop_error : Log → Option String

-- An error, if there is one, and what was done.
abbrev pub Tried : Type 0
Tried = Option String × Log

abbrev pub failed_command : String
failed_command = "Error executing run as root shell command"

module _ (host : Host) where
  -- The commands in turn until one of them runs.
  unfoldable pub run_first : Bool → List (List String) → Log → Tried
  run_first background [] t = (some failed_command, t)
  run_first background (cmd ∷ cmds) t =
      let rest = run_first background cmds (command background cmd ∷ t) in
      elim (host.command_error t background cmd) [
        | none ↦ (none, command background cmd ∷ t)
        | some e ↦ rest
      ]

  unfoldable pub commands : String → String → List (List String)
  commands path args =
      ("cocoasudo" ∷ "--prompt=Hiddify needs root for tunneling." ∷ path ∷ [])
      ∷ ("gksu" ∷ path ∷ [])
      ∷ ("pkexec" ∷ path ∷ [])
      ∷ ("xterm" ∷ "-e" ∷ "sudo" ∷ path ∷ args ∷ [])
      ∷ ("sudo" ∷ path ∷ [])
      ∷ []

  -- ExecuteCmd, of the arguments joined by spaces: an AppImage is run in the background only.
  unfoldable pub execute_cmd : Bool → String → Log → Tried
  unfolding run_first commands
  execute_cmd background args t =
      if host.appimage == ""
      then run_first background (commands host.executable_path args) t
      else if background
      then run_first background (commands host.appimage args) t
      else (some "Appimage cannot have service", t)

  abbrev pub is_ipv4_only : DomainStrategy → Bool
  is_ipv4_only use_ipv4 = true
  is_ipv4_only _ = false

  abbrev pub tunnel_request : ConfigOptions → TunnelStartRequest
  tunnel_request opt = record {
    ipv6 = is_ipv4_only opt.route.ipv6_mode;
    server_port = pos opt.inbound.mixed_port;
    strict_route = opt.inbound.strict_route;
    endpoint_independent_nat = true;
    stack = opt.inbound.tun_stack;
  }

  -- Stop, whose answer is dropped, then Start
  unfoldable pub ask : ConfigOptions → Log → Tried
  ask opt t =
      let r = tunnel_request opt in
      (host.start_error (stop_call ∷ t) r, start_call r ∷ stop_call ∷ t)

  -- startTunnelRequest without installing
  unfoldable pub start_only : ConfigOptions → Log → Tried
  unfolding ask
  start_only opt t = if host.port_in_use t then ask opt t else (some "service is not running", t)

  abbrev pub then_wait : Tried → Log
  then_wait (none, t) = pause ∷ t
  then_wait (some e, t) = t

  abbrev pub or_run : Tried → Tried
  or_run (none, t) = (none, t)
  or_run (some e, t) = execute_cmd true "tunnel run" t

  -- runTunnelService
  unfoldable pub run_tunnel_service : ConfigOptions → Log → Tried
  unfolding start_only execute_cmd
  run_tunnel_service opt t =
      start_only opt (then_wait (or_run (execute_cmd false "tunnel install" t)))

  -- After a Start that failed the service is asked to exit, and installed anew.
  abbrev pub or_install : ConfigOptions → Tried → Tried
  or_install opt (none, t) = (none, t)
  or_install opt (some e, t) = run_tunnel_service opt (exit_call ∷ t)

  -- startTunnelRequest with installing, which ActivateTunnelService calls in the background
  unfoldable pub start_tunnel_request : ConfigOptions → Log → Tried
  unfolding ask run_tunnel_service
  start_tunnel_request opt t =
      if host.port_in_use t then or_install opt (ask opt t) else run_tunnel_service opt t

  -- stopTunnelRequest: a Stop that fails is called once more, and its error returned.
  unfoldable pub stop_tunnel_request : Log → Tried
  stop_tunnel_request t = elim (host.stop_error t) [
    | none ↦ (none, stop_call ∷ t)
    | some e ↦ (some e, stop_call ∷ stop_call ∷ t)
  ]
