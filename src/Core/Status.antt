-- ===== src/Core/Status.antt =====
-- Status changes and alerts: SetCoreStatus of v2/coreinfo.go, convert2OldState of
-- v2/old_constant.go, StopAndAlert of v2/custom.go, DeactivateTunnelService of
-- config/admin_service_commander.go.
use hiddify_core.Prelude.{String, false, none, some, ◌∷◌, if◌then◌else◌}
use hiddify_core.Core.State.{
  CoreState, stopped, starting, started, stopping, MessageType, unexpected_error, CoreInfo, Effect,
  emit, send_to_flutter, stop_tunnel, close_server, set_service, close_box, Service, Calls, Exit,
  replied,
}

unfoldable pub convert_2_old_state : CoreState → String
convert_2_old_state stopped = "Stopped"
convert_2_old_state started = "Started"
convert_2_old_state starting = "Starting"
convert_2_old_state stopping = "Stopping"

abbrev pub core_info : CoreState → MessageType → String → CoreInfo
core_info state type message = record { core_state = state; message_type = type; message = message }

module _ {ConfigOptions : Type 0} where
  abbrev pub effect : Effect → Service ConfigOptions → Service ConfigOptions
  effect e s = record s { trace = e ∷ s.trace }

  -- A send is taken to return: without cgo it does nothing (bridge/bridge_stub.go), and with cgo the
  -- Dart API is taken to be initialised. Before that, Dart_PostCObject_DL is null (Dart/Loader), and
  -- the call through it ends the whole process at this effect: nothing that stands after it is
  -- reached.
  unfoldable pub set_core_status :
      CoreState → MessageType → String → Service ConfigOptions → Service ConfigOptions
  unfolding convert_2_old_state
  set_core_status state type message s =
      let s' = effect (emit (core_info state type message)) (record s { core_state = state }) in
      if s.use_flutter_bridge
      then effect
          (send_to_flutter
            (record { status = convert_2_old_state state; alert = none; message = none }))
          s'
      else s'

  -- A running tunnel is stopped and waited for, and forgotten only where that fails; without one the
  -- request is sent in the background.
  unfoldable pub deactivate_tunnel_service :
      {Config : Type 0} → Calls Config ConfigOptions → Service ConfigOptions → Service ConfigOptions
  deactivate_tunnel_service c s =
      let s' = effect stop_tunnel s in
      if s.tunnel_running
      then (if c.tunnel_stop_fails s.trace then record s' { tunnel_running = false } else s')
      else s'

  -- oldCommandServer.SetService(nil), if there is a server
  unfoldable pub detach : Service ConfigOptions → Service ConfigOptions
  detach s = if s.command_server then effect (set_service none) s else s

  unfoldable pub drop_box : Service ConfigOptions → Service ConfigOptions
  drop_box s = elim s.box [ none ↦ s | some b ↦ effect (close_box b) (record s { box = none }) ]

  unfoldable pub stop_and_alert :
      {Config : Type 0}
      → Calls Config ConfigOptions
      → MessageType
      → String
      → Service ConfigOptions
      → Service ConfigOptions
  unfolding set_core_status deactivate_tunnel_service detach drop_box
  stop_and_alert c type message s =
      let s₁ = set_core_status stopped type message s in
      let s₂ = drop_box (detach (deactivate_tunnel_service c s₁)) in
      let s₃ = if s₂.command_server then effect close_server s₂ else s₂ in
      if s₃.use_flutter_bridge
      then effect
          (send_to_flutter (record {
            status = convert_2_old_state s₃.core_state;
            alert = some type;
            message = some message;
          }))
          s₃
      else s₃

  -- The error exits of StartService: the status with the error's type, then the alert.
  unfoldable pub fail :
      {Config : Type 0}
      → Calls Config ConfigOptions
      → MessageType
      → String
      → Service ConfigOptions
      → Exit × Service ConfigOptions
  unfolding stop_and_alert
  fail c type e s = (
    replied (some (core_info stopped type e)) (some e),
    stop_and_alert c unexpected_error e (set_core_status stopped type e s),
  )
