-- ===== src/Core/Handlers.antt =====
-- The handlers of v2/custom.go and ServiceReload of v2/old_command_server.go.
use hiddify_core.Prelude.{
  String, Option, List, [], ◌∷◌, Bool, true, false, not, none, some, if◌then◌else◌,
}
use hiddify_core.Core.State.{
  CoreState, stopped, starting, started, stopping, empty, unexpected_error, instance_not_found,
  instance_not_started, StartRequest, wait, memory_limit, close_server, set_service, close_box,
  Service, Calls, Exit, replied, panicked,
}
use hiddify_core.Core.Status.{
  core_info, effect, set_core_status, deactivate_tunnel_service, detach, drop_box, stop_and_alert,
}
use hiddify_core.Core.Starting.{start_core}
use hiddify_core.Core.Profiles.{ParseRequest, parse_profile, change_config_options, generate_config}

abbrev pub is_stopped : CoreState → Bool
is_stopped stopped = true
is_stopped _ = false

abbrev pub is_started : CoreState → Bool
is_started started = true
is_started _ = false

abbrev pub reload_request : StartRequest
reload_request = record {
  config_path = "";
  config_content = "";
  disable_memory_limit = false;
  delay_start = true;
  enable_old_command_server = true;
  enable_raw_config = false;
}

module _ {ConfigOptions : Type 0} where
  unfoldable pub not_started : Service ConfigOptions → Exit
  not_started s =
      replied (some (core_info s.core_state instance_not_started "instance is not started"))
        (some "instance not started")

  unfoldable pub not_found : Service ConfigOptions → Exit
  not_found s =
      replied (some (core_info s.core_state instance_not_found "instance is not found"))
        (some "instance not found")

  unfoldable pub report_stopped : Service ConfigOptions → Exit × Service ConfigOptions
  report_stopped s =
      (replied (some (core_info stopped empty "")) none, set_core_status stopped empty "" s)

module _ {Config ConfigOptions : Type 0} (c : Calls Config ConfigOptions) where
  -- DeferPanicToError: the handler's results are unnamed, so after a panic both are nil.
  unfoldable pub recover : Exit × Service ConfigOptions → Exit × Service ConfigOptions
  recover (replied r e, s) = (replied r e, s)
  recover (panicked, s) = (replied none none, stop_and_alert c unexpected_error c.panic_message s)

  -- The end of Stop, once the box is closed.
  unfoldable pub close_command_server : Service ConfigOptions → Exit × Service ConfigOptions
  close_command_server s =
      let s₁ = effect close_server s in
      if s.command_server
      then elim (c.shut_server s.trace) [
        | some e ↦ (
          replied
              (some
                (core_info s.core_state unexpected_error "Error while Closing the comand server."))
              (some "error while Closing the comand server."),
          s₁,
        )
        | none ↦ report_stopped (record s₁ { command_server = false })
      ]
      else report_stopped s

  unfoldable pub stop : Service ConfigOptions → Exit × Service ConfigOptions
  stop s =
      if is_started s.core_state
      then elim s.box [
        | none ↦ (not_found s, s)
        | some b ↦
            let s₁ = detach (deactivate_tunnel_service c (set_core_status stopping empty "" s)) in
            let s₂ = effect (close_box b) s₁ in
            elim (c.shut_box s₁.trace b) [
              | some e ↦ (
                replied
                    (some (
                      core_info s₂.core_state unexpected_error "Error while stopping the service."))
                    (some "Error while stopping the service."),
                s₂,
              )
              | none ↦ close_command_server (record s₂ { box = none })
            ]
      ]
      else (not_started s, s)

  -- Start up to StartService: a service that is not stopped is stopped first, whatever Stop answers.
  unfoldable pub prepare : StartRequest → Service ConfigOptions → Service ConfigOptions
  prepare req s =
      let s₁ = if is_stopped s.core_state then s else (stop s).1 in
      effect (memory_limit (not req.disable_memory_limit)) (set_core_status starting empty "" s₁)

  unfoldable pub start : StartRequest → Service ConfigOptions → Exit × Service ConfigOptions
  start req s = recover (start_core c req (prepare req s))

  unfoldable pub restart_stopped :
      StartRequest → Exit × Service ConfigOptions → Exit × Service ConfigOptions
  restart_stopped req (replied r (some e), s) = (replied r (some e), s)
  restart_stopped req (panicked, s) = (panicked, s)
  restart_stopped req (replied r none, s) = start_core c req (
      effect (memory_limit (not req.disable_memory_limit))
        (effect wait (set_core_status starting empty "" s)))

  unfoldable pub restart : StartRequest → Service ConfigOptions → Exit × Service ConfigOptions
  restart req s =
      if is_started s.core_state
      then elim s.box [ none ↦ (not_found s, s) | some b ↦ recover (restart_stopped req (stop s)) ]
      else (not_started s, s)

  -- ServiceReload of the old command server
  unfoldable pub service_reload : Service ConfigOptions → Exit × Service ConfigOptions
  service_reload s =
      let s₁ = set_core_status starting empty "" s in
      let s₂ =
        if s₁.command_server
        then record (effect (set_service none) s₁) { command_server = false }
        else s₁ in
      start_core c reload_request (drop_box s₂)

-- The requests that reach the service, by gRPC or from the command server.
pub data Request : Type 0 where
  start_it start_service_only restart_it : StartRequest → Request
  stop_it reload_it : Request
  parse_it : ParseRequest → Request
  change_it generate_it : String → Request

-- The service after a request.
unfoldable pub handle :
    {Config ConfigOptions : Type 0}
    → Calls Config ConfigOptions
    → Request
    → Service ConfigOptions
    → Service ConfigOptions
handle c (start_it req) s = (start c req s).1
handle c (start_service_only req) s = (start_core c req s).1
handle c (restart_it req) s = (restart c req s).1
handle c stop_it s = (stop c s).1
handle c reload_it s = (service_reload c s).1
handle c (parse_it req) s = (parse_profile c req s).2
handle c (change_it json) s = (change_config_options c json s).1
handle c (generate_it path) s = (generate_config c path s).2

-- A life of the service: each request comes with what its calls answer.
unfoldable pub serve :
    {Config ConfigOptions : Type 0}
    → List (Calls Config ConfigOptions × Request)
    → Service ConfigOptions
    → Service ConfigOptions
serve [] s = s
serve ((c, r) ∷ rest) s = serve rest (handle c r s)

-- The package variables before any request, with or without a Flutter side and a log factory.
abbrev pub initial :
    {ConfigOptions : Type 0} → Option ConfigOptions → Bool → Bool → Service ConfigOptions
initial options bridge factory = record {
  core_state = stopped;
  box = none;
  config_options = options;
  active_config_path = "";
  use_flutter_bridge = bridge;
  command_server = false;
  log_factory = factory;
  tunnel_running = false;
  trace = [];
}
