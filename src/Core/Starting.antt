-- ===== src/Core/Starting.antt =====
-- StartService of v2/custom.go, stage by stage, and startCommandServer of v2/old_command_server.go.
use hiddify_core.Prelude.{
  ℕ, String, true, none, some, ◌==◌, ◌||◌, if◌then◌else◌, done, failed, crashed, Result, ok, err,
}
use hiddify_core.Core.State.{
  started, empty, start_command_server, create_service, start_service, error_building_config,
  error_parsing_config, error_reading_config, StartRequest, wait, save_config, start_server,
  set_service, new_box, start_box, Service, Calls, Exit, replied, panicked,
}
use hiddify_core.Core.Status.{core_info, effect, set_core_status, fail}

module _ {Config ConfigOptions : Type 0} (c : Calls Config ConfigOptions) (req : StartRequest) where
  -- The content of the request, or of its file, whose path becomes the active one.
  unfoldable pub read_content : Service ConfigOptions → Result String × Service ConfigOptions
  read_content s =
      if req.config_content == ""
      then (c.read_file req.config_path, record s { active_config_path = req.config_path })
      else (ok req.config_content, s)

  -- `instance.Start()` and what follows it
  unfoldable pub run_instance : ℕ → Service ConfigOptions → Exit × Service ConfigOptions
  run_instance b s =
      let s₁ = if req.delay_start then effect wait s else s in
      let s₂ = effect (start_box b) s₁ in
      let s₃ = record s₂ { box = some b } in
      let s₄ = if req.enable_old_command_server then effect (set_service (some b)) s₃ else s₃ in
      elim (c.run_box s₁.trace b) [
        | some e ↦ fail c start_service e s₂
        | none ↦
            (replied (some (core_info started empty "")) none, set_core_status started empty "" s₄)
      ]

  unfoldable pub create_instance : Config → Service ConfigOptions → Exit × Service ConfigOptions
  create_instance config s = elim (c.create_box s.trace config) [
    | err e ↦ fail c create_service e s
    | ok b ↦ run_instance b (effect (new_box b) s)
  ]

  -- startCommandServer: the variable is set before the server runs
  unfoldable pub with_command_server : Config → Service ConfigOptions → Exit × Service ConfigOptions
  with_command_server config s =
      let s₁ = effect start_server (record s { command_server = true }) in
      if req.enable_old_command_server
      then (if s.log_factory
          then elim (c.run_server s.trace) [
            | some e ↦ fail c start_command_server e s₁
            | none ↦ create_instance config s₁
          ]
          else (panicked, s))
      else create_instance config s

  unfoldable pub save : Config → Service ConfigOptions → Exit × Service ConfigOptions
  save config s =
      let s₁ = effect save_config s in
      with_command_server config (
        if s.active_config_path == ""
        then record s₁ { active_config_path = c.current_config_path }
        else s₁)

  -- The options are a nil pointer until they are set; the call then panics. BuildConfig notes that the
  -- tunnel service runs before anything of it can fail.
  unfoldable pub build : Config → Service ConfigOptions → Exit × Service ConfigOptions
  build config s = if req.enable_raw_config then save config s else elim s.config_options [
    | none ↦ (panicked, s)
    | some o ↦
        let s₁ = record s { tunnel_running = s.tunnel_running || c.asks_for_tunnel o } in
        elim (c.build_config o config) [
          | failed e ↦ fail c error_building_config e s₁
          | done built ↦ save built s₁
          | crashed ↦ (panicked, s₁)
        ]
  ]

  unfoldable pub parse : String → Service ConfigOptions → Exit × Service ConfigOptions
  parse content s = elim (c.parse_config content) [
    | err e ↦ fail c error_parsing_config e s
    | ok config ↦ build config s
  ]

  unfoldable pub start_core : Service ConfigOptions → Exit × Service ConfigOptions
  start_core s =
      let (r, s₁) = read_content s in
      elim r [ err e ↦ fail c error_reading_config e s₁ | ok content ↦ parse content s₁ ]
