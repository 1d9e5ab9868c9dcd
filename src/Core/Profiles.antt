-- ===== src/Core/Profiles.antt =====
-- Parse, ChangeConfigOptions and GenerateConfig of v2/custom.go: the handlers that read profiles and
-- options.
pub mod Replies
use hiddify_core.Prelude.{
  String, Bool, true, false, ◌||◌, Option, none, some, ◌==◌, if◌then◌else◌, Result, ok, err,
  Outcome, done, failed, crashed,
}
use hiddify_core.Core.State.{unexpected_error, Service, Calls}
use hiddify_core.Core.Status.{stop_and_alert}

-- ParseRequest, without the flag that the handler does not read, and ParseResponse: whether the code is
-- OK, with content and message
pub record ParseRequest : Type 0 where
  pub content : String
  pub config_path : String
  pub temp_path : String

pub record ParseResponse : Type 0 where
  pub is_ok : Bool
  pub content : String
  pub message : String

-- What a handler returns, nil pointers included, and the service that it leaves.
abbrev pub Reply : Type 0 → Type 0 → Type 0
Reply A ConfigOptions = Option A × Option String × Service ConfigOptions

abbrev pub parse_failed : String → ParseResponse
parse_failed e = record { is_ok = false; content = ""; message = e }

module _ {Config ConfigOptions : Type 0} (c : Calls Config ConfigOptions) where
  -- DeferPanicToError: the service is stopped, and both results are nil.
  unfoldable pub after_panic : {A : Type 0} → Service ConfigOptions → Reply A ConfigOptions
  after_panic s = (none, none, stop_and_alert c unexpected_error c.panic_message s)

  abbrev pub written :
      String → Option String → Service ConfigOptions → Reply ParseResponse ConfigOptions
  written config none s = (some (record { is_ok = true; content = config; message = "" }), none, s)
  written config (some e) s = (some (parse_failed e), some e, s)

  unfoldable pub write_parsed :
      ParseRequest → String → Service ConfigOptions → Reply ParseResponse ConfigOptions
  write_parsed req config s =
      written config (if req.config_path == "" then none else c.write_file req.config_path config) s

  abbrev pub parsed :
      ParseRequest → Service ConfigOptions → Outcome String → Reply ParseResponse ConfigOptions
  parsed req s (done config) = write_parsed req config s
  parsed req s (failed e) = (some (parse_failed e), some e, s)
  parsed req s crashed = after_panic s

  abbrev pub read_and_parsed :
      ParseRequest → Service ConfigOptions → Result String → Reply ParseResponse ConfigOptions
  read_and_parsed req s (err e) = (none, some e, s)
  read_and_parsed req s (ok content) = parsed req s (c.parse_profile content)

  -- Parse: from the file of the request, if it names one, else from its content
  unfoldable pub parse_profile :
      ParseRequest → Service ConfigOptions → Reply ParseResponse ConfigOptions
  unfolding write_parsed after_panic
  parse_profile req s =
      if req.temp_path == ""
      then parsed req s (c.parse_profile req.content)
      else read_and_parsed req s (c.read_file req.temp_path)

  -- json.Unmarshal of the Warp configuration, where there is one; with its error
  abbrev pub unmarshal_warp :
      (ConfigOptions → String)
      → (ConfigOptions → ConfigOptions × Option String)
      → ConfigOptions
      → ConfigOptions × Option String
  unmarshal_warp str unmarshal o = if str o == "" then (o, none) else unmarshal o

  -- The options that are left, and the first error.
  abbrev pub and_then :
      (ConfigOptions → ConfigOptions × Option String)
      → ConfigOptions × Option String
      → ConfigOptions × Option String
  and_then f (o, none) = f o
  and_then f (o, some e) = (o, some e)

  unfoldable pub read_options : String → ConfigOptions × Option String
  read_options json =
      and_then (unmarshal_warp c.warp_2_str c.unmarshal_warp_2)
        (and_then (unmarshal_warp c.warp_str c.unmarshal_warp_1) (c.unmarshal_options json))

  -- ChangeConfigOptions: the variable points to the new options before they are read.
  unfoldable pub change_config_options :
      String → Service ConfigOptions → Option String × Service ConfigOptions
  unfolding read_options
  change_config_options json s =
      let (o, e) = read_options json in (e, record s { config_options = some o })

  abbrev pub options_or_default : Option ConfigOptions → ConfigOptions
  options_or_default none = c.default_options
  options_or_default (some o) = o

  abbrev pub built : Service ConfigOptions → Outcome String → Reply String ConfigOptions
  built s (done json) = (some json, none, s)
  built s (failed e) = (none, some e, s)
  built s crashed = after_panic s

  abbrev pub built_from :
      Service ConfigOptions
      → Service ConfigOptions
      → ConfigOptions
      → Result Config
      → Reply String ConfigOptions
  built_from s₁ s₂ o (err e) = (none, some e, s₁)
  built_from s₁ s₂ o (ok config) = built s₂ (c.build_json o config)

  abbrev pub generated :
      Service ConfigOptions
      → Service ConfigOptions
      → ConfigOptions
      → Result String
      → Reply String ConfigOptions
  generated s₁ s₂ o (err e) = (none, some e, s₁)
  generated s₁ s₂ o (ok content) = built_from s₁ s₂ o (c.parse_config content)

  -- GenerateConfig: options that are nil become the default ones, and stay so. BuildConfig starts the
  -- tunnel service where the options ask for it.
  unfoldable pub generate_config : String → Service ConfigOptions → Reply String ConfigOptions
  unfolding after_panic
  generate_config path s =
      let o = options_or_default s.config_options in
      let s₁ = record s { config_options = some o } in
      let s₂ = record s₁ { tunnel_running = s.tunnel_running || c.asks_for_tunnel o } in
      generated s₁ s₂ o (c.read_file path)
