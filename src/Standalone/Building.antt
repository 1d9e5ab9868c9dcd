-- ===== src/Standalone/Building.antt =====
-- v2/standalone.go: the options of the user and the build of a configuration.
pub mod Served
use Prim.Native.String.{◌++◌ as append}
use hiddify_core.Prelude.{
  ℕ, String, Bool, true, false, Option, none, some, ◌==◌, if◌then◌else◌, Result, ok, err, Outcome,
  done, failed, crashed, ◌>>=◌, from_result,
}
use hiddify_core.Config.Options.{WarpWireguardConfig, ConfigOptions, default_config_options}
use hiddify_core.Config.Warp.{Outside}
use hiddify_core.Config.Parser.{Formats, parse_config_content}
use hiddify_core.Config.Build.{ClashApi, Options, Profile, World, BuildState, build_config}
use hiddify_core.Standalone.{Site, ConfigResult, read_config_content}

-- What is outside during one reading: the site, the parser's formats and the world that its jobs and
-- the build meet, encoding/json's readers of the parsed profile and of options, the writer of ToJson,
-- and the error that log.New gives Setup.
pub record Visit : Type 0 where
  pub site : Site
  pub formats : Formats
  pub outside : ℕ → Outside
  pub world : World
  pub read_config_bytes : String → Result Profile
  pub to_json : Options → Result String
  pub factory_error : Option String
  pub unmarshal_options : String → Result ConfigOptions
  pub unmarshal_wireguard : String → WarpWireguardConfig → Result WarpWireguardConfig

-- The package variables: those of the build, and whether `coreLogFactory` is set.
pub record Process : Type 0 where
  pub build : BuildState
  pub log_factory : Bool

-- The address of the API, and the page that it serves.
abbrev pub controller : ConfigOptions → String
controller options =
    if options.route.allow_connection_from_lan then "0.0.0.0:6756" else "127.0.0.1:6756"

abbrev pub opened : ConfigOptions → ClashApi → ClashApi
opened options api = record api { external_controller = controller options; external_ui = "webui" }

module _ (v : Visit) where
  abbrev pub prefixed : String → Outcome String → Outcome String
  prefixed words (done s) = done s
  prefixed words (failed e) = failed (append words e)
  prefixed words crashed = crashed

  -- Setup opens no log file here, so all that it does to the variables is to set the factory.
  abbrev pub written : Process → Options → Option String → Outcome String × Process
  written p o none = (
    prefixed "failed to convert config to JSON: " (from_result (v.to_json o)),
    record p { log_factory = true },
  )
  written p o (some e) = (
    failed (append "failed to set up global configuration: " e),
    record p { log_factory = false },
  )

  -- Without an API the code writes through a nil pointer.
  abbrev pub served : ConfigOptions → Process → Options → Option ClashApi → Outcome String × Process
  served options p o none = (crashed, p)
  served options p o (some api) =
      written p
        (record o { log = record (o.log) { output = "" }; clash_api = some (opened options api) })
        v.factory_error

  abbrev pub finished :
      ConfigOptions → Process → Outcome Options × BuildState → Outcome String × Process
  finished options p (done o, st) = served options (record p { build = st }) o o.clash_api
  finished options p (failed e, st) =
      (failed (append "failed to build config: " e), record p { build = st })
  finished options p (crashed, st) = (crashed, record p { build = st })

  abbrev pub built_of : ConfigOptions → Process → Result Profile → Outcome String × Process
  built_of options p (err e) = (failed e, p)
  built_of options p (ok profile) =
      finished options p (build_config v.world p.build options profile)

  abbrev pub parsed_and_built : ConfigOptions → Process → Outcome String → Outcome String × Process
  parsed_and_built options p (done parsed) = built_of options p (v.read_config_bytes parsed)
  parsed_and_built options p (failed e) = (failed (append "failed to parse config content: " e), p)
  parsed_and_built options p crashed = (crashed, p)

  -- buildConfig
  unfoldable pub build_standalone : String → ConfigOptions → Process → Outcome String × Process
  build_standalone content options p =
      parsed_and_built options p
        (parse_config_content v.formats v.outside content (some options) false)

  abbrev pub wireguard_read : String → WarpWireguardConfig → Outcome WarpWireguardConfig
  wireguard_read str config =
      if str == "" then done config else from_result (v.unmarshal_wireguard str config)

  unfoldable pub read_config_options_at : String → Outcome ConfigOptions
  read_config_options_at path = from_result (v.site.read_file path) >>= λ (content : String).
      from_result (v.unmarshal_options content) >>= λ (o : ConfigOptions).
      wireguard_read o.warp.wireguard_config_str o.warp.wireguard_config
      >>= λ (w₁ : WarpWireguardConfig).
          wireguard_read o.warp_2.wireguard_config_str o.warp_2.wireguard_config
          >>= λ (w₂ : WarpWireguardConfig). done (record o {
            warp = record (o.warp) { wireguard_config = w₁ };
            warp_2 = record (o.warp_2) { wireguard_config = w₂ };
          })

  abbrev pub or_default : Option ConfigOptions → ConfigOptions
  or_default none = default_config_options
  or_default (some o) = o

  abbrev pub options_from : String → Option ConfigOptions → Outcome ConfigOptions
  options_from path default =
      if path == "" then done (or_default default) else read_config_options_at path

  abbrev pub with_build :
      ConfigResult → ConfigOptions → Outcome String × Process → Outcome ConfigResult × Process
  with_build result o (done config, p) =
      (done (record result { config = config; hiddify_config_options = some o }), p)
  with_build result o (failed e, p) = (failed e, p)
  with_build result o (crashed, p) = (crashed, p)

  abbrev pub with_options :
      ConfigResult → Process → Outcome ConfigOptions → Outcome ConfigResult × Process
  with_options result p (done o) = with_build result o (build_standalone result.config o p)
  with_options result p (failed e) = (failed e, p)
  with_options result p crashed = (crashed, p)

  abbrev pub with_content :
      String
      → Option ConfigOptions
      → Process
      → Outcome ConfigResult
      → Outcome ConfigResult × Process
  with_content setting default p (done result) =
      with_options result p (options_from setting default)
  with_content setting default p (failed e) = (failed e, p)
  with_content setting default p crashed = (crashed, p)

  -- readAndBuildConfig
  unfoldable pub read_and_build_config :
      String → String → Option ConfigOptions → Process → Outcome ConfigResult × Process
  read_and_build_config setting path default p =
      with_content setting default p (read_config_content v.site path)
