-- ===== src/Standalone/Building/Served.antt =====
-- What a configuration of the standalone mode was made of.
use hiddify_core.Prelude.{
  List, [], if◌then◌else◌, String, ◌≡◌, true, false, Option, none, some, ok, done,
}
use hiddify_core.Config.Options.{ConfigOptions}
use hiddify_core.Config.Parser.{parse_config_content}
use hiddify_core.Config.Inbounds.{Inbound, set_inbound}
use hiddify_core.Config.Inbounds.Listeners.{Reached}
use hiddify_core.Config.Build.{ClashApi, Options, Profile, set_clash_api}
use hiddify_core.Config.Build.Linked.{Linked}
use hiddify_core.Standalone.{ConfigResult, read_config_content}
use hiddify_core.Standalone.Building.{Visit, Process, options_from}

module _ (v : Visit) where
  -- The configuration `config` was built from the content of a profile with the options `opt`.
  pub record Built (opt : ConfigOptions) (p : Process) (content config : String) : Type 0 where
    pub parsed : String
    pub profile : Profile
    pub o : Options
    pub api : ClashApi
    pub from_parser :
        parse_config_content v.formats v.outside content (some opt) false ≡ done parsed
    pub checked : v.formats.check_config parsed ≡ none
    pub read : v.read_config_bytes parsed ≡ ok profile
    pub linked : Linked v.world p.build opt profile o
    pub no_log_file : o.log.output ≡ ""
    pub has_api : o.clash_api ≡ some api
    pub open_api :
        opt.route.allow_connection_from_lan ≡ true → api.external_controller ≡ "0.0.0.0:6756"
    pub local_api :
        opt.route.allow_connection_from_lan ≡ false → api.external_controller ≡ "127.0.0.1:6756"
    pub reached : Reached opt (if opt.enable_full_config then profile.inbounds else []) o.inbounds
    pub asked : opt.enable_clash_api ≡ true
    pub json : v.to_json o ≡ ok config

  -- What ToJson wrote
  abbrev Json : Options → String → Type 0
  Json o config = v.to_json o ≡ ok config

  module _ (opt : ConfigOptions) (p : Process) (content : String) where
    abbrev given_inbounds : Profile → List Inbound
    given_inbounds profile = if opt.enable_full_config then profile.inbounds else []

    abbrev Parts : Profile → Options → Type 0
    Parts profile o =
        (o.clash_api ≡ set_clash_api v.world opt)
        × (o.inbounds ≡ set_inbound opt (given_inbounds profile))

    -- What BuildConfig says of its result.
    abbrev Answered : Profile → Options → Type 0
    Answered profile o = Linked v.world p.build opt profile o × Parts profile o

  module _ (setting path : String) (default : Option ConfigOptions) (p : Process) where
    -- What a configuration that was read and built comes from.
    pub record Served (r : ConfigResult) : Type 0 where
      pub content : ConfigResult
      pub opt : ConfigOptions
      pub from_path : read_config_content v.site path ≡ done content
      pub interval : r.refresh_interval ≡ content.refresh_interval
      pub from_setting : options_from v setting default ≡ done opt
      pub remembered : r.hiddify_config_options ≡ some opt
      pub built : Built opt p content.config r.config
