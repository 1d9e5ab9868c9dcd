-- ===== src/Standalone/Examples.antt =====
-- The standalone mode at concrete sites.
use hiddify_core.Prelude.{
  ◌≡◌, refl, pos, String, false, none, some, [], ◌∷◌, ◌++◌, ok, err, done, arith,
}
use hiddify_core.Config.Text.{join_on, has_prefix, strip_prefix, trim_left, trim_right, is_space}
use hiddify_core.Config.Text.Decimal.{print, emit}
use hiddify_core.Config.Runs.{outside, world, options, profile, state}
use hiddify_core.Config.Trials.{formats}
use hiddify_core.Standalone.{Site, ConfigResult, announces, extract_refresh_interval}
use hiddify_core.Standalone.Announced.{hash, announcement, extract_refresh_interval-announced}
use hiddify_core.Standalone.Building.{Visit, Process}
use hiddify_core.Standalone.Building.Served.{Served}
use hiddify_core.Standalone.Following.Patient.{Patient}

abbrev body : String
body =
    "//profile-title: Berlin\n # profile-update-interval: 3\n\t#profile-update-interval: 12 \r\nvless://x"

-- The profile is served with its interval in the body.
abbrev site : Site
site = record {
  new_request = λ u. none;
  get = λ u. ok (record { interval_header = ""; body = ok body });
  read_file = λ f. err "no such file";
  atoi_error = λ s. "invalid syntax";
}

abbrev visit : Visit
visit = record {
  site = site;
  formats = formats;
  outside = λ n. outside;
  world = world;
  read_config_bytes = λ s. ok profile;
  to_json = λ o. ok "{}";
  factory_error = none;
  unmarshal_options = λ s. ok options;
  unmarshal_wireguard = λ s w. ok w;
}

abbrev offline : Visit
offline = record visit { site = record site { get = λ u. err "unreachable" } }

abbrev process : Process
process = record { build = state; log_factory = false }

abbrev url : String
url = "https://example.com/sub"

abbrev first_result : ConfigResult
first_result = record {
  config = "{ }";
  refresh_interval = pos 24;
  hiddify_config_options = some options;
}

-- The line with a blank behind the hash announces nothing.
extract_refresh_interval-announced_example :
    extract_refresh_interval site "" (
      join_on "\n" (
        ("//profile-title: Berlin" ∷ " # profile-update-interval: 3" ∷ [])
        ++ announcement hash "\t" " " " \r" 12 ∷ "vless://x" ∷ []))
    ≡ done (pos 12)
unfolding announces has_prefix strip_prefix trim_left trim_right is_space print emit
extract_refresh_interval-announced_example =
    extract_refresh_interval-announced site hash "\t" " " " \r" 12
      ("//profile-title: Berlin" ∷ " # profile-update-interval: 3" ∷ []) ("vless://x" ∷ []) refl
      refl refl (omega arith) refl refl
