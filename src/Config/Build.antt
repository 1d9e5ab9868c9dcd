-- ===== src/Config/Build.antt =====
-- BuildConfig of config/config.go, with setLog and setClashAPI.
pub mod Linked
pub mod Stale
use Prim.Native.String.{◌++◌ as append}
use hiddify_core.Prelude.{
  ℕ, String, Bool, true, false, ◌||◌, Option, none, some, List, [], ◌==◌, if◌then◌else◌, Outcome,
  done, ◌>>=◌,
}
use hiddify_core.Config.Options.{ConfigOptions}
use hiddify_core.Config.Sing.{Outbound}
use hiddify_core.Config.Outbounds.{all_outbounds}
use hiddify_core.Config.Inbounds.{Inbound, set_inbound}
use hiddify_core.Config.Routing.{Library, RouteSettings, route_settings}
use hiddify_core.Config.Dns.{Net, DnsSettings, set_dns, built_dns}
use hiddify_core.Config.Warp.{Outside}
use hiddify_core.Config.Patch.{Codec}
use hiddify_core.Config.Collect.{Collected, without_double, collect_all, main_tag}

-- option.LogOptions and what is set of option.ExperimentalOptions
pub record LogOptions : Type 0 where
  pub level : String
  pub output : String
  pub disabled : Bool
  pub timestamp : Bool
  pub disable_color : Bool

pub record ClashApi : Type 0 where
  pub external_controller : String
  pub external_ui : String
  pub secret : String
  pub cache_path : String

pub record Options : Type 0 where
  pub log : LogOptions
  pub clash_api : Option ClashApi
  pub inbounds : List Inbound
  pub dns : DnsSettings
  pub route : RouteSettings
  pub outbounds : List Outbound

-- What BuildConfig reads of the profile. The DNS and the routes of a full profile are copied and then
-- overwritten by setDns and setRoutingOptions.
pub record Profile : Type 0 where
  pub inbounds : List Inbound
  pub outbounds : List Outbound

-- What is outside: beside the parameters of the parts, the secret that generateRandomString draws and
-- the printing of numbers. Each outbound of the profile meets the world anew, the added one first.
pub record World : Type 0 where
  pub outside : ℕ → Outside
  pub codec : Codec
  pub library : Library
  pub net : Net
  pub lookup_host : String → Option (List String)
  pub secret : String
  pub format_port : ℕ → String

-- The package variables that a build reads or writes.
pub record BuildState : Type 0 where
  pub main_proxy_tag : String
  pub tunnel_running : Bool

unfoldable pub set_log : ConfigOptions → LogOptions
set_log opt = record {
  level = opt.log_level;
  output = "box.log";
  disabled = false;
  timestamp = true;
  disable_color = true;
}

unfoldable pub set_clash_api : World → ConfigOptions → Option ClashApi
set_clash_api w opt =
    if opt.enable_clash_api
    then some (record {
      external_controller = append "127.0.0.1:" (w.format_port opt.clash_api_port);
      external_ui = "";
      secret = if opt.clash_api_secret == "" then w.secret else opt.clash_api_secret;
      cache_path = "clash.db";
    })
    else none

-- The configuration, of what setOutbounds has collected.
abbrev pub assembled : World → BuildState → ConfigOptions → Profile → Collected → Options
assembled w st opt input c = record {
  log = set_log opt;
  clash_api = set_clash_api w opt;
  inbounds = set_inbound opt (if opt.enable_full_config then input.inbounds else []);
  dns = record (built_dns w.lookup_host w.library w.net opt c.keys) {
    static_ips = elim c.static [ none ↦ [] | some ips ↦ ips ];
  };
  route = route_settings w.library opt st.main_proxy_tag;
  outbounds = all_outbounds opt c.tags c.outbounds;
}

-- The options lose their Warp before the loop, where the profile has it.
unfoldable pub collected : World → ConfigOptions → Profile → Outcome Collected
unfolding collect_all without_double
collected w opt input =
    collect_all w.outside w.codec (without_double opt input.outbounds)
      (set_dns w.lookup_host opt).static_ips input.outbounds

-- The state that the build leaves, whether it fails or not.
unfoldable pub next_state : World → BuildState → ConfigOptions → Profile → BuildState
unfolding main_tag
next_state w st opt input = record {
  main_proxy_tag = main_tag (w.outside 0) (without_double opt input.outbounds);
  tunnel_running = st.tunnel_running || opt.inbound.enable_tun_service;
}

unfoldable pub build_config :
    World → BuildState → ConfigOptions → Profile → Outcome Options × BuildState
unfolding collected next_state
build_config w st opt input = (
  collected w opt input >>= λ (c : Collected). done (assembled w st opt input c),
  next_state w st opt input,
)
