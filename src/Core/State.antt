-- ===== src/Core/State.antt =====
-- The state of the core service: the package variables of v2/custom.go, v2/coreinfo.go,
-- v2/service.go and v2/old_command_server.go, and the calls that leave the program.
use hiddify_core.Prelude.{ℕ, String, Bool, Option, List, Result, Outcome}

-- CoreState and MessageType of hiddifyrpc/hiddify.proto
pub data CoreState : Type 0 where
  stopped starting started stopping : CoreState

pub data MessageType : Type 0 where
  empty empty_configuration start_command_server create_service start_service unexpected_error
        already_started already_stopped instance_not_found instance_not_stopped instance_not_started
        error_building_config error_parsing_config error_reading_config :
      MessageType

-- CoreInfoResponse
pub record CoreInfo : Type 0 where
  pub core_state : CoreState
  pub message_type : MessageType
  pub message : String

-- StatusMessage of v2/old_constant.go; an alert is the name of a message type
pub record StatusMessage : Type 0 where
  pub status : String
  pub alert : Option MessageType
  pub message : Option String

-- StartRequest
pub record StartRequest : Type 0 where
  pub config_path : String
  pub config_content : String
  pub disable_memory_limit : Bool
  pub delay_start : Bool
  pub enable_old_command_server : Bool
  pub enable_raw_config : Bool

-- What the service does to the world outside, in the order of the calls.
pub data Effect : Type 0 where
  emit : CoreInfo → Effect
  send_to_flutter : StatusMessage → Effect
  stop_tunnel wait : Effect
  memory_limit : Bool → Effect
  save_config : Effect
  start_server close_server : Effect
  set_service : Option ℕ → Effect
  new_box start_box close_box : ℕ → Effect

-- the newest effect first
abbrev pub Trace : Type 0
Trace = List Effect

-- The package variables. A box is known by a number; `command_server` says whether
-- `oldCommandServer` is set, `log_factory` whether `coreLogFactory` is.
pub record Service (ConfigOptions : Type 0) : Type 0 where
  pub core_state : CoreState
  pub box : Option ℕ
  pub config_options : Option ConfigOptions
  pub active_config_path : String
  pub use_flutter_bridge : Bool
  pub command_server : Bool
  pub log_factory : Bool
  pub tunnel_running : Bool
  pub trace : Trace

-- The calls of libbox, of the configuration packages and of the file system that one request makes.
-- Each may depend on all that happened before. `build_config` is config.BuildConfig, which may panic,
-- and which starts the tunnel service where the options ask for it; `parse_profile` is
-- config.ParseConfigContent and `build_json` config.BuildConfigJson. The readers of options return the
-- options as far as they were read, with the error.
pub record Calls (Config ConfigOptions : Type 0) : Type 0 where
  pub read_file : String → Result String
  pub parse_config : String → Result Config
  pub build_config : ConfigOptions → Config → Outcome Config
  pub asks_for_tunnel : ConfigOptions → Bool
  pub current_config_path : String
  pub run_server : Trace → Option String
  pub create_box : Trace → Config → Result ℕ
  pub run_box : Trace → ℕ → Option String
  pub shut_box : Trace → ℕ → Option String
  pub shut_server : Trace → Option String
  pub tunnel_stop_fails : Trace → Bool
  pub panic_message : String
  pub parse_profile : String → Outcome String
  pub write_file : String → String → Option String
  pub build_json : ConfigOptions → Config → Outcome String
  pub default_options : ConfigOptions
  pub unmarshal_options : String → ConfigOptions × Option String
  pub warp_str : ConfigOptions → String
  pub unmarshal_warp_1 : ConfigOptions → ConfigOptions × Option String
  pub warp_2_str : ConfigOptions → String
  pub unmarshal_warp_2 : ConfigOptions → ConfigOptions × Option String

-- The pair that a Go handler returns, nil pointers included, or a panic that nothing recovered.
pub data Exit : Type 0 where
  replied : Option CoreInfo → Option String → Exit
  panicked : Exit
