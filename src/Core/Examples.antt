-- ===== src/Core/Examples.antt =====
-- Runs of the core service on concrete calls.
use hiddify_core.Prelude.{
  ℕ, pos, ◌≡◌, refl, true, false, none, some, List, [], ◌∷◌, ◌==◌, if◌then◌else◌, String, done,
  crashed, ok, err,
}
use hiddify_core.Core.State.{started, stopping, StartRequest, Service, Calls}
use hiddify_core.Core.Status.{
  set_core_status, deactivate_tunnel_service, detach, convert_2_old_state,
}
use hiddify_core.Core.Starting.{
  read_content, run_instance, create_instance, with_command_server, save, build, parse, start_core,
}
use hiddify_core.Core.Profiles.{ParseRequest, parse_profile, read_options, change_config_options}
use hiddify_core.Core.Profiles.Replies.{ParseAnswers, parse_profile-Answers}
use hiddify_core.Core.Responding.{RespondsOrPanics, start-responds}
use hiddify_core.Core.Handlers.{
  recover, not_started, prepare, stop, start, restart, Request, start_it, stop_it, restart_it,
  handle, serve, initial,
}
use hiddify_core.Core.Invariant.{Inv, Answers, start_core-Answers}
use hiddify_core.Core.Requests.{StopAnswers, StartAnswers, stop-Answers, start-Answers, serve-Inv}
use hiddify_core.Core.Sticking.{stop_failed-sticks}
use hiddify_core.Core.Tunnel.{TunnelStartRequest, tunnel_start}
use hiddify_core.Core.Tunnel.Replies.{TunnelAnswers, tunnel_start-Answers}

-- Configurations are their own text, and options are a number that nothing reads.
abbrev calls : Calls String ℕ
calls = record {
  read_file = λ path. if path == "profile.json" then ok "{}" else err "no such file";
  parse_config = λ content. if content == "{" then err "decode config" else ok content;
  build_config = λ options config. done config;
  asks_for_tunnel = λ options. false;
  current_config_path = "current-config.json";
  run_server = λ t. none;
  create_box = λ t config. ok 7;
  run_box = λ t b. none;
  shut_box = λ t b. none;
  shut_server = λ t. none;
  tunnel_stop_fails = λ t. false;
  panic_message = "panic";
  parse_profile = λ content. if content == "" then crashed else done content;
  write_file = λ path content. none;
  build_json = λ options config. done config;
  default_options = 1;
  unmarshal_options = λ json. (2, if json == "{" then some "unexpected end" else none);
  warp_str = λ options. "";
  unmarshal_warp_1 = λ options. (options, none);
  warp_2_str = λ options. "";
  unmarshal_warp_2 = λ options. (options, none);
}

-- The box does not close.
abbrev jammed : Calls String ℕ
jammed = record calls { shut_box = λ t b. some "busy" }

abbrev request : StartRequest
request = record {
  config_path = "profile.json";
  config_content = "";
  disable_memory_limit = false;
  delay_start = false;
  enable_old_command_server = true;
  enable_raw_config = false;
}

abbrev plain_request : StartRequest
plain_request = record request { enable_old_command_server = false }

abbrev fresh : Service ℕ
fresh = initial (some 0) true true

abbrev script : List (Calls String ℕ × Request)
script =
    (calls, start_it request)
    ∷ (jammed, stop_it)
    ∷ (calls, restart_it request)
    ∷ (calls, start_it request)
    ∷ []

abbrev up : Service ℕ
up = serve ((calls, start_it request) ∷ []) fresh

abbrev stuck : Service ℕ
stuck = (stop jammed up).1

script_starts : (serve script fresh).core_state ≡ started
unfolding serve handle start prepare recover stop restart not_started set_core_status
    deactivate_tunnel_service detach convert_2_old_state start_core read_content parse build save
    with_command_server create_instance run_instance
script_starts = refl

serve-Inv_example : Inv (serve script fresh)
serve-Inv_example = serve-Inv (some 0) true true script

start_core-Answers_example :
    Answers fresh (start_core calls request fresh).0 (start_core calls request fresh).1
start_core-Answers_example = start_core-Answers calls request fresh

start-Answers_example :
    StartAnswers calls (start calls request fresh).0 (start calls request fresh).1
start-Answers_example = start-Answers calls request fresh

up-Inv : Inv up
up-Inv = serve-Inv (some 0) true true ((calls, start_it request) ∷ [])

stop-Answers_example : StopAnswers up (stop jammed up).0 (stop jammed up).1
stop-Answers_example = stop-Answers jammed up up-Inv

stuck_stopping : stuck.core_state ≡ stopping
unfolding serve handle start prepare recover stop set_core_status deactivate_tunnel_service detach
    convert_2_old_state start_core read_content parse build save with_command_server create_instance
    run_instance
stuck_stopping = refl

stop_failed-sticks_example :
    serve ((calls, restart_it request) ∷ (calls, stop_it) ∷ []) stuck ≡ stuck
stop_failed-sticks_example =
    stop_failed-sticks jammed up ((calls, restart_it request) ∷ (calls, stop_it) ∷ [])
      stuck_stopping refl

abbrev tunnel : TunnelStartRequest
tunnel = record {
  ipv6 = true;
  server_port = pos 0;
  strict_route = true;
  endpoint_independent_nat = true;
  stack = "gvisor";
}

tunnel_start-Answers_example :
    TunnelAnswers (λ n. "12334") calls (tunnel_start (λ n. "12334") calls tunnel fresh)
tunnel_start-Answers_example = tunnel_start-Answers (λ n. "12334") calls tunnel fresh

abbrev broken : ParseRequest
broken = record { content = ""; config_path = "out.json"; temp_path = "profile.json" }

parse_profile-Answers_example : ParseAnswers calls broken up (parse_profile calls broken up)
parse_profile-Answers_example = parse_profile-Answers calls broken up

start-responds_example :
    RespondsOrPanics calls plain_request
      (read_options calls "{").0
      (start calls plain_request (change_config_options calls "{" (initial none true false)).1).0
start-responds_example =
    start-responds calls plain_request calls "{" (initial none true false) (λ e. cc e)
