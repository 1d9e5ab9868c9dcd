-- ===== src/Standalone/Following.antt =====
-- RunStandalone and updateConfigInterval of v2/standalone.go: what the goroutine asks of the core. That
-- RunStandalone turns the Flutter bridge off, and its Stop at the end, are left out.
pub mod Current
pub mod Patient
use hiddify_core.Prelude.{
  ℕ, ◌+◌, ◌-◌, ◌*◌, ◌%◌, ℤ, pos, negsuc, suc, String, Bool, true, false, some, List, [], ◌∷◌, ◌++◌,
  ltb, ◌==◌, if◌then◌else◌, Outcome, done, failed, crashed,
}
use hiddify_core.Config.Options.{ConfigOptions}
use hiddify_core.Core.State.{StartRequest}
use hiddify_core.Standalone.{ConfigResult}
use hiddify_core.Standalone.Building.{Visit, Process, read_and_build_config}

-- What the program does, in the order of its statements: the wait in nanoseconds, the calls that it
-- starts as goroutines, its end by a panic, or its return with an error.
pub data Event : Type 0 where
  waited : ℤ → Event
  asked_stop : Event
  asked_start : StartRequest → Event
  died : Event
  returned : String → Event

-- An int64 of a product, which wraps around.
abbrev pub int_64 : ℕ → ℤ
int_64 r = if ltb r 9223372036854775808 then pos r else negsuc (18446744073709551615 - r)

abbrev pub hour : ℕ
hour = 3600000000000

-- time.Duration(n) * time.Hour
unfoldable pub hours : ℤ → ℤ
hours (pos n) = int_64 (n * hour % 18446744073709551616)
hours (negsuc n) =
    int_64 ((18446744073709551616 - suc n * hour % 18446744073709551616) % 18446744073709551616)

abbrev pub standalone_request : String → StartRequest
standalone_request config = record {
  config_path = "";
  config_content = config;
  disable_memory_limit = false;
  delay_start = false;
  enable_old_command_server = false;
  enable_raw_config = true;
}

abbrev pub is_positive : ℤ → Bool
is_positive (pos n) = ltb 0 n
is_positive (negsuc n) = false

-- The core is restarted where the configuration is another one.
abbrev pub restarted : ConfigResult → ConfigResult → List Event
restarted current new =
    if new.config == current.config
    then []
    else asked_stop ∷ asked_start (standalone_request new.config) ∷ []

-- How a round goes on: a failed one changes nothing.
abbrev pub follow_after :
    ConfigResult → (ConfigResult → List Event) → Outcome ConfigResult → List Event
follow_after current later (done new) = restarted current new ++ later new
follow_after current later (failed e) = later current
follow_after current later crashed = died ∷ []

abbrev pub run_after : (ConfigResult → List Event) → Outcome ConfigResult → List Event
run_after later (done current) = asked_start (standalone_request current.config) ∷ later current
run_after later (failed e) = returned e ∷ []
run_after later crashed = died ∷ []

module _ (setting path : String) where
  -- The goroutine's loop, which does not end: one round for each visit.
  unfoldable pub follow : List Visit → Process → ConfigResult → List Event
  follow [] p current = []
  follow (v ∷ vs) p current =
      let r = read_and_build_config v setting path current.hiddify_config_options p in
      waited (hours current.refresh_interval)
      ∷ follow_after current (λ (c : ConfigResult). follow vs (r.1) c) (r.0)

  -- updateConfigInterval
  unfoldable pub update_config_interval : List Visit → Process → ConfigResult → List Event
  unfolding follow
  update_config_interval vs p current =
      if is_positive current.refresh_interval then follow vs p current else []

  -- RunStandalone, up to the signal that ends it.
  unfoldable pub run_standalone : ConfigOptions → Visit → List Visit → Process → List Event
  unfolding update_config_interval
  run_standalone default v vs p =
      let r = read_and_build_config v setting path (some default) p in
      run_after (λ (c : ConfigResult). update_config_interval vs (r.1) c) (r.0)
