-- ===== src/Core/Invariant.antt =====
-- What holds of the service between two requests.
use hiddify_core.Prelude.{◌≡◌, ◌≢◌, none, some, [], ◌∷◌, String, ℕ, arith}
use hiddify_core.Core.State.{
  CoreState, stopped, started, MessageType, StartRequest, emit, Trace, Service, Calls, Exit,
  replied, panicked,
}
use hiddify_core.Core.Status.{set_core_status, stop_and_alert, fail}
use hiddify_core.Core.Starting.{
  read_content, run_instance, create_instance, with_command_server, save, build, parse, start_core,
}

-- The state that the listeners of the core's info were told last; before any, it is STOPPED.
abbrev pub last_state : Trace → CoreState
last_state [] = stopped
last_state (emit i ∷ t) = i.core_state
last_state (_ ∷ t) = last_state t

pub record Inv {ConfigOptions : Type 0} (s : Service ConfigOptions) : Type 0 where
  pub running : s.core_state ≡ started → s.box ≢ none
  pub idle : s.core_state ≡ stopped → s.box ≡ none
  pub told : last_state s.trace ≡ s.core_state

-- A service that is down, as all error exits leave it.
pub record IsDown {ConfigOptions : Type 0} (s : Service ConfigOptions) : Type 0 where
  pub state : s.core_state ≡ stopped
  pub box : s.box ≡ none
  pub told : last_state s.trace ≡ stopped

module _ {Config ConfigOptions : Type 0} (c : Calls Config ConfigOptions) where
  pub stop_and_alert-IsDown :
      (t : MessageType) (m : String) (s : Service ConfigOptions) → IsDown (stop_and_alert c t m s)
  unfolding stop_and_alert
  stop_and_alert-IsDown t m s = ground arith

-- A service that is up.
pub record IsUp {ConfigOptions : Type 0} (s : Service ConfigOptions) : Type 0 where
  pub state : s.core_state ≡ started
  pub box : s.box ≢ none
  pub told : last_state s.trace ≡ started

-- Nothing that the invariant reads has changed.
pub record Alike {ConfigOptions : Type 0} (s t : Service ConfigOptions) : Type 0 where
  pub state : t.core_state ≡ s.core_state
  pub box : t.box ≡ s.box
  pub told : last_state t.trace ≡ last_state s.trace

-- What StartService may answer from `s`, beside the service that it leaves.
abbrev pub Answers :
    {ConfigOptions : Type 0} → Service ConfigOptions → Exit → Service ConfigOptions → Type 0
Answers s (replied (some i) none) t = (i.core_state ≡ started) × IsUp t
Answers s (replied (some i) (some e)) t = (i.core_state ≡ stopped) × (i.message ≡ e) × IsDown t
Answers s (replied none e) t = ⊥
Answers s panicked t = Alike s t

module _ {Config ConfigOptions : Type 0} (c : Calls Config ConfigOptions) (req : StartRequest) where
  fail-Answers :
      (s₀ : Service ConfigOptions) (t : MessageType) (e : String) (s : Service ConfigOptions)
      → Answers s₀ (fail c t e s).0 (fail c t e s).1
  unfolding fail
  fail-Answers s₀ t e s = ground (arith, stop_and_alert-IsDown c)

  run_instance-Answers :
      (s₀ : Service ConfigOptions) (b : ℕ) (s : Service ConfigOptions)
      → Answers s₀ (run_instance c req b s).0 (run_instance c req b s).1
  unfolding run_instance fail set_core_status
  run_instance-Answers s₀ b s = ground arith

  create_instance-Answers :
      (s₀ : Service ConfigOptions) (config : Config) (s : Service ConfigOptions)
      → Answers s₀ (create_instance c req config s).0 (create_instance c req config s).1
  unfolding create_instance
  create_instance-Answers s₀ config s = grind (arith, fail-Answers, run_instance-Answers)

  with_command_server-Answers :
      (s₀ : Service ConfigOptions) (config : Config) (s : Service ConfigOptions)
      → Alike s₀ s
      → Answers s₀ (with_command_server c req config s).0 (with_command_server c req config s).1
  unfolding with_command_server
  with_command_server-Answers s₀ config s h = grind (arith, fail-Answers, create_instance-Answers)

  save-Answers :
      (s₀ : Service ConfigOptions) (config : Config) (s : Service ConfigOptions)
      → Alike s₀ s
      → Answers s₀ (save c req config s).0 (save c req config s).1
  unfolding save
  save-Answers s₀ config s h = grind (arith, with_command_server-Answers)

  build-Answers :
      (s₀ : Service ConfigOptions) (config : Config) (s : Service ConfigOptions)
      → Alike s₀ s
      → Answers s₀ (build c req config s).0 (build c req config s).1
  unfolding build
  build-Answers s₀ config s h = grind (arith, fail-Answers, save-Answers)

  parse-Answers :
      (s₀ : Service ConfigOptions) (content : String) (s : Service ConfigOptions)
      → Alike s₀ s
      → Answers s₀ (parse c req content s).0 (parse c req content s).1
  unfolding parse
  parse-Answers s₀ content s h = grind (arith, fail-Answers, build-Answers)

  -- StartService, from any state and whatever the calls answer, replies with no error exactly where
  -- the service is up (the state is STARTED, there is a box, and the listeners were told so last), and
  -- with an error only where the service is down and the reply carries that error; the one other exit
  -- is a panic, which leaves the state, the box and what the listeners know as they were.
  pub start_core-Answers :
      (s : Service ConfigOptions) → Answers s (start_core c req s).0 (start_core c req s).1
  unfolding start_core read_content
  start_core-Answers s = grind (arith, fail-Answers, parse-Answers)
