-- ===== src/Streams.antt =====
-- The streams of the core: GetSystemInfo, OutboundsInfo and MainOutboundsInfo of v2/commands.go,
-- CoreInfoListener of v2/coreinfo.go and LogListener of v2/logproto.go. What the handler of a command
-- client does with a message, beside what it emits, is left out.
pub mod Ending
mod Examples
use hiddify_core.Prelude.{ℕ, suc, Bool, true, false, not, ◌&&◌, List, [], ◌∷◌, if◌then◌else◌}

pub data Kind : Type 0 where
  core_info log system_info outbounds_info main_outbounds_info : Kind

-- What the select of a loop meets: the context is done, the channel is closed on which the other side
-- ends the stream, an observer has emitted something, or the time is over.
pub data Signal {ℓ} (A : Type ℓ) : Type ℓ where
  context_done stop_received timeout : Signal A
  emitted : A → Signal A

-- What a call has sent so far, and whether it has returned.
pub record Session {ℓ} (A : Type ℓ) : Type ℓ where
  pub sent : List A
  pub returned : Bool

module _ {ℓ} {A : Type ℓ} where
  abbrev pub running : Session A
  running = record { sent = []; returned = false }

  abbrev pub ended : Session A
  ended = record { sent = []; returned = true }

  abbrev pub sending : A → Session A → Session A
  sending a s = record s { sent = a ∷ s.sent }

  unfoldable pub core_info_listener : List (Signal A) → Session A
  core_info_listener [] = running
  core_info_listener (context_done ∷ ss) = ended
  core_info_listener (stop_received ∷ ss) = ended
  core_info_listener (emitted a ∷ ss) = sending a (core_info_listener ss)
  core_info_listener (timeout ∷ ss) = core_info_listener ss

  -- The select has no case for the channel that the other side closes.
  unfoldable pub log_listener : List (Signal A) → Session A
  log_listener [] = running
  log_listener (context_done ∷ ss) = ended
  log_listener (stop_received ∷ ss) = log_listener ss
  log_listener (emitted a ∷ ss) = sending a (log_listener ss)
  log_listener (timeout ∷ ss) = log_listener ss

  -- The three loops that are written alike: a break leaves the select and not the loop around it.
  unfoldable pub endless : List (Signal A) → Session A
  endless [] = running
  endless (context_done ∷ ss) = endless ss
  endless (stop_received ∷ ss) = endless ss
  endless (emitted a ∷ ss) = sending a (endless ss)
  endless (timeout ∷ ss) = endless ss

  abbrev pub get_system_info : List (Signal A) → Session A
  get_system_info = endless

  abbrev pub get_outbounds_info : List (Signal A) → Session A
  get_outbounds_info = endless

  abbrev pub get_main_outbounds_info : List (Signal A) → Session A
  get_main_outbounds_info = endless

  unfoldable pub stream : Kind → List (Signal A) → Session A
  unfolding core_info_listener log_listener endless
  stream core_info ss = core_info_listener ss
  stream log ss = log_listener ss
  stream system_info ss = get_system_info ss
  stream outbounds_info ss = get_outbounds_info ss
  stream main_outbounds_info ss = get_main_outbounds_info ss
