-- ===== src/Core/Sticking.antt =====
-- What becomes of a box that would not close.
use hiddify_core.Prelude.{
  Bool, true, false, ◌≡◌, refl, suc, none, some, List, [], ◌∷◌, String, ℕ, all, arith,
}
use hiddify_core.Core.State.{
  stopping, StartRequest, Trace, close_box, Service, Calls, Exit, replied, panicked,
}
use hiddify_core.Core.Status.{set_core_status, fail}
use hiddify_core.Core.Starting.{
  read_content, run_instance, create_instance, with_command_server, save, build, parse, start_core,
}
use hiddify_core.Core.Handlers.{
  recover, stop, prepare, start, restart, Request, restart_it, stop_it, handle, serve,
}

abbrev pub stops_or_restarts : Request → Bool
stops_or_restarts (restart_it _) = true
stops_or_restarts stop_it = true
stops_or_restarts _ = false

module _ {Config ConfigOptions : Type 0} where
  handle_stopping :
      (c : Calls Config ConfigOptions) (r : Request) (s : Service ConfigOptions)
      → s.core_state ≡ stopping
      → stops_or_restarts r ≡ true
      → handle c r s ≡ s
  unfolding handle stop restart
  handle_stopping c (restart_it req) s e h = ground arith
  handle_stopping c stop_it s e h = ground arith
  handle_stopping c _ s e h = cc

  sticks :
      (rs : List (Calls Config ConfigOptions × Request)) (t : Service ConfigOptions)
      → t.core_state ≡ stopping
      → all (λ (r : Calls Config ConfigOptions × Request). stops_or_restarts r.1) rs ≡ true
      → serve rs t ≡ t
  unfolding serve
  sticks [] t e h = refl
  sticks ((c, r) ∷ rs) t e h =
      rw (handle_stopping c r t e (ground arith)) (sticks rs t e (ground arith))

  -- A Stop that leaves the service in STOPPING, because the box or the command server would not
  -- close, is final for Stop and Restart: no sequence of these requests changes the service again,
  -- whatever their calls answer.
  pub stop_failed-sticks :
      (c : Calls Config ConfigOptions) (s : Service ConfigOptions)
      (rs : List (Calls Config ConfigOptions × Request))
      → (stop c s).1.core_state ≡ stopping
      → all (λ (r : Calls Config ConfigOptions × Request). stops_or_restarts r.1) rs ≡ true
      → serve rs (stop c s).1 ≡ (stop c s).1
  stop_failed-sticks c s rs e h = sticks rs _ e h

abbrev closes : Trace → ℕ
closes [] = 0
closes (close_box b ∷ t) = suc (closes t)
closes (_ ∷ t) = closes t

-- A start that succeeds has closed no more boxes than `n`.
abbrev ClosesNone : {ConfigOptions : Type 0} → ℕ → Exit → Service ConfigOptions → Type 0
ClosesNone n (replied (some i) none) t = closes t.trace ≡ n
ClosesNone n _ t = Unit

module _ {Config ConfigOptions : Type 0} (c : Calls Config ConfigOptions) (req : StartRequest) where
  run_instance-closes :
      (b : ℕ) (s : Service ConfigOptions)
      → ClosesNone (closes s.trace) (run_instance c req b s).0 (run_instance c req b s).1
  unfolding run_instance fail set_core_status
  run_instance-closes b s = ground arith

  create_instance-closes :
      (config : Config) (s : Service ConfigOptions)
      → ClosesNone
          (closes s.trace)
          (create_instance c req config s).0
          (create_instance c req config s).1
  unfolding create_instance fail
  create_instance-closes config s = grind (arith, run_instance-closes)

  with_command_server-closes :
      (config : Config) (s : Service ConfigOptions)
      → ClosesNone
          (closes s.trace)
          (with_command_server c req config s).0
          (with_command_server c req config s).1
  unfolding with_command_server fail
  with_command_server-closes config s = grind (arith, create_instance-closes)

  save-closes :
      (config : Config) (s : Service ConfigOptions)
      → ClosesNone (closes s.trace) (save c req config s).0 (save c req config s).1
  unfolding save
  save-closes config s = grind (arith, with_command_server-closes)

  build-closes :
      (config : Config) (s : Service ConfigOptions)
      → ClosesNone (closes s.trace) (build c req config s).0 (build c req config s).1
  unfolding build fail
  build-closes config s = grind (arith, save-closes)

  parse-closes :
      (content : String) (s : Service ConfigOptions)
      → ClosesNone (closes s.trace) (parse c req content s).0 (parse c req content s).1
  unfolding parse fail
  parse-closes content s = grind (arith, build-closes)

  start_core-closes :
      (s : Service ConfigOptions)
      → ClosesNone (closes s.trace) (start_core c req s).0 (start_core c req s).1
  unfolding start_core read_content fail
  start_core-closes s = grind (arith, parse-closes)

  recover-closes :
      (n : ℕ) (x : Exit × Service ConfigOptions)
      → ClosesNone n x.0 x.1
      → ClosesNone n (recover c x).0 (recover c x).1
  unfolding recover
  recover-closes n (replied (some i) none, t) h = h
  recover-closes n (replied (some i) (some e), t) h = h
  recover-closes n (replied none e, t) h = h
  recover-closes n (panicked, t) h = tt

  prepare-closes :
      (s : Service ConfigOptions)
      → s.core_state ≡ stopping
      → closes (prepare c req s).trace ≡ closes s.trace
  unfolding prepare set_core_status stop
  prepare-closes s e = ground arith

  -- A Start that succeeds on a service left in STOPPING has closed nothing: the box that would not
  -- close is replaced by the new one, and no close of it was tried again.
  start-abandons :
      (s : Service ConfigOptions)
      → s.core_state ≡ stopping
      → ClosesNone (closes s.trace) (start c req s).0 (start c req s).1
  unfolding start
  start-abandons s e =
      rw (← prepare-closes s e) (recover-closes _ _ (start_core-closes (prepare c req s)))
