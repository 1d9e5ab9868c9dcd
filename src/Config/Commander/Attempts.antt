-- ===== src/Config/Commander/Attempts.antt =====
-- What is tried before the tunnel service is given up.
use hiddify_core.Prelude.{
  ℕ, suc, ◌+◌, ◌≤◌, String, ◌≡◌, refl, ◌∙◌, Bool, true, false, none, some, List, [], ◌∷◌, arith,
  ◌==◌, if-elim, length,
}
use hiddify_core.Config.Options.{ConfigOptions}
use hiddify_core.Config.Commander.{
  exit_call, start_call, command, Log, Host, Tried, run_first, execute_cmd, commands,
  tunnel_request, ask, start_only, then_wait, or_run, run_tunnel_service, or_install,
  start_tunnel_request,
}

-- how often Start was called, and how many commands were run
abbrev pub starts : Log → ℕ
starts [] = 0
starts (start_call r ∷ t) = suc (starts t)
starts (_ ∷ t) = starts t

abbrev pub commands_run : Log → ℕ
commands_run [] = 0
commands_run (command b c ∷ t) = suc (commands_run t)
commands_run (_ ∷ t) = commands_run t

module _ (host : Host) (opt : ConfigOptions) where
  -- The newest action is a Start that was answered without an error, with the request of the options.
  abbrev pub JustStarted : Log → Type 0
  JustStarted [] = ⊥
  JustStarted (start_call r ∷ t) = (r ≡ tunnel_request host opt) × (host.start_error t r ≡ none)
  JustStarted (_ ∷ t) = ⊥

  -- What an attempt from `t` may end in, after at most `n` calls of Start and `m` commands.
  pub record Attempted (n m : ℕ) (t : Log) (x : Tried) : Type 0 where
    pub started : x.0 ≡ none → JustStarted x.1
    pub few_starts : starts x.1 ≤ n + starts t
    pub few_commands : commands_run x.1 ≤ m + commands_run t

  -- A log that has as many starts as `t`, and `m` commands more at most.
  abbrev Ran : ℕ → Log → Log → Type 0
  Ran m t u = (starts u ≡ starts t) × (commands_run u ≤ m + commands_run t)

  run_first-Ran :
      (b : Bool) (cmds : List (List String)) (t : Log)
      → Ran (length cmds) t (run_first host b cmds t).1
  unfolding run_first
  run_first-Ran b [] t = (refl, omega arith)
  run_first-Ran b (cmd ∷ cmds) t = ground (arith, run_first-Ran b cmds (command b cmd ∷ t))

  execute_cmd-Ran : (b : Bool) (args : String) (t : Log) → Ran 5 t (execute_cmd host b args t).1
  unfolding execute_cmd commands
  execute_cmd-Ran b args t =
      if-elim (λ (x : Tried). Ran 5 t x.1) (host.appimage == "")
        (λ _. run_first-Ran b (commands host host.executable_path args) t)
        (λ _.
          if-elim (λ (x : Tried). Ran 5 t x.1) b
            (λ _. run_first-Ran b (commands host host.appimage args) t) (λ _. (refl, omega arith)))

  or_run-Ran : (x : Tried) (t : Log) → Ran 5 t x.1 → Ran 10 t (then_wait host (or_run host x))
  or_run-Ran (none, u) t h = (h.0, omega arith)
  or_run-Ran (some e, u) t h =
      let k = execute_cmd-Ran true "tunnel run" u in
      waited (execute_cmd host true "tunnel run" u) k h
    where
      waited : (y : Tried) → Ran 5 u y.1 → Ran 5 t u → Ran 10 t (then_wait host y)
      waited (none, v) k h = (k.0 ∙ h.0, omega arith)
      waited (some e, v) k h = (k.0 ∙ h.0, omega arith)

  ask-Attempted : (t : Log) → Attempted 1 0 t (ask host opt t)
  unfolding ask
  ask-Attempted t = record {
    started = λ e. (refl, e);
    few_starts = omega arith;
    few_commands = omega arith;
  }

  start_only-Attempted : (t : Log) → Attempted 1 0 t (start_only host opt t)
  unfolding start_only
  start_only-Attempted t =
      if-elim (Attempted 1 0 t) (host.port_in_use t) (λ _. ask-Attempted t)
        (λ _. record { started = λ e. cc e; few_starts = omega arith; few_commands = omega arith })

  run_tunnel_service-Attempted : (t : Log) → Attempted 1 10 t (run_tunnel_service host opt t)
  unfolding run_tunnel_service
  run_tunnel_service-Attempted t =
      let u = then_wait host (or_run host (execute_cmd host false "tunnel install" t)) in
      let ran : Ran 10 t u =
        or_run-Ran (execute_cmd host false "tunnel install" t) t
          (execute_cmd-Ran false "tunnel install" t) in
      let a = start_only-Attempted u in
      record {
        started = a.started;
        few_starts = omega (arith, a.few_starts, ran.0);
        few_commands = omega (arith, a.few_commands, ran.1);
      }

  or_install-Attempted :
      (x : Tried) (t : Log) → Attempted 1 0 t x → Attempted 2 10 t (or_install host opt x)
  or_install-Attempted (none, u) t h = record {
    started = h.started;
    few_starts = omega (arith, h.few_starts);
    few_commands = omega (arith, h.few_commands);
  }
  or_install-Attempted (some e, u) t h =
      let a = run_tunnel_service-Attempted (exit_call ∷ u) in
      record {
        started = a.started;
        few_starts = omega (arith, a.few_starts, h.few_starts);
        few_commands = omega (arith, a.few_commands, h.few_commands);
      }

  -- A request to start the tunnel ends with no error only where the last thing done was a Start with
  -- the request of the options that the service accepted. It calls Start twice at most, and runs ten
  -- commands at most: an installation that does not help is not tried again.
  pub start_tunnel_request-Attempted :
      (t : Log) → Attempted 2 10 t (start_tunnel_request host opt t)
  unfolding start_tunnel_request
  start_tunnel_request-Attempted t =
      if-elim (Attempted 2 10 t) (host.port_in_use t)
        (λ _. or_install-Attempted (ask host opt t) t (ask-Attempted t))
        (λ _.
          let a = run_tunnel_service-Attempted t in
          record {
            started = a.started;
            few_starts = omega (arith, a.few_starts);
            few_commands = a.few_commands;
          })
