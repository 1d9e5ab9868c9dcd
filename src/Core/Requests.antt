-- ===== src/Core/Requests.antt =====
-- Every request keeps the invariant, and what the answers of Stop, Start and Restart say.
use hiddify_core.Prelude.{
  Bool, ◌≡◌, ◌≢◌, ◌⊎◌, inl, inr, Option, none, some, List, [], ◌∷◌, arith, false,
}
use hiddify_core.Core.State.{
  stopped, started, stopping, StartRequest, Service, Calls, Exit, replied, panicked,
}
use hiddify_core.Core.Status.{set_core_status, deactivate_tunnel_service, detach, drop_box}
use hiddify_core.Core.Profiles.Replies.{
  parse_profile-Inv, change_config_options-Inv, generate_config-Inv,
}
use hiddify_core.Core.Handlers.{
  recover, report_stopped, not_started, not_found, close_command_server, stop, start,
  restart_stopped, restart, service_reload, reload_request, Request, start_it, start_service_only,
  restart_it, stop_it, reload_it, parse_it, change_it, generate_it, handle, serve, initial,
}
use hiddify_core.Core.Invariant.{
  last_state, Inv, IsUp, IsDown, Answers, stop_and_alert-IsDown, start_core-Answers,
}

-- What Stop may answer from `s`, beside the service that it leaves.
abbrev pub StopAnswers :
    {ConfigOptions : Type 0} → Service ConfigOptions → Exit → Service ConfigOptions → Type 0
StopAnswers s (replied (some i) none) t =
    (s.core_state ≡ started) × (i.core_state ≡ stopped) × IsDown t × (t.command_server ≡ false)
StopAnswers s (replied (some i) (some e)) t =
    ((s.core_state ≢ started) × (i.core_state ≡ s.core_state) × (t ≡ s))
    ⊎ ((s.core_state ≡ started)
        × (i.core_state ≡ stopping)
        × (t.core_state ≡ stopping)
        × (last_state t.trace ≡ stopping))
StopAnswers s (replied none e) t = ⊥
StopAnswers s panicked t = ⊥

module _ {Config ConfigOptions : Type 0} (c : Calls Config ConfigOptions) where
  -- Stop answers with no error only where the service was started and is now down with no command
  -- server. With an error, either the service was not started and is unchanged, or it was and is left
  -- in STOPPING, and the reply and the listeners say so. Stop never panics.
  pub stop-Answers : (s : Service ConfigOptions) → Inv s → StopAnswers s (stop c s).0 (stop c s).1
  unfolding stop not_started not_found set_core_status deactivate_tunnel_service detach
      close_command_server report_stopped
  stop-Answers s h = ground arith

  -- What Start may answer, beside the service that it leaves; two nil pointers are a panic.
  abbrev pub StartAnswers : Exit → Service ConfigOptions → Type 0
  StartAnswers (replied (some i) none) t = (i.core_state ≡ started) × IsUp t
  StartAnswers (replied (some i) (some e)) t = (i.core_state ≡ stopped) × (i.message ≡ e) × IsDown t
  StartAnswers (replied none none) t = IsDown t
  StartAnswers (replied none (some e)) t = ⊥
  StartAnswers panicked t = ⊥

  recover-Answers :
      (s : Service ConfigOptions) (x : Exit × Service ConfigOptions)
      → Answers s x.0 x.1
      → StartAnswers (recover c x).0 (recover c x).1
  unfolding recover
  recover-Answers s (replied (some i) none, t) h = h
  recover-Answers s (replied (some i) (some e), t) h = h
  recover-Answers s (replied none e, t) h = absurd h
  recover-Answers s (panicked, t) h = stop_and_alert-IsDown c _ _ t

  -- Start, from any state and whatever the calls answer: with a response and no error the service is
  -- up; with an error, or with neither, it is down. The last case, two nil pointers, is a panic that
  -- the handler recovered from: its caller sees no error though nothing was started.
  pub start-Answers :
      (req : StartRequest) (s : Service ConfigOptions)
      → StartAnswers (start c req s).0 (start c req s).1
  unfolding start
  start-Answers req s = recover-Answers _ _ (start_core-Answers c req _)

  IsUp-Inv : {s : Service ConfigOptions} → IsUp s → Inv s
  IsUp-Inv h = ground (arith, h.box)

  IsDown-Inv : {s : Service ConfigOptions} → IsDown s → Inv s
  IsDown-Inv h = ground arith

  start-Inv : (x : Exit × Service ConfigOptions) → StartAnswers x.0 x.1 → Inv x.1
  start-Inv (replied (some i) none, t) h = IsUp-Inv h.1
  start-Inv (replied (some i) (some e), t) h = IsDown-Inv h.2
  start-Inv (replied none none, t) h = IsDown-Inv h
  start-Inv (replied none (some e), t) h = absurd h
  start-Inv (panicked, t) h = absurd h

  start_core-Inv :
      (s : Service ConfigOptions) (x : Exit × Service ConfigOptions)
      → Inv s
      → Answers s x.0 x.1
      → Inv x.1
  start_core-Inv s (replied (some i) none, t) k h = IsUp-Inv h.1
  start_core-Inv s (replied (some i) (some e), t) k h = IsDown-Inv h.2
  start_core-Inv s (replied none e, t) k h = absurd h
  start_core-Inv s (panicked, t) k h = ground (arith, k.running)

  stop-Inv :
      (s : Service ConfigOptions) (x : Exit × Service ConfigOptions)
      → Inv s
      → StopAnswers s x.0 x.1
      → Inv x.1
  stop-Inv s (replied (some i) none, t) k h = IsDown-Inv h.2
  stop-Inv s (replied (some i) (some e), t) k (inl h) = rw h.2 k
  stop-Inv s (replied (some i) (some e), t) k (inr h) = ground arith
  stop-Inv s (replied none e, t) k h = absurd h
  stop-Inv s (panicked, t) k h = absurd h

  -- What Restart may answer from `s`, beside the service that it leaves.
  abbrev pub RestartAnswers : Service ConfigOptions → Exit → Service ConfigOptions → Type 0
  RestartAnswers s x t =
      ((s.core_state ≢ started) × (x ≡ not_started s) × (t ≡ s))
      ⊎ (s.core_state ≡ started) × ((t.core_state ≡ stopping) × (last_state t.trace ≡ stopping))
      ⊎ (s.core_state ≡ started) × StartAnswers x t

  restarted :
      (req : StartRequest) (s : Service ConfigOptions) (x : Exit × Service ConfigOptions)
      → s.core_state ≡ started
      → StopAnswers s x.0 x.1
      → RestartAnswers s
          (recover c (restart_stopped c req x)).0
          (recover c (restart_stopped c req x)).1
  unfolding restart_stopped
  restarted req s (replied (some i) none, t) up h =
      inr (inr (up, recover-Answers _ _ (start_core-Answers c req _)))
  restarted req s (replied (some i) (some e), t) up (inl h) = absurd (h.0 up)
  restarted req s (replied (some i) (some e), t) up (inr h) =
      unfold recover in inr (inl (up, (h.2, h.3)))
  restarted req s (replied none e, t) up h = absurd h
  restarted req s (panicked, t) up h = absurd h

  pub restart-Answers :
      (req : StartRequest) (s : Service ConfigOptions)
      → Inv s
      → RestartAnswers s (restart c req s).0 (restart c req s).1
  unfolding restart
  restart-Answers req s h =
      ground
        (arith, λ (up : s.core_state ≡ started). restarted req s (stop c s) up (stop-Answers s h))

  restart-Inv :
      (s : Service ConfigOptions) (x : Exit × Service ConfigOptions)
      → Inv s
      → RestartAnswers s x.0 x.1
      → Inv x.1
  restart-Inv s x k (inl h) = rw h.2 k
  restart-Inv s x k (inr (inl h)) = ground arith
  restart-Inv s x k (inr (inr h)) = start-Inv x h.1

  reload-Inv : (s : Service ConfigOptions) → Inv (service_reload c s).1
  unfolding service_reload set_core_status drop_box
  reload-Inv s = start_core-Inv _ _ (ground arith) (start_core-Answers c reload_request _)

  handle-Inv : (r : Request) (s : Service ConfigOptions) → Inv s → Inv (handle c r s)
  unfolding handle
  handle-Inv (start_it req) s k = start-Inv _ (start-Answers req s)
  handle-Inv (start_service_only req) s k = start_core-Inv s _ k (start_core-Answers c req s)
  handle-Inv (restart_it req) s k = restart-Inv s _ k (restart-Answers req s k)
  handle-Inv stop_it s k = stop-Inv s _ k (stop-Answers s k)
  handle-Inv reload_it s k = reload-Inv s
  handle-Inv (parse_it req) s k = parse_profile-Inv c req s k
  handle-Inv (change_it json) s k = change_config_options-Inv c json s k
  handle-Inv (generate_it path) s k = generate_config-Inv c path s k

serve-Inv_from :
    {Config ConfigOptions : Type 0} (rs : List (Calls Config ConfigOptions × Request))
    (s : Service ConfigOptions)
    → Inv s
    → Inv (serve rs s)
unfolding serve
serve-Inv_from [] s k = k
serve-Inv_from ((c, r) ∷ rs) s k = serve-Inv_from rs (handle c r s) (handle-Inv c r s k)

-- After any sequence of requests, whatever the calls of each answer, a started service has a box, a
-- stopped one has none, and the listeners were last told the state that the service is in.
pub serve-Inv :
    {Config ConfigOptions : Type 0} (options : Option ConfigOptions) (bridge factory : Bool)
    (rs : List (Calls Config ConfigOptions × Request))
    → Inv (serve rs (initial options bridge factory))
serve-Inv options bridge factory rs = serve-Inv_from rs _ (ground arith)
