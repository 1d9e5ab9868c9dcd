-- ===== src/Core/Tunnel/Replies.antt =====
-- What the tunnel service answers.
use hiddify_core.Prelude.{ℤ, String, ◌≡◌, refl, true, false, Option, none, some, arith}
use hiddify_core.Core.State.{StartRequest, Service, Calls, Exit, replied, panicked}
use hiddify_core.Core.Status.{fail}
use hiddify_core.Core.Starting.{read_content, save, build, parse, start_core}
use hiddify_core.Core.Handlers.{start}
use hiddify_core.Core.Responding.{has_response, with_command_server-responds, recover-responds}
use hiddify_core.Core.Invariant.{IsUp, IsDown}
use hiddify_core.Core.Requests.{StartAnswers, start-Answers}
use hiddify_core.Core.Tunnel.{
  TunnelStartRequest, TunnelResponse, tunnel_start_request, respond, tunnel_start,
}

module _ {Config ConfigOptions : Type 0} (c : Calls Config ConfigOptions) (req : StartRequest)
    (raw : req.enable_raw_config ≡ true) (alone : req.enable_old_command_server ≡ false) where
  build-responds :
      (config : Config) (s : Service ConfigOptions) → has_response (build c req config s).0 ≡ true
  unfolding build save
  build-responds config s = grind (arith, with_command_server-responds c req alone)

  start_core-responds : (s : Service ConfigOptions) → has_response (start_core c req s).0 ≡ true
  unfolding start_core read_content parse fail
  start_core-responds s = grind (arith, build-responds)

module _ (format_int : ℤ → String) {Config ConfigOptions : Type 0}
    (c : Calls Config ConfigOptions) where
  -- What TunnelService.Start may answer, beside the service that it leaves.
  abbrev pub TunnelAnswers : Option TunnelResponse × Option String × Service ConfigOptions → Type 0
  TunnelAnswers (m, none, t) = (m ≡ some (record { message = "OK" })) × IsUp t
  TunnelAnswers (m, some e, t) = (m ≡ some (record { message = e })) × IsDown t

  respond-Answers :
      (x : Exit × Service ConfigOptions)
      → has_response x.0 ≡ true
      → StartAnswers c x.0 x.1
      → TunnelAnswers (respond format_int c x)
  unfolding respond
  respond-Answers (replied (some i) none, t) r h = (refl, h.1)
  respond-Answers (replied (some i) (some e), t) r h = (refl, h.2)
  respond-Answers (replied none none, t) r h = cc
  respond-Answers (replied none (some e), t) r h = cc
  respond-Answers (panicked, t) r h = cc

  -- The tunnel service answers "OK" with no error exactly where its core service is up, and with an
  -- error, whose text is the message, exactly where it is down: a request of its own never runs into
  -- the panic that a Start may hide, whatever the state before and the calls.
  pub tunnel_start-Answers :
      (r : TunnelStartRequest) (s : Service ConfigOptions)
      → TunnelAnswers (tunnel_start format_int c r s)
  unfolding tunnel_start tunnel_start_request
  tunnel_start-Answers r s =
      respond-Answers _ (unfold start in recover-responds c _ (start_core-responds c _ refl refl _))
        (start-Answers c _ _)
