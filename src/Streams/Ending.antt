-- ===== src/Streams/Ending.antt =====
-- What a stream sends, and when it returns.
use hiddify_core.Prelude.{◌≡◌, refl, ap, Bool, true, false, List, [], ◌∷◌, any, if◌then◌else◌}
use hiddify_core.Streams.{
  Kind, core_info, log, system_info, outbounds_info, main_outbounds_info, Signal, context_done,
  stop_received, timeout, emitted, core_info_listener, log_listener, endless, stream,
}

module _ {ℓ} {A : Type ℓ} where
  -- The signals that end a stream of the kind.
  abbrev pub ends : Kind → Signal A → Bool
  ends core_info context_done = true
  ends core_info stop_received = true
  ends core_info s = false
  ends log context_done = true
  ends log s = false
  ends system_info s = false
  ends outbounds_info s = false
  ends main_outbounds_info s = false

  abbrev pub before : (Signal A → Bool) → List (Signal A) → List (Signal A)
  before p [] = []
  before p (s ∷ ss) = if p s then [] else s ∷ before p ss

  abbrev pub infos : List (Signal A) → List A
  infos [] = []
  infos (emitted a ∷ ss) = a ∷ infos ss
  infos (s ∷ ss) = infos ss

  -- All that is emitted before the end is sent, in its order, and the call returns at the end.
  pub record Streamed (k : Kind) (ss : List (Signal A)) : Type ℓ where
    pub sent : (stream k ss).sent ≡ infos (before (ends k) ss)
    pub returned : (stream k ss).returned ≡ any (ends k) ss

  core_info-Streamed : (ss : List (Signal A)) → Streamed core_info ss
  unfolding stream core_info_listener
  core_info-Streamed [] = record { sent = refl; returned = refl }
  core_info-Streamed (context_done ∷ ss) = record { sent = refl; returned = refl }
  core_info-Streamed (stop_received ∷ ss) = record { sent = refl; returned = refl }
  core_info-Streamed (emitted a ∷ ss) =
      let s = core_info-Streamed ss in
      record { sent = ap (λ xs. a ∷ xs) s.sent; returned = s.returned }
  core_info-Streamed (timeout ∷ ss) =
      let s = core_info-Streamed ss in record { sent = s.sent; returned = s.returned }

  log-Streamed : (ss : List (Signal A)) → Streamed log ss
  unfolding stream log_listener
  log-Streamed [] = record { sent = refl; returned = refl }
  log-Streamed (context_done ∷ ss) = record { sent = refl; returned = refl }
  log-Streamed (stop_received ∷ ss) =
      let s = log-Streamed ss in record { sent = s.sent; returned = s.returned }
  log-Streamed (emitted a ∷ ss) =
      let s = log-Streamed ss in record { sent = ap (λ xs. a ∷ xs) s.sent; returned = s.returned }
  log-Streamed (timeout ∷ ss) =
      let s = log-Streamed ss in record { sent = s.sent; returned = s.returned }

  infos-endless : (ss : List (Signal A)) → (endless ss).sent ≡ infos (before (λ s. false) ss)
  unfolding endless
  infos-endless [] = refl
  infos-endless (context_done ∷ ss) = infos-endless ss
  infos-endless (stop_received ∷ ss) = infos-endless ss
  infos-endless (emitted a ∷ ss) = ap (λ xs. a ∷ xs) (infos-endless ss)
  infos-endless (timeout ∷ ss) = infos-endless ss

  returned-endless : (ss : List (Signal A)) → (endless ss).returned ≡ any (λ s. false) ss
  unfolding endless
  returned-endless [] = refl
  returned-endless (context_done ∷ ss) = returned-endless ss
  returned-endless (stop_received ∷ ss) = returned-endless ss
  returned-endless (emitted a ∷ ss) = returned-endless ss
  returned-endless (timeout ∷ ss) = returned-endless ss

  -- Every stream sends what is emitted before its end, in that order, and has returned exactly when
  -- the end has come: CoreInfoListener ends with its context or when the other side closes, and
  -- LogListener with its context alone. The streams of the system and of the outbounds have no end.
  pub stream-Streamed : (k : Kind) (ss : List (Signal A)) → Streamed k ss
  unfolding stream
  stream-Streamed core_info ss = core_info-Streamed ss
  stream-Streamed log ss = log-Streamed ss
  stream-Streamed system_info ss = record {
    sent = infos-endless ss;
    returned = returned-endless ss;
  }
  stream-Streamed outbounds_info ss = record {
    sent = infos-endless ss;
    returned = returned-endless ss;
  }
  stream-Streamed main_outbounds_info ss = record {
    sent = infos-endless ss;
    returned = returned-endless ss;
  }
