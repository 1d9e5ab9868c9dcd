-- ===== src/Core/Profiles/Replies.antt =====
-- What the handlers of profiles and options answer.
use hiddify_core.Prelude.{
  String, ◌≡◌, ◌≢◌, ◌⊎◌, inl, inr, refl, true, false, Option, none, some, arith, ◌==◌, eq_iff,
  Bool-cases, if-elim, Outcome, done, failed, crashed, Result, ok, err,
}
use hiddify_core.Core.State.{Service, Calls}
use hiddify_core.Core.Invariant.{Inv, IsDown, stop_and_alert-IsDown}
use hiddify_core.Core.Profiles.{
  ParseRequest, ParseResponse, Reply, after_panic, written, write_parsed, parsed, read_and_parsed,
  built, built_from, generated, parse_profile, change_config_options, generate_config,
}

module _ {Config ConfigOptions : Type 0} (c : Calls Config ConfigOptions) where
  -- The profile that the request brings, or that is in the file that it names.
  abbrev pub Source : ParseRequest → String → Type 0
  Source req content =
      ((req.temp_path ≡ "") × (content ≡ req.content))
      ⊎ ((req.temp_path ≢ "") × (c.read_file req.temp_path ≡ ok content))

  -- The parsed profile could not be written to the file that the request names.
  abbrev pub Unwritten : ParseRequest → String → String → Type 0
  Unwritten req content e =
      (config : String) × (c.parse_profile content ≡ done config)
      × (req.config_path ≢ "")
      × (c.write_file req.config_path config ≡ some e)

  -- What Parse may answer from `s`.
  abbrev pub ParseAnswers :
      ParseRequest → Service ConfigOptions → Reply ParseResponse ConfigOptions → Type 0
  ParseAnswers req s (some r, none, t) =
      (t ≡ s)
      × (r.is_ok ≡ true)
      × ((content : String) × Source req content × (c.parse_profile content ≡ done r.content))
      × ((req.config_path ≡ "") ⊎ (c.write_file req.config_path r.content ≡ none))
  ParseAnswers req s (some r, some e, t) =
      (t ≡ s)
      × (r.is_ok ≡ false)
      × (r.content ≡ "")
      × (r.message ≡ e)
      × ((content : String) × Source req content
          × ((c.parse_profile content ≡ failed e) ⊎ Unwritten req content e))
  ParseAnswers req s (none, some e, t) =
      (t ≡ s) × (req.temp_path ≢ "") × (c.read_file req.temp_path ≡ err e)
  ParseAnswers req s (none, none, t) =
      IsDown t × ((content : String) × Source req content × (c.parse_profile content ≡ crashed))

  module _ (req : ParseRequest) (content : String) (source : Source req content)
      (s : Service ConfigOptions) where
    written-Answers :
        (config : String)
        → c.parse_profile content ≡ done config
        → ParseAnswers req s (write_parsed c req config s)
    unfolding write_parsed
    written-Answers config p = elim (Bool-cases (req.config_path == "")) [
      | inl e ↦ rw e (refl, refl, (content, source, p), inl ((eq_iff req.config_path "").0 e))
      | inr e ↦ rw e (by_write (c.write_file req.config_path config) refl (false-ne e))
    ]
      where
        false-ne : (req.config_path == "") ≡ false → req.config_path ≢ ""
        false-ne e = λ d. cc (e, (eq_iff req.config_path "").1 d)

        by_write :
            (w : Option String)
            → c.write_file req.config_path config ≡ w
            → req.config_path ≢ ""
            → ParseAnswers req s (written c config w s)
        by_write none e n = (refl, refl, (content, source, p), inr e)
        by_write (some m) e n = (refl, refl, refl, refl, (content, source, inr (config, p, n, e)))

    parsed-Answers :
        (m : Outcome String) → c.parse_profile content ≡ m → ParseAnswers req s (parsed c req s m)
    parsed-Answers (done config) p = written-Answers config p
    parsed-Answers (failed e) p = (refl, refl, refl, refl, (content, source, inl p))
    parsed-Answers crashed p =
        unfold after_panic in (stop_and_alert-IsDown c _ _ s, (content, source, p))

  read_and_parsed-Answers :
      (req : ParseRequest) (s : Service ConfigOptions) (r : Result String)
      → req.temp_path ≢ ""
      → c.read_file req.temp_path ≡ r
      → ParseAnswers req s (read_and_parsed c req s r)
  read_and_parsed-Answers req s (ok content) n h =
      parsed-Answers req content (inr (n, h)) s (c.parse_profile content) refl
  read_and_parsed-Answers req s (err e) n h = (refl, n, h)

  -- Parse takes the profile from the file that the request names, or without one from its content. It
  -- answers OK and with no error only with what that was parsed to, once it is written to the file
  -- that the request names for it, if it names one; with an error and no response only where the
  -- profile could not be read; and with an error and a response that carries it, and no content, only
  -- where the profile could not be parsed or the result not written. The service is unchanged by all
  -- of these. The one other answer, two nil pointers, comes only of a panic of the parser, and the
  -- core is then down.
  pub parse_profile-Answers :
      (req : ParseRequest) (s : Service ConfigOptions) → ParseAnswers req s (parse_profile c req s)
  unfolding parse_profile
  parse_profile-Answers req s =
      if-elim (ParseAnswers req s) (req.temp_path == "")
        (λ e.
          parsed-Answers req req.content (inl ((eq_iff req.temp_path "").0 e, refl)) s
            (c.parse_profile req.content) refl)
        (λ e.
          read_and_parsed-Answers req s (c.read_file req.temp_path)
            (λ d. cc (e, (eq_iff req.temp_path "").1 d)) refl)

  down-Inv : {s : Service ConfigOptions} → IsDown s → Inv s
  down-Inv h = ground arith

  answered-Inv :
      (req : ParseRequest) (s : Service ConfigOptions) (x : Reply ParseResponse ConfigOptions)
      → Inv s
      → ParseAnswers req s x
      → Inv x.2
  answered-Inv req s (some r, none, t) k h = rw h.0 k
  answered-Inv req s (some r, some e, t) k h = rw h.0 k
  answered-Inv req s (none, some e, t) k h = rw h.0 k
  answered-Inv req s (none, none, t) k h = down-Inv h.0

  pub parse_profile-Inv :
      (req : ParseRequest) (s : Service ConfigOptions) → Inv s → Inv (parse_profile c req s).2
  parse_profile-Inv req s k = answered-Inv req s _ k (parse_profile-Answers req s)

  pub change_config_options-Inv :
      (json : String) (s : Service ConfigOptions) → Inv s → Inv (change_config_options c json s).1
  unfolding change_config_options
  change_config_options-Inv json s k = record { running = k.running; idle = k.idle; told = k.told }

  built-Inv : (s : Service ConfigOptions) (m : Outcome String) → Inv s → Inv (built c s m).2
  built-Inv s (done json) k = k
  built-Inv s (failed e) k = k
  built-Inv s crashed k = unfold after_panic in down-Inv (stop_and_alert-IsDown c _ _ s)

  built_from-Inv :
      (s₁ s₂ : Service ConfigOptions) (o : ConfigOptions) (r : Result Config)
      → Inv s₁
      → Inv s₂
      → Inv (built_from c s₁ s₂ o r).2
  built_from-Inv s₁ s₂ o (ok config) k₁ k₂ = built-Inv s₂ (c.build_json o config) k₂
  built_from-Inv s₁ s₂ o (err e) k₁ k₂ = k₁

  generated-Inv :
      (s₁ s₂ : Service ConfigOptions) (o : ConfigOptions) (r : Result String)
      → Inv s₁
      → Inv s₂
      → Inv (generated c s₁ s₂ o r).2
  generated-Inv s₁ s₂ o (ok content) k₁ k₂ = built_from-Inv s₁ s₂ o (c.parse_config content) k₁ k₂
  generated-Inv s₁ s₂ o (err e) k₁ k₂ = k₁

  pub generate_config-Inv :
      (path : String) (s : Service ConfigOptions) → Inv s → Inv (generate_config c path s).2
  unfolding generate_config
  generate_config-Inv path s k =
      generated-Inv _ _ _ (c.read_file path)
        (record { running = k.running; idle = k.idle; told = k.told })
        (record { running = k.running; idle = k.idle; told = k.told })
