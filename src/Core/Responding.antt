-- ===== src/Core/Responding.antt =====
-- Where the handlers answer with a response.
use hiddify_core.Prelude.{
  ℕ, String, ◌≡◌, ◌≢◌, ◌⊎◌, inl, inr, ◌∙◌, ◌==◌, Bool-cases, Result, ok, err, Outcome, done, failed,
  refl, Bool, true, false, none, some, arith, crashed,
}
use hiddify_core.Core.State.{StartRequest, Service, Calls, Exit, replied, panicked}
use hiddify_core.Core.Status.{set_core_status, deactivate_tunnel_service, detach, fail}
use hiddify_core.Core.Starting.{
  read_content, run_instance, create_instance, with_command_server, save, build, parse, start_core,
}
use hiddify_core.Core.Handlers.{recover, report_stopped, close_command_server, stop, prepare, start}
use hiddify_core.Core.Profiles.{read_options, change_config_options}

-- The exit is a reply that is not nil.
abbrev pub has_response : Exit → Bool
has_response (replied (some i) e) = true
has_response _ = false

Result-cases {ℓ} :
    {A : Type ℓ} (r : Result A) → ((a : A) × (r ≡ ok a)) ⊎ ((e : String) × (r ≡ err e))
Result-cases (ok a) = inl (a, refl)
Result-cases (err e) = inr (e, refl)

crashed-cases {ℓ} : {A : Type ℓ} (x : Outcome A) → (x ≡ crashed) ⊎ (x ≢ crashed)
crashed-cases (done a) = inr (λ e. cc e)
crashed-cases (failed e) = inr (λ e. cc e)
crashed-cases crashed = inl refl

module _ {Config ConfigOptions : Type 0} (c : Calls Config ConfigOptions) (req : StartRequest) where
  run_instance-responds :
      (b : ℕ) (s : Service ConfigOptions) → has_response (run_instance c req b s).0 ≡ true
  unfolding run_instance fail
  run_instance-responds b s = ground arith

  create_instance-responds :
      (config : Config) (s : Service ConfigOptions)
      → has_response (create_instance c req config s).0 ≡ true
  unfolding create_instance fail
  create_instance-responds config s = grind (arith, run_instance-responds)

  pub with_command_server-responds :
      req.enable_old_command_server ≡ false
      → (config : Config) (s : Service ConfigOptions)
      → has_response (with_command_server c req config s).0 ≡ true
  unfolding with_command_server
  with_command_server-responds alone config s = grind (arith, create_instance-responds)

module _ {Config ConfigOptions : Type 0} (c : Calls Config ConfigOptions) where
  pub recover-responds :
      (x : Exit × Service ConfigOptions)
      → has_response x.0 ≡ true
      → has_response (recover c x).0 ≡ true
  unfolding recover
  recover-responds (replied (some i) e, t) r = refl
  recover-responds (replied none e, t) r = cc
  recover-responds (panicked, t) r = cc

  prepare-config_options :
      (req : StartRequest) (s : Service ConfigOptions)
      → (prepare c req s).config_options ≡ s.config_options
  unfolding prepare set_core_status stop detach deactivate_tunnel_service close_command_server
      report_stopped
  prepare-config_options req s = ground arith

  prepare-log_factory :
      (req : StartRequest) (s : Service ConfigOptions)
      → (prepare c req s).log_factory ≡ s.log_factory
  unfolding prepare set_core_status stop detach deactivate_tunnel_service close_command_server
      report_stopped
  prepare-log_factory req s = ground arith

  read_content-config_options :
      (req : StartRequest) (s : Service ConfigOptions)
      → (read_content c req s).1.config_options ≡ s.config_options
  unfolding read_content
  read_content-config_options req s = ground arith

  read_content-log_factory :
      (req : StartRequest) (s : Service ConfigOptions)
      → (read_content c req s).1.log_factory ≡ s.log_factory
  unfolding read_content
  read_content-log_factory req s = ground arith

  module _ (req : StartRequest) where
    -- The old command server needs a log factory.
    abbrev pub HasLogFactory : Service ConfigOptions → Type 0
    HasLogFactory s = req.enable_old_command_server ≡ true → s.log_factory ≡ true

    -- What the request asks to be run.
    abbrev pub Requested : String → Type 0
    Requested content = (content ≡ req.config_content) ⊎ (c.read_file req.config_path ≡ ok content)

    -- BuildConfig panics on the options and on the configuration that the request asks for.
    pub record BuildPanics (o : ConfigOptions) : Type 0 where
      pub content : String
      pub config : Config
      pub requested : Requested content
      pub parsed : c.parse_config content ≡ ok config
      pub panics : c.build_config o config ≡ crashed

    abbrev pub RespondsOrPanics : ConfigOptions → Exit → Type 0
    RespondsOrPanics o x = (has_response x ≡ true) ⊎ BuildPanics o

    logged-responds :
        (config : Config) (s : Service ConfigOptions)
        → HasLogFactory s
        → has_response (with_command_server c req config s).0 ≡ true
    unfolding with_command_server fail
    logged-responds config s l = elim (Bool-cases req.enable_old_command_server) [
      | inl old ↦ let k = l old in grind (arith, create_instance-responds c req, old, k)
      | inr alone ↦ with_command_server-responds c req alone config s
    ]

    module _ (o : ConfigOptions) where
      build-responds :
          (content : String) (config : Config) (s : Service ConfigOptions)
          → Requested content
          → c.parse_config content ≡ ok config
          → s.config_options ≡ some o
          → HasLogFactory s
          → RespondsOrPanics o (build c req config s).0
      unfolding build save fail
      build-responds content config s r p e l = elim (crashed-cases (c.build_config o config)) [
        | inl b ↦
            inr
              (record { content = content; config = config; requested = r; parsed = p; panics = b })
        | inr total ↦ inl (grind (arith, logged-responds, total))
      ]

      parse-responds :
          (content : String) (s : Service ConfigOptions)
          → Requested content
          → s.config_options ≡ some o
          → HasLogFactory s
          → RespondsOrPanics o (parse c req content s).0
      unfolding parse fail
      parse-responds content s r e l = elim (Result-cases (c.parse_config content)) [
        | inl (config, p) ↦ rw (p, parse) (build-responds content config s r p e l)
        | inr (m, p) ↦ rw (p, parse) (inl refl)
      ]

      start_core-responds :
          (s : Service ConfigOptions)
          → s.config_options ≡ some o
          → HasLogFactory s
          → RespondsOrPanics o (start_core c req s).0
      unfolding start_core read_content fail
      start_core-responds s e l =
          let t = (read_content c req s).1 in
          let e' = read_content-config_options req s ∙ e in
          let l' : HasLogFactory t = λ old. read_content-log_factory req s ∙ l old in
          elim (Bool-cases (req.config_content == "")) [
            | inr given ↦
                rw (given, start_core, read_content)
                  (parse-responds req.config_content t (inl refl) e' l')
            | inl empty ↦ elim (Result-cases (c.read_file req.config_path)) [
              | inl (content, p) ↦
                  rw (empty, start_core, read_content, p) (parse-responds content t (inr p) e' l')
              | inr (m, p) ↦ rw (empty, start_core, read_content, p) (inl refl)
            ]
          ]

    recovered :
        (o : ConfigOptions) (x : Exit × Service ConfigOptions)
        → RespondsOrPanics o x.0
        → RespondsOrPanics o (recover c x).0
    recovered o x (inl r) = inl (recover-responds x r)
    recovered o x (inr p) = inr p

    -- A Start after any ChangeConfigOptions, one that fails included, and whatever was done before,
    -- answers with a response, unless BuildConfig panics on the options that were left and on the
    -- configuration that the request asks for. It never runs into the nil pointer that the options are
    -- at first. Where it asks for the old command server there has to be a log factory.
    pub start-responds :
        (change : Calls Config ConfigOptions) (json : String) (s : Service ConfigOptions)
        → HasLogFactory s
        → RespondsOrPanics
            (read_options change json).0
            (start c req (change_config_options change json s).1).0
    unfolding start change_config_options
    start-responds change json s l =
        let t = (change_config_options change json s).1 in
        recovered (read_options change json).0 (start_core c req (prepare c req t)) (
          start_core-responds (read_options change json).0 (prepare c req t)
            (prepare-config_options req t) (λ old. prepare-log_factory req t ∙ l old))
