-- ===== src/Standalone/Following/Current.antt =====
-- The core is asked to run the configurations that were read, without repetitions.
use hiddify_core.Prelude.{
  String, ◌≡◌, List, [], ◌∷◌, map, ◌==◌, if◌then◌else◌, Outcome, done, failed, crashed,
}
use hiddify_core.Standalone.{ConfigResult}
use hiddify_core.Standalone.Building.{Visit, Process, read_and_build_config}
use hiddify_core.Standalone.Following.{
  Event, asked_stop, asked_start, died, returned, standalone_request, is_positive,
}

-- What is asked of the core.
abbrev pub calls : List Event → List Event
calls [] = []
calls (asked_stop ∷ es) = asked_stop ∷ calls es
calls (asked_start r ∷ es) = asked_start r ∷ calls es
calls (e ∷ es) = calls es

abbrev pub restarts : List String → List Event
restarts [] = []
restarts (x ∷ xs) = asked_stop ∷ asked_start (standalone_request x) ∷ restarts xs

-- The texts that differ from the one before them.
abbrev pub changes : String → List String → List String
changes c [] = []
changes c (x ∷ xs) = if x == c then changes c xs else x ∷ changes x xs

abbrev pub last_or : String → List String → String
last_or c [] = c
last_or c (x ∷ xs) = last_or x xs

abbrev read_after :
    ConfigResult → (ConfigResult → List ConfigResult) → Outcome ConfigResult → List ConfigResult
read_after current later (done new) = new ∷ later new
read_after current later (failed e) = later current
read_after current later crashed = []

abbrev pub texts : List ConfigResult → List String
texts rs = map (λ r. r.config) rs

-- What is asked follows what is read.
abbrev Follows :
    (ConfigResult → List Event) → (ConfigResult → List ConfigResult) → ConfigResult → Type 0
Follows later readings c = calls (later c) ≡ restarts (changes c.config (texts (readings c)))

module _ (setting path : String) where
  -- The successful readings of the goroutine.
  abbrev pub reads : List Visit → Process → ConfigResult → List ConfigResult
  reads [] p current = []
  reads (v ∷ vs) p current =
      let r = read_and_build_config v setting path current.hiddify_config_options p in
      read_after current (λ (c : ConfigResult). reads vs (r.1) c) (r.0)

  -- The configurations that are read after the first one, if it announced an interval.
  abbrev pub readings : List Visit → Process → ConfigResult → List String
  readings vs q current =
      let rs = texts (reads vs q current) in if is_positive current.refresh_interval then rs else []

  -- What RunStandalone asks of the core once its first reading has succeeded.
  pub record Asked (current : ConfigResult) (vs : List Visit) (q : Process) (es : List Event)
      : Type 0 where
    pub asked :
        calls es
        ≡ asked_start (standalone_request current.config)
          ∷ restarts (changes current.config (readings vs q current))
    pub newest :
        last_or current.config (changes current.config (readings vs q current))
        ≡ last_or current.config (readings vs q current)

  abbrev pub Ran : List Visit → Outcome ConfigResult × Process → List Event → Type 0
  Ran vs (done current, q) es = Asked current vs q es
  Ran vs (failed e, q) es = es ≡ returned e ∷ []
  Ran vs (crashed, q) es = es ≡ died ∷ []
