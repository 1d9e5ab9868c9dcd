-- ===== src/Standalone/Following/Patient.antt =====
-- How long the goroutine of updateConfigInterval waits.
use hiddify_core.Prelude.{
  Returns, String, ℕ, ◌*◌, ◌<◌, ℤ, pos, negsuc, ◌≡◌, Bool, true, false, ◌&&◌, List, All, leb, ltb,
}
use hiddify_core.Standalone.{ConfigResult, read_config_content}
use hiddify_core.Standalone.Building.Served.{Served}
use hiddify_core.Standalone.Building.{Visit}
use hiddify_core.Standalone.Following.{Event, waited}

-- An interval that the product with an hour, in nanoseconds, leaves below 2 ^ 63.
abbrev pub fits : ℤ → Bool
fits (pos n) = ltb 0 n && leb n 2562047
fits (negsuc n) = false

-- A wait, in nanoseconds, is at least an hour, and a whole number of hours.
abbrev pub Patient : Event → Type 0
Patient (waited t) = (n : ℕ) × (t ≡ pos (n * 3600000000000)) × (0 < n)
Patient _ = Unit

abbrev pub Fitting : ConfigResult → Type 0
Fitting r = fits r.refresh_interval ≡ true

abbrev Slow : (ConfigResult → List Event) → Type 0
Slow later = (c : ConfigResult) → Fitting c → All Patient (later c)

module _ (setting path : String) where
  -- What a visit finds at the path, if anything, announces an interval that fits.
  abbrev pub Announces : Visit → Type 0
  Announces v = Returns Fitting (read_config_content v.site path)
