-- ===== src/Standalone.antt =====
-- v2/standalone.go: where the configuration is read, and how often it says to read it again.
pub mod Announced
pub mod Building
pub mod Following
mod Examples
use Prim.Native.String.{◌++◌ as append}
use hiddify_core.Prelude.{
  ℤ, pos, String, Bool, ◌||◌, Option, none, some, List, [], ◌∷◌, concat, ◌==◌, if◌then◌else◌,
  Result, ok, err, Outcome, done, failed, crashed, ◌>>=◌,
}
use hiddify_core.Config.Text.{atoi, has_prefix, split_on, split_first, second_part, trim_space}
use hiddify_core.Config.Options.{ConfigOptions}

-- What is read of an HTTP response: the header profile-update-interval, and the body.
pub record Response : Type 0 where
  pub interval_header : String
  pub body : Result String

-- net/http, the file system and the words of strconv's error. `new_request` may answer an error.
pub record Site : Type 0 where
  pub new_request : String → Option String
  pub get : String → Result Response
  pub read_file : String → Result String
  pub atoi_error : String → String

-- The interval is in hours.
pub record ConfigResult : Type 0 where
  pub config : String
  pub refresh_interval : ℤ
  pub hiddify_config_options : Option ConfigOptions

abbrev pub interval_from : Site → String → String → Option ℤ → Outcome ℤ
interval_from site place str (some n) = done n
interval_from site place str none =
    failed
      (concat ("failed to parse refresh interval from " ∷ place ∷ ": " ∷ site.atoi_error str ∷ []))

abbrev pub parsed_interval : Site → String → String → Outcome ℤ
parsed_interval site place str = interval_from site place str (atoi str)

unfoldable pub announces : String → Bool
unfolding has_prefix
announces line =
    has_prefix line "//profile-update-interval:" || has_prefix line "#profile-update-interval:"

abbrev pub interval_of_line : Site → String → Outcome ℤ
interval_of_line site line = second_part (split_first ":" line) >>= λ (part : String).
    parsed_interval site "body" (trim_space part)

-- The first line that announces an interval decides.
unfoldable pub interval_of_lines : Site → List String → Outcome ℤ
unfolding announces
interval_of_lines site [] = done (pos 0)
interval_of_lines site (l ∷ ls) =
    let later = interval_of_lines site ls in
    let line = trim_space l in if announces line then interval_of_line site line else later

unfoldable pub extract_refresh_interval : Site → String → String → Outcome ℤ
unfolding interval_of_lines
extract_refresh_interval site header body =
    if header == ""
    then interval_of_lines site (split_on "\n" body)
    else parsed_interval site "header" header

-- The error is dropped, and the number is then 0.
abbrev pub interval_or_zero : Outcome ℤ → Outcome ℤ
interval_or_zero (done n) = done n
interval_or_zero (failed e) = done (pos 0)
interval_or_zero crashed = crashed

abbrev pub received : Site → Result Response → Outcome ConfigResult
received site (err e) = failed e
received site (ok r) = elim r.body [
  | err e ↦ failed (append "failed to read config body: " e)
  | ok body ↦ interval_or_zero (extract_refresh_interval site r.interval_header body) >>= λ (n : ℤ).
      done (record { config = body; refresh_interval = n; hiddify_config_options = none })
]

abbrev pub fetched : Site → String → Option String → Outcome ConfigResult
fetched site url (some e) = failed e
fetched site url none = received site (site.get url)

abbrev pub loaded : Result String → Outcome ConfigResult
loaded (err e) = failed (append "failed to read config file: " e)
loaded (ok content) =
    done (record { config = content; refresh_interval = pos 0; hiddify_config_options = none })

unfoldable pub read_config_content : Site → String → Outcome ConfigResult
unfolding extract_refresh_interval
read_config_content site path =
    if has_prefix path "http://" || has_prefix path "https://"
    then fetched site path (site.new_request path)
    else loaded (site.read_file path)
