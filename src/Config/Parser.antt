-- ===== src/Config/Parser.antt =====
-- config/parser.go: ParseConfigContent, patchConfig and validateResult. The readers and writers of
-- the formats are parameters.
pub mod Accepted
pub mod Batch
pub mod Distinct
use Prim.Native.String.{◌++◌ as append}
use hiddify_core.Prelude.{
  ℕ, suc, String, Bool, false, ◌||◌, Option, none, some, List, [], ◌∷◌, concat, ◌==◌, if◌then◌else◌,
  Result, ok, err, Outcome, done, failed, crashed, ◌>>=◌,
}
use hiddify_core.Config.Options.{ConfigOptions}
use hiddify_core.Config.Sing.{Value, null, object, Fields, end, field, get, Outbound}
use hiddify_core.Config.Warp.{Outside, StaticIps, patch_warp}

-- sing-box's options of a profile, with what is not an outbound
pub record ProfileOptions : Type 0 where
  pub outbounds : List Outbound
  pub rest : Fields

-- The outbounds by their tags, as the jobs of the batch end.
abbrev pub Jobs : Type 0
Jobs = List (String × Outcome Outbound)

-- JSON with comments, whose first value is decoded, ray2sing, the proxies of a Clash profile, if it is
-- one, their conversion and the template that they are put in, encoding/json, libbox.CheckConfig, and
-- the order in which the jobs of a batch end.
pub record Formats : Type 0 where
  pub decode_json : String → Option Value
  pub ray_2_singbox : String → Result String
  pub clash_proxies : String → Option (List String)
  pub clash_2_sing : List String → Result String
  pub patch_template : String → Result String
  pub marshal_object : Fields → String
  pub unmarshal_options : String → Result ProfileOptions
  pub marshal_options : ProfileOptions → String
  pub check_config : String → Option String
  pub order : Jobs → Jobs

-- The object that the parser makes: of fields, or the map that contains itself.
pub data JsonObject : Type 0 where
  of_fields : Fields → JsonObject
  self_containing : JsonObject

module _ (formats : Formats) (world : ℕ → Outside) where
  -- MarshalIndent, whose error is dropped: a cycle is an error, and the text is empty.
  unfoldable pub marshal_indent : JsonObject → String
  marshal_indent (of_fields f) = formats.marshal_object f
  marshal_indent self_containing = ""

  abbrev pub validated : String → String → Option String → Outcome String
  validated name content none = done content
  validated name content (some e) =
      failed (concat ("[" ∷ name ∷ "] invalid sing-box config: " ∷ e ∷ []))

  unfoldable pub validate_result : String → String → Outcome String
  validate_result name content = validated name content (formats.check_config content)

  -- What a job of the batch ends with.
  abbrev pub patched : Outcome (Outbound × Option StaticIps) → Outcome Outbound
  patched (done r) = done r.0
  patched (failed e) = failed (append "[Warp] patch warp error: " e)
  patched crashed = crashed

  unfoldable pub jobs : Option ConfigOptions → ℕ → List Outbound → Jobs
  jobs opt n [] = []
  jobs opt n (o ∷ os) =
      (o.tag, patched (patch_warp (world n) o opt false none)) ∷ jobs opt (suc n) os

  -- The first error of the batch; a panic of a job ends the program.
  abbrev pub batch_error : Jobs → Outcome (Unit {0})
  batch_error [] = done tt
  batch_error ((t, done o) ∷ js) = batch_error js
  batch_error ((t, failed e) ∷ js) = failed e
  batch_error ((t, crashed) ∷ js) = crashed

  -- *res[tag].Value: the value of the job of this key that ended last
  unfoldable pub result_of : String → Jobs → Outcome Outbound
  result_of k [] = crashed
  result_of k ((t, x) ∷ js) =
      let later = result_of k js in
      elim later [ done o ↦ done o | _ ↦ if t == k then x else crashed ]

  -- Every outbound is replaced by the result for its tag.
  unfoldable pub replaced : Jobs → List Outbound → Outcome (List Outbound)
  unfolding result_of
  replaced js [] = done []
  replaced js (o ∷ os) = result_of o.tag js >>= λ (o' : Outbound).
      replaced js os >>= λ (os' : List Outbound). done (o' ∷ os')

  unfoldable pub patch_outbounds : Option ConfigOptions → List Outbound → Outcome (List Outbound)
  unfolding jobs replaced
  patch_outbounds opt os =
      let js = formats.order (jobs opt 0 os) in batch_error js >>= λ (u : Unit {0}). replaced js os

  abbrev pub patch_options : Option ConfigOptions → String → Result ProfileOptions → Outcome String
  patch_options opt name (err e) = failed (append "[SingboxParser] unmarshal error: " e)
  patch_options opt name (ok options) =
      patch_outbounds opt options.outbounds >>= λ (os : List Outbound).
      validate_result name (formats.marshal_options (record options { outbounds = os }))

  unfoldable pub patch_config : Option ConfigOptions → String → String → Outcome String
  unfolding patch_outbounds validate_result
  patch_config opt name content = patch_options opt name (formats.unmarshal_options content)

  abbrev pub is_full : Option ConfigOptions → Bool → Bool
  is_full none full = full
  is_full (some opt) full = full || opt.enable_full_config

  -- The object of the profile's JSON. An array is decoded to a slice of `any`, which the code does not
  -- ask for.
  abbrev pub object_with : Bool → Fields → Value → JsonObject
  object_with full f null = self_containing
  object_with full f v = if full then of_fields f else of_fields (field "outbounds" v end)

  abbrev pub json_object : Bool → Value → Option JsonObject
  json_object full (object f) = some (object_with full f (get "outbounds" f))
  json_object full _ = none

  abbrev pub parse_object : Option ConfigOptions → Option JsonObject → Outcome String
  parse_object opt none = failed "[SingboxParser] Incorrect Json Format"
  parse_object opt (some o) = patch_config opt "SingboxParser" (marshal_indent o)

  unfoldable pub parse_json : Option ConfigOptions → Bool → Value → Outcome String
  unfolding marshal_indent patch_config
  parse_json opt full v = parse_object opt (json_object (is_full opt full) v)

  abbrev pub patch_clash : Option ConfigOptions → Result String → Outcome String
  patch_clash opt (err e) = failed (append "[ClashParser] patching clash config error: " e)
  patch_clash opt (ok output) = patch_config opt "ClashParser" output

  abbrev pub put_in_template : Option ConfigOptions → Result String → Outcome String
  put_in_template opt (err e) =
      failed (append "[ClashParser] converting clash to sing-box error: " e)
  put_in_template opt (ok converted) = patch_clash opt (formats.patch_template converted)

  abbrev pub parse_clash : Option ConfigOptions → Option (List String) → Outcome String
  parse_clash opt none = failed "unable to determine config format"
  parse_clash opt (some []) = failed "[ClashParser] no outbounds found"
  parse_clash opt (some (p ∷ ps)) = put_in_template opt (formats.clash_2_sing (p ∷ ps))

  abbrev pub parse_v2ray : Option ConfigOptions → String → Result String → Outcome String
  parse_v2ray opt content (ok v2ray) = patch_config opt "V2rayParser" v2ray
  parse_v2ray opt content (err e) = parse_clash opt (formats.clash_proxies content)

  abbrev pub parse_decoded : Option ConfigOptions → Bool → String → Option Value → Outcome String
  parse_decoded opt full content (some v) = parse_json opt full v
  parse_decoded opt full content none = parse_v2ray opt content (formats.ray_2_singbox content)

  unfoldable pub parse_config_content : String → Option ConfigOptions → Bool → Outcome String
  unfolding parse_json
  parse_config_content content opt full =
      parse_decoded opt full content (formats.decode_json content)
