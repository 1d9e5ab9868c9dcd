-- ===== src/Config/Parser/Accepted.antt =====
-- Which profiles the parser accepts, and what it answers.
use hiddify_core.Prelude.{
  ℕ, String, ◌≡◌, refl, Bool, true, false, Option, none, some, List, [], ◌∷◌, Result, ok, err,
  Outcome, failed, Returns, Returns-bind,
}
use hiddify_core.Config.Options.{ConfigOptions}
use hiddify_core.Config.Sing.{Value, null, object, Fields, get}
use hiddify_core.Config.Warp.{Outside}
use hiddify_core.Config.Parser.{
  Formats, ProfileOptions, JsonObject, marshal_indent, validated, validate_result, patch_outbounds,
  patch_options, patch_config, is_full, object_with, json_object, parse_object, parse_json,
  patch_clash, put_in_template, parse_clash, parse_v2ray, parse_decoded, parse_config_content,
}

-- An object with outbounds that are not null.
abbrev pub has_outbounds : Value → Bool
has_outbounds (object f) = elim (get "outbounds" f) [ null ↦ false | _ ↦ true ]
has_outbounds _ = false

abbrev pub IsError : Outcome String → Type 0
IsError (failed e) = Unit
IsError _ = ⊥

module _ (formats : Formats) (world : ℕ → Outside) where
  abbrev pub Checked : String → Type 0
  Checked content = formats.check_config content ≡ none

  validated-Checked :
      (name content : String) (x : Option String)
      → formats.check_config content ≡ x
      → Returns Checked (validated formats world name content x)
  validated-Checked name content none h = h
  validated-Checked name content (some e) h = tt

  module _ (opt : Option ConfigOptions) where
    patch_options-Checked :
        (name : String) (r : Result ProfileOptions)
        → Returns Checked (patch_options formats world opt name r)
    unfolding validate_result
    patch_options-Checked name (err e) = tt
    patch_options-Checked name (ok options) =
        Returns-bind Checked (patch_outbounds formats world opt options.outbounds) _
          (λ os _. validated-Checked name _ _ refl)

    patch_config-Checked :
        (name content : String) → Returns Checked (patch_config formats world opt name content)
    unfolding patch_config
    patch_config-Checked name content =
        patch_options-Checked name (formats.unmarshal_options content)

    parse_object-Checked :
        (o : Option JsonObject) → Returns Checked (parse_object formats world opt o)
    parse_object-Checked none = tt
    parse_object-Checked (some o) = patch_config-Checked "SingboxParser" _

    patch_clash-Checked : (r : Result String) → Returns Checked (patch_clash formats world opt r)
    patch_clash-Checked (err e) = tt
    patch_clash-Checked (ok output) = patch_config-Checked "ClashParser" output

    put_in_template-Checked :
        (r : Result String) → Returns Checked (put_in_template formats world opt r)
    put_in_template-Checked (err e) = tt
    put_in_template-Checked (ok converted) = patch_clash-Checked (formats.patch_template converted)

    parse_clash-Checked :
        (ps : Option (List String)) → Returns Checked (parse_clash formats world opt ps)
    parse_clash-Checked none = tt
    parse_clash-Checked (some []) = tt
    parse_clash-Checked (some (p ∷ ps)) = put_in_template-Checked (formats.clash_2_sing (p ∷ ps))

    parse_v2ray-Checked :
        (content : String) (r : Result String)
        → Returns Checked (parse_v2ray formats world opt content r)
    parse_v2ray-Checked content (ok v2ray) = patch_config-Checked "V2rayParser" v2ray
    parse_v2ray-Checked content (err e) = parse_clash-Checked (formats.clash_proxies content)

    parse_decoded-Checked :
        (full : Bool) (content : String) (v : Option Value)
        → Returns Checked (parse_decoded formats world opt full content v)
    unfolding parse_json
    parse_decoded-Checked full content (some v) =
        parse_object-Checked (json_object formats world (is_full formats world opt full) v)
    parse_decoded-Checked full content none =
        parse_v2ray-Checked content (formats.ray_2_singbox content)

    -- Whatever the format of the profile, a configuration that the parser returns has passed
    -- sing-box's check.
    pub parse_config_content-Checked :
        (content : String) (full : Bool)
        → Returns Checked (parse_config_content formats world content opt full)
    unfolding parse_config_content
    parse_config_content-Checked content full =
        parse_decoded-Checked full content (formats.decode_json content)

    -- The text of no document is an error of encoding/json.
    module _ (e : String) (empty : formats.unmarshal_options "" ≡ err e) where
      cyclic-IsError :
          (f : Fields) (full : Bool) (v : Value)
          → elim v [ null ↦ false | _ ↦ true ] ≡ false
          → IsError (
              patch_config formats world opt "SingboxParser"
                (marshal_indent formats world (object_with formats world full f v)))
      unfolding patch_config marshal_indent
      cyclic-IsError f full null h = rw empty tt
      cyclic-IsError f full _ h = cc h

      object-IsError :
          (full : Bool) (v : Value)
          → has_outbounds v ≡ false
          → IsError (parse_object formats world opt (json_object formats world full v))
      object-IsError full (object f) h = cyclic-IsError f full (get "outbounds" f) h
      object-IsError full null h = tt
      object-IsError full _ h = tt

      -- Where the first value of the content is JSON, only an object with outbounds that are not null
      -- can be accepted: every other value ends in an error, an array of outbounds and a single
      -- outbound included, and no other format is tried.
      pub parse_config_content-rejects :
          (content : String) (full : Bool) (v : Value)
          → formats.decode_json content ≡ some v
          → has_outbounds v ≡ false
          → IsError (parse_config_content formats world content opt full)
      unfolding parse_config_content parse_json
      parse_config_content-rejects content full v d h =
          rw d (object-IsError (is_full formats world opt full) v h)
