-- ===== src/Config/Trials.antt =====
-- The parser and the tunnel's commander on concrete profiles and hosts.
use mathlib.Core.Path.{subst}
use mathlib.Core.Option.{some-injective}
use hiddify_core.Prelude.{
  ℕ, zero, suc, List, sym, ap, ◌∙◌, ◌≡◌, refl, true, false, none, some, [], ◌∷◌, ◌==◌,
  if◌then◌else◌, ok, err, done, Returns,
}
use hiddify_core.Config.Options.{default_config_options}
use hiddify_core.Config.Sing.{array, nil, end, Outbound, plain}
use hiddify_core.Config.Warp.{Outside, patch_warp}
use hiddify_core.Config.Parser.{Formats, parse_config_content, patch_outbounds}
use hiddify_core.Config.Parser.Accepted.{
  Checked, IsError, parse_config_content-Checked, parse_config_content-rejects,
}
use hiddify_core.Config.Parser.Distinct.{Distinct, patch_of, patch_outbounds-patches}
use hiddify_core.Config.Parser.Batch.{get_elem?}
use hiddify_core.Config.Commander.{Host, start_tunnel_request}
use hiddify_core.Config.Commander.Attempts.{Attempted, start_tunnel_request-Attempted}

abbrev outside : Outside
outside = record {
  decode_base64 = λ s. 1 ∷ 2 ∷ 3 ∷ [];
  parse_prefix = λ s. ok s;
  lookup_host = λ d. none;
  key_pair = err "no entropy";
  register = λ k. err "offline";
  update_account = λ t i l. ok l;
  random_ip = λ v4 v6. "162.159.193.7";
  port_draw = 0;
  random_name = "abcdefghijabcdefghij";
}

abbrev first : Outbound
first = plain "same" "vless"

abbrev second : Outbound
second = plain "same" "trojan"

abbrev pub formats : Formats
formats = record {
  decode_json = λ s. if s == "[]" then some (array nil) else none;
  ray_2_singbox = λ s. ok s;
  clash_proxies = λ s. none;
  clash_2_sing = λ ps. err "none";
  patch_template = λ s. ok s;
  marshal_object = λ f. "{}";
  unmarshal_options = λ s.
      if s == ""
      then err "unexpected end of JSON input"
      else ok (record { outbounds = first ∷ second ∷ []; rest = end });
  marshal_options = λ o. "{}";
  check_config = λ s. none;
  order = λ js. js;
}

parse_config_content-Checked_example :
    Returns
      (Checked formats (λ n. outside))
      (parse_config_content formats (λ n. outside) "vless://x" none false)
parse_config_content-Checked_example =
    parse_config_content-Checked formats (λ n. outside) none "vless://x" false

parse_config_content-rejects_example :
    IsError (parse_config_content formats (λ n. outside) "[]" none true)
parse_config_content-rejects_example =
    parse_config_content-rejects formats (λ n. outside) none "unexpected end of JSON input" refl
      "[]" true (array nil) refl refl

-- The first outbound is lost.
merged :
    patch_outbounds formats (λ n. outside) none (first ∷ second ∷ []) ≡ done (second ∷ second ∷ [])
unfolding patch_outbounds patch_warp
merged = refl

-- The port is free until the service is installed.
abbrev host : Host
host = record {
  appimage = "";
  executable_path = "/opt/HiddifyCli";
  port_in_use = λ t. elim t [ [] ↦ false | _ ↦ true ];
  command_error = λ t b cmd. if b then none else some "cancelled";
  start_error = λ t r. none;
  stop_error = λ t. none;
}

start_tunnel_request-Attempted_example :
    Attempted host default_config_options 2 10 []
      (start_tunnel_request host default_config_options [])
start_tunnel_request-Attempted_example =
    start_tunnel_request-Attempted host default_config_options []

abbrev third : Outbound
third = plain "other" "trojan"

abbrev apart : List Outbound
apart = first ∷ third ∷ []

apart-Distinct : Distinct apart
apart-Distinct zero zero a b p q t = refl
apart-Distinct zero (suc zero) a b p q t =
    cc (ap (λ o. o.tag) (some-injective _ _ p) ∙ (t ∙ sym (ap (λ o. o.tag) (some-injective _ _ q))))
apart-Distinct (suc zero) zero a b p q t =
    cc (ap (λ o. o.tag) (some-injective _ _ p) ∙ (t ∙ sym (ap (λ o. o.tag) (some-injective _ _ q))))
apart-Distinct (suc zero) (suc zero) a b p q t = refl
apart-Distinct zero (suc (suc j)) a b p q t = cc q
apart-Distinct (suc zero) (suc (suc j)) a b p q t = cc q
apart-Distinct (suc (suc i)) j a b p q t = cc p

apart_patched :
    (i : ℕ) (a : Outbound)
    → get_elem? apart i ≡ some a
    → (b : Outbound) × (patch_of formats (λ n. outside) none i a ≡ done b)
unfolding patch_warp
apart_patched zero a p =
    (a, subst (λ o. patch_of formats (λ n. outside) none 0 o ≡ done o) (some-injective _ _ p) refl)
apart_patched (suc zero) a p =
    (a, subst (λ o. patch_of formats (λ n. outside) none 1 o ≡ done o) (some-injective _ _ p) refl)
apart_patched (suc (suc i)) a p = cc p

patch_outbounds-patches_example :
    (outs : List Outbound) × (patch_outbounds formats (λ n. outside) none apart ≡ done outs)
    × ((i : ℕ) (a : Outbound)
        → get_elem? apart i ≡ some a
        → (b : Outbound) × (get_elem? outs i ≡ some b)
          × (patch_of formats (λ n. outside) none i a ≡ done b))
patch_outbounds-patches_example =
    patch_outbounds-patches formats (λ n. outside) (λ js x. (λ m. m, λ m. m)) none apart
      apart-Distinct apart_patched
