-- ===== src/Config/Patch.antt =====
-- config/outbound.go: what is changed of an outbound of the profile, as the object that its JSON is.
-- The conversions between options and objects, which are sing-box's, are parameters.
pub mod Changes
pub mod Panics
use Prim.Native.String.{◌++◌ as append}
use hiddify_core.Prelude.{
  String, Bool, true, false, ◌&&◌, ◌||◌, Option, none, some, [], ◌∷◌, concat, ◌==◌, if◌then◌else◌,
  Result, ok, err, Outcome, done, failed, crashed, ◌>>=◌,
}
use hiddify_core.Config.Options.{ConfigOptions}
use hiddify_core.Config.Sing.{
  Value, null, boolean, text, object, multiplex_value, fragment_value, tricks_value, Fields, end,
  field, get, put, Tricks, Tls, Outbound,
}
use hiddify_core.Config.Warp.{Outside, StaticIps, patch_warp}

unfoldable pub patch_mux : ConfigOptions → Fields → Fields
patch_mux opt obj =
    if opt.mux.enable
    then put "multiplex"
        (multiplex_value (record {
          enabled = true;
          padding = opt.mux.padding;
          max_streams = opt.mux.max_streams;
          protocol = opt.mux.protocol;
        }))
        obj
    else obj

unfoldable pub patch_fragment : ConfigOptions → Fields → Fields
patch_fragment opt obj =
    if opt.tls_tricks.enable_fragment
    then put "tls_fragment"
        (fragment_value (record {
          enabled = opt.tls_tricks.enable_fragment;
          size = opt.tls_tricks.fragment_size;
          sleep = opt.tls_tricks.fragment_sleep;
        }))
        (put "tcp_fast_open" (boolean false) obj)
    else obj

unfoldable pub is_outbound_reality : Outbound → Bool
is_outbound_reality base =
    if base.type == "vless"
    then elim base.vless.tls [
      | none ↦ false
      | some t ↦ elim t.reality [ none ↦ false | some enabled ↦ enabled ]
    ]
    else false

-- The TLS options and the transport of the first protocol that has TLS options.
unfoldable pub secured : Outbound → Option (Tls × Option String)
secured base = elim base.vless.tls [
  | some t ↦ some (t, base.vless.transport)
  | none ↦ elim base.trojan.tls [
    | some t ↦ some (t, base.trojan.transport)
    | none ↦ elim base.vmess.tls [ some t ↦ some (t, base.vmess.transport) | none ↦ none ]
  ]
]

-- TLS is enabled, over a transport that the tricks are for.
unfoldable pub is_tricky : Option (Tls × Option String) → Bool
is_tricky none = false
is_tricky (some (t, none)) = false
is_tricky (some (t, some kind)) =
    t.enabled && (kind == "ws" || (kind == "grpc" || kind == "httpupgrade"))

-- Is the value the empty text?
abbrev pub is_empty_text : Value → Bool
is_empty_text (text t) = t == ""
is_empty_text _ = false

abbrev pub xray_fragment : ConfigOptions → Value
xray_fragment opt = object (
    field "packets" (text "tlshello") (
      field "length" (text opt.tls_tricks.fragment_size)
        (field "interval" (text opt.tls_tricks.fragment_sleep) end)))

-- obj["xray_fragment"], set where it is nil or has empty packets; a value that is no object panics.
abbrev pub set_xray : ConfigOptions → Fields → Value → Outcome Fields
set_xray opt obj null = done (put "xray_fragment" (xray_fragment opt) obj)
set_xray opt obj (object f) =
    done
      (if is_empty_text (get "packets" f) then put "xray_fragment" (xray_fragment opt) obj else obj)
set_xray opt obj _ = crashed

unfoldable pub patch_xray : Outbound → ConfigOptions → Fields → Outcome Fields
patch_xray base opt obj =
    if base.type == "xray" && opt.tls_tricks.enable_fragment
    then set_xray opt obj (get "xray_fragment" obj)
    else done obj

abbrev pub no_tricks : Tricks
no_tricks = record { mixed_case_sni = false; padding_mode = ""; padding_size = "" }

unfoldable pub new_tricks : ConfigOptions → Option Tricks → Tricks
new_tricks opt old =
    let t : Tricks = elim old [ none ↦ no_tricks | some t ↦ t ] in
    let mixed = record t { mixed_case_sni = t.mixed_case_sni || opt.tls_tricks.mixed_sni_case } in
    if opt.tls_tricks.enable_padding
    then record mixed { padding_mode = "random"; padding_size = opt.tls_tricks.padding_size }
    else mixed

-- The object under "tls", which the map of the outbound shares.
unfoldable pub patch_tls : ConfigOptions → Option Tricks → Fields → Fields
unfolding new_tricks
patch_tls opt old tls = put "tls_tricks" (tricks_value (new_tricks opt old)) (
    if opt.tls_tricks.enable_padding
    then put "utls"
        (object (field "enabled" (boolean true) (field "fingerprint" (text "custom") end))) tls
    else tls)

abbrev pub set_tls : ConfigOptions → Option Tricks → Fields → Value → Fields
set_tls opt old obj (object tls) =
    put "tls" (object (patch_tls opt old tls)) (patch_fragment opt obj)
set_tls opt old obj _ = obj

unfoldable pub patch_secured : ConfigOptions → Option (Tls × Option String) → Fields → Fields
patch_secured opt none obj = obj
patch_secured opt (some (t, kind)) obj =
    if is_tricky (some (t, kind)) then set_tls opt t.tricks obj (get "tls" obj) else obj

abbrev pub is_group_or_dead : String → Bool
is_group_or_dead k = k == "selector" || (k == "urltest" || (k == "block" || k == "dns"))

-- What is written through the pointer to the TLS options of the profile is left out.
unfoldable pub patch_tls_tricks : Outbound → ConfigOptions → Fields → Outcome Fields
unfolding patch_xray is_outbound_reality secured patch_secured is_tricky
patch_tls_tricks base opt obj =
    if is_group_or_dead base.type || is_outbound_reality base
    then done obj
    else patch_xray base opt obj >>= λ (o : Fields).
        done (
          if base.type == "direct"
          then patch_fragment opt o
          else patch_secured opt (secured base) o)

-- What sing-box and net do: an outbound as an object and back, and net.ParseIP against nil.
pub record Codec : Type 0 where
  pub to_object : Outbound → Result Fields
  pub of_object : Fields → Result Outbound
  pub is_ip : String → Bool

unfoldable pub server_domain : Codec → Value → String
server_domain codec (text server) =
    if server == "" || codec.is_ip server then "" else append "full:" server
server_domain codec _ = ""

abbrev pub has_mux : String → Bool
has_mux k = k == "vmess" || (k == "vless" || (k == "trojan" || k == "shadowsocks"))

-- the errors of patchOutbound, with the outbound's name in front
abbrev pub format_err {ℓ} : {A : Type ℓ} → String → String → String → Outcome A
format_err t k e = failed (concat ("error patching outbound[" ∷ t ∷ "][" ∷ k ∷ "]: " ∷ e ∷ []))

abbrev pub or_format {ℓ} : {A : Type ℓ} → String → String → Result A → Outcome A
or_format t k (ok a) = done a
or_format t k (err e) = format_err t k e

-- patchWarp inside patchOutbound
abbrev pub or_format_warp {ℓ} : {A : Type ℓ} → String → String → Outcome A → Outcome A
or_format_warp t k (done a) = done a
or_format_warp t k (failed e) = format_err t k e
or_format_warp t k crashed = crashed

unfoldable pub patch_object : Outbound → ConfigOptions → Fields → Outcome Fields
unfolding patch_tls_tricks
patch_object base opt obj = patch_tls_tricks base opt obj >>= λ (o : Fields).
    done (if has_mux base.type then patch_mux opt o else o)

unfoldable pub patch_outbound :
    Outside
    → Codec
    → ConfigOptions
    → Outbound
    → Option StaticIps
    → Outcome (Outbound × String × Option StaticIps)
unfolding patch_object
patch_outbound out codec opt base ips =
    or_format_warp base.tag base.type (patch_warp out base (some opt) true ips)
    >>= λ (r : Outbound × Option StaticIps).
        or_format r.0.tag r.0.type (codec.to_object r.0) >>= λ (obj : Fields).
        patch_object r.0 opt obj >>= λ (o : Fields).
        or_format r.0.tag r.0.type (codec.of_object o) >>= λ (outbound : Outbound).
        done (outbound, server_domain codec (get "server" obj), r.1)
