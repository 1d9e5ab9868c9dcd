-- ===== src/Config/Collect.antt =====
-- setOutbounds and patchHiddifyWarpFromConfig of config/config.go, up to the groups.
pub mod Members
pub mod OwnWarp
use Prim.Native.String.{◌++◌ as append}
use hiddify_core.Prelude.{
  ℕ, suc, String, Bool, true, false, not, ◌&&◌, ◌||◌, Option, none, some, List, [], ◌∷◌, ◌++◌, any,
  ◌==◌, if◌then◌else◌, Outcome, done, failed, crashed, ◌>>=◌,
}
use hiddify_core.Config.Text.{contains}
use hiddify_core.Config.Tags.{outbound_direct_tag, outbound_select_tag}
use hiddify_core.Config.Options.{ConfigOptions}
use hiddify_core.Config.Sing.{Value, object, text_of, get, Outbound}
use hiddify_core.Config.Warp.{Outside, StaticIps, generate_warp_singbox, patch_warp}
use hiddify_core.Config.Patch.{Codec, patch_outbound}
use hiddify_core.Config.Dns.{insert_key}

abbrev pub warp_tag : String
warp_tag = "Hiddify Warp ✅"

abbrev pub over_warp : ConfigOptions → Bool
over_warp opt = opt.warp.enable_warp && opt.warp.mode == "proxy_over_warp"

abbrev pub or_warp : String → String
or_warp d = if d == "" then warp_tag else d

-- patchHiddifyWarpFromConfig: the options of every protocol
unfoldable pub patch_hiddify : ConfigOptions → Outbound → Outbound
patch_hiddify opt o =
    if over_warp opt
    then record o {
      detours = λ p. or_warp (o.detours p);
      wire_guard = record (o.wire_guard) { detour = or_warp o.wire_guard.detour };
    }
    else o

abbrev pub has_key_p1 : Value → Bool
has_key_p1 (object warp) = text_of (get "key" warp) == "p1"
has_key_p1 _ = false

-- The profile brings the Warp of the options along.
abbrev pub is_own_warp : ConfigOptions → Outbound → Bool
is_own_warp opt o =
    (o.type == "custom" && has_key_p1 (get "warp" o.custom_options))
    || (o.type == "wireguard"
        && (o.wire_guard.private_key == opt.warp.wireguard_config.private_key
            || o.wire_guard.private_key == "p1"))

-- opt.Warp.EnableWarp is cleared where the profile has the outbound.
unfoldable pub without_double : ConfigOptions → List Outbound → ConfigOptions
without_double opt input = record opt {
  warp = record (opt.warp) {
    enable_warp = opt.warp.enable_warp && not (any (is_own_warp opt) input);
  };
}

abbrev pub adds_warp : ConfigOptions → Bool
adds_warp opt =
    opt.warp.enable_warp
    && (opt.warp.mode == "warp_over_proxy" || opt.warp.mode == "proxy_over_warp")

-- The error of the patch is dropped; a panic is not.
abbrev pub drop_error : Outbound → Outcome (Outbound × Option StaticIps) → Outcome Outbound
drop_error o (done r) = done r.0
drop_error o (failed e) = done o
drop_error o crashed = crashed

abbrev pub named_warp : ConfigOptions → Outbound → Outbound
named_warp opt o = record o {
  tag = warp_tag;
  wire_guard = record (o.wire_guard) {
    detour =
        if opt.warp.mode == "warp_over_proxy" then outbound_select_tag else outbound_direct_tag;
  };
}

abbrev pub named_outcome : ConfigOptions → Outcome Outbound → Outcome Outbound
named_outcome opt (done o) = done (named_warp opt o)
named_outcome opt (failed e) = failed (append "failed to generate warp config: " e)
named_outcome opt crashed = crashed

-- GenerateWarpSingbox with its error's text, the tag and the detour
abbrev pub generated_warp : Outside → ConfigOptions → Outcome Outbound
generated_warp out opt = named_outcome opt (
    generate_warp_singbox out opt.warp.wireguard_config (record {
      host = opt.warp.clean_ip;
      port = opt.warp.clean_port;
      fake_packets = opt.warp.fake_packets;
      fake_packets_size = opt.warp.fake_packet_size;
      fake_packets_delay = opt.warp.fake_packet_delay;
      fake_packets_mode = opt.warp.fake_packet_mode;
    }))

-- The Warp outbound of the options, patched with a nil map.
unfoldable pub own_warp : Outside → ConfigOptions → Outcome (List Outbound)
own_warp out opt =
    if adds_warp opt
    then (generated_warp out opt >>= λ (o : Outbound).
        drop_error o (patch_warp out o (some opt) true none) >>= λ (o' : Outbound). done (o' ∷ []))
    else done []

-- OutboundMainProxyTag: the selector, or the Warp outbound once it is generated
unfoldable pub main_tag : Outside → ConfigOptions → String
main_tag out opt =
    if adds_warp opt && opt.warp.mode == "warp_over_proxy"
    then elim (generated_warp out opt) [ done o ↦ warp_tag | _ ↦ outbound_select_tag ]
    else outbound_select_tag

-- What the loop over the profile's outbounds has collected: the keys of directDNSDomains, the
-- outbounds, the tags of the groups, and the static addresses.
pub record Collected : Type 0 where
  pub keys : List String
  pub outbounds : List Outbound
  pub tags : List String
  pub static : Option StaticIps

abbrev pub is_skipped : String → Bool
is_skipped k =
    k == "direct"
    || (k == "block" || (k == "dns" || (k == "selector" || (k == "urltest" || k == "custom"))))

unfoldable pub keep_outbound :
    ConfigOptions → Collected → Outbound × String × Option StaticIps → Collected
keep_outbound opt c (o, domain, static) =
    let c₁ = record c {
      keys = if domain == "" then c.keys else insert_key domain c.keys;
      static = static;
    } in
    if is_skipped o.type then c₁ else record c₁ {
      tags = if contains o.tag "§hide§" then c.tags else c.tags ++ o.tag ∷ [];
      outbounds = c.outbounds ++ patch_hiddify opt o ∷ [];
    }

-- Each outbound meets what is outside anew.
unfoldable pub collect :
    (ℕ → Outside) → Codec → ConfigOptions → ℕ → List Outbound → Collected → Outcome Collected
unfolding keep_outbound
collect world codec opt n [] c = done c
collect world codec opt n (o ∷ os) c =
    patch_outbound (world n) codec opt o c.static >>= λ (r : Outbound × String × Option StaticIps).
    collect world codec opt (suc n) os (keep_outbound opt c r)

unfoldable pub collect_all :
    (ℕ → Outside) → Codec → ConfigOptions → StaticIps → List Outbound → Outcome Collected
unfolding collect own_warp
collect_all world codec opt static input = own_warp (world 0) opt >>= λ (warps : List Outbound).
    collect world codec opt 1 input
      (record { keys = []; outbounds = warps; tags = []; static = some static })
