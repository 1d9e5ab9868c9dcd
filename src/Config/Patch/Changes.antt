-- ===== src/Config/Patch/Changes.antt =====
-- Which fields of an outbound the patches change.
use hiddify_core.Prelude.{
  String, ◌≡◌, refl, ◌∙◌, Bool, false, ◌&&◌, ◌||◌, Option, none, some, arith, ◌==◌, if-elim,
  Returns, Returns-then,
}
use hiddify_core.Config.Options.{ConfigOptions}
use hiddify_core.Config.Sing.{Value, null, object, Fields, get, Tricks, Tls, Outbound}
use hiddify_core.Config.Sing.Reading.{get-put_other}
use hiddify_core.Config.Patch.{
  patch_mux, patch_fragment, is_tricky, is_empty_text, xray_fragment, set_xray, patch_xray, secured,
  set_tls, patch_secured, is_outbound_reality, is_group_or_dead, patch_tls_tricks, has_mux,
  patch_object,
}

-- The fields that the options allow to be changed.
abbrev pub may_change : Outbound → ConfigOptions → String → Bool
may_change base opt k =
    "tls" == k
    || ((opt.mux.enable && has_mux base.type && "multiplex" == k)
        || (opt.tls_tricks.enable_fragment
            && ("tcp_fast_open" == k
                || ("tls_fragment" == k || (base.type == "xray" && "xray_fragment" == k)))))

abbrev pub Kept : String → Fields → Fields → Type 0
Kept k obj o = get k o ≡ get k obj

module _ (base : Outbound) (opt : ConfigOptions) (k : String)
    (other : may_change base opt k ≡ false) where
  patch_fragment-Kept : (obj : Fields) → Kept k obj (patch_fragment opt obj)
  unfolding patch_fragment
  patch_fragment-Kept obj =
      if-elim (Kept k obj) opt.tls_tricks.enable_fragment
        (λ e.
          get-put_other "tls_fragment" k _ _ (ground arith)
          ∙ get-put_other "tcp_fast_open" k _ obj (ground arith))
        (λ e. refl)

  set_xray-Kept :
      (obj : Fields) (v : Value)
      → ("xray_fragment" == k) ≡ false
      → Returns (Kept k obj) (set_xray opt obj v)
  set_xray-Kept obj null h = get-put_other "xray_fragment" k _ obj h
  set_xray-Kept obj (object f) h =
      if-elim (Kept k obj) (is_empty_text (get "packets" f))
        (λ e. get-put_other "xray_fragment" k (xray_fragment opt) obj h) (λ e. refl)
  set_xray-Kept obj _ h = tt

  patch_xray-Kept : (obj : Fields) → Returns (Kept k obj) (patch_xray base opt obj)
  unfolding patch_xray
  patch_xray-Kept obj =
      if-elim (Returns (Kept k obj)) (base.type == "xray" && opt.tls_tricks.enable_fragment)
        (λ e. set_xray-Kept obj (get "xray_fragment" obj) (ground arith)) (λ e. refl)

  set_tls-Kept :
      (old : Option Tricks) (obj : Fields) (v : Value) → Kept k obj (set_tls opt old obj v)
  set_tls-Kept old obj (object tls) =
      get-put_other "tls" k _ _ (ground arith) ∙ patch_fragment-Kept obj
  set_tls-Kept old obj _ = refl

  patch_secured-Kept :
      (s : Option (Tls × Option String)) (obj : Fields) → Kept k obj (patch_secured opt s obj)
  unfolding patch_secured
  patch_secured-Kept none obj = refl
  patch_secured-Kept (some (t, kind)) obj =
      if-elim (Kept k obj) (is_tricky (some (t, kind)))
        (λ e. set_tls-Kept t.tricks obj (get "tls" obj)) (λ e. refl)

  patch_tls_tricks-Kept : (obj : Fields) → Returns (Kept k obj) (patch_tls_tricks base opt obj)
  unfolding patch_tls_tricks
  patch_tls_tricks-Kept obj =
      if-elim (Returns (Kept k obj)) (is_group_or_dead base.type || is_outbound_reality base)
        (λ e. refl)
        (λ e.
          Returns-then (Kept k obj) (Kept k obj) (patch_xray base opt obj) _ (patch_xray-Kept obj)
            (λ o h.
              if-elim (Kept k obj) (base.type == "direct") (λ _. patch_fragment-Kept o ∙ h)
                (λ _. patch_secured-Kept (secured base) o ∙ h)))

  -- The patches of an outbound change no field but "tls", the multiplex options, where these are
  -- enabled and the protocol has them, and, where fragments are enabled, those of fragments, for Xray
  -- with its own: every other field reads as before.
  pub patch_object-keeps : (obj : Fields) → Returns (Kept k obj) (patch_object base opt obj)
  unfolding patch_object patch_mux
  patch_object-keeps obj =
      Returns-then (Kept k obj) (Kept k obj) (patch_tls_tricks base opt obj) _
        (patch_tls_tricks-Kept obj)
        (λ o h.
          if-elim (Kept k obj) (has_mux base.type)
            (λ m.
              if-elim (Kept k obj) opt.mux.enable
                (λ e. get-put_other "multiplex" k _ o (ground arith) ∙ h) (λ e. h))
            (λ m. h))
