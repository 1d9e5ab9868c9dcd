-- ===== src/Config/Rules/Full.antt =====
-- A list of full domains and bare hosts, joined by commas, as the configuration builder hands it to
-- MakeDNSRule.
use mathlib.Core.List.{append-nil, append_assoc}
use hiddify_core.Prelude.{
  String, ◌≡◌, refl, sym, ap, ◌∙◌, Bool, true, false, not, ◌&&◌, List, [], ◌∷◌, ◌++◌, all, arith,
  if◌then◌else◌, Bool-cases, inl, inr,
}
use hiddify_core.Config.Text.{has_prefix, trim_prefix, split, join}
use hiddify_core.Config.Text.Joining.{no_comma, split-join}
use hiddify_core.Config.Rules.{
  Rule, DefaultDnsRule, empty_dns_rule, add_dns_domain, add_dns_domains, make_dns_rule,
}

-- The item has no comma and is a full domain or has none of the five prefixes.
abbrev pub plain : String → Bool
plain k =
    no_comma k
    && (not (has_prefix k "geosite:")
        && (not (has_prefix k "domain:")
            && (not (has_prefix k "regexp:") && not (has_prefix k "keyword:"))))

abbrev pub with_domain : DefaultDnsRule → List String → DefaultDnsRule
with_domain o ds = record o { domain = ds }

plain-no_comma : (ks : List String) → all plain ks ≡ true → all no_comma ks ≡ true
plain-no_comma [] h = refl
plain-no_comma (k ∷ ks) h = ground (arith, plain-no_comma ks)

module _ (to_lower : String → String) where
  -- The domains of the items that have the prefix "full:", in lower case.
  abbrev pub full_domains : List String → List String
  full_domains [] = []
  full_domains (k ∷ ks) =
      if has_prefix k "full:"
      then to_lower (trim_prefix k "full:") ∷ full_domains ks
      else full_domains ks

  add_plain :
      (k : String) (o : DefaultDnsRule)
      → plain k ≡ true
      → add_dns_domain to_lower o k ≡ with_domain o (o.domain ++ full_domains (k ∷ []))
  unfolding add_dns_domain
  add_plain k o h =
      let g : has_prefix k "geosite:" ≡ false = ground arith in
      let d : has_prefix k "domain:" ≡ false = ground arith in
      let r : has_prefix k "regexp:" ≡ false = ground arith in
      let w : has_prefix k "keyword:" ≡ false = ground arith in
      elim (Bool-cases (has_prefix k "full:")) [
        | inl f ↦ rw (g, f)
        | inr f ↦ rw (g, f, d, r, w) (ap (with_domain o) (sym (append-nil o.domain)))
      ]

  full_domains-cons :
      (k : String) (ks : List String)
      → full_domains (k ∷ ks) ≡ full_domains (k ∷ []) ++ full_domains ks
  full_domains-cons k ks = elim (Bool-cases (has_prefix k "full:")) [
    | inl f ↦ rw f refl
    | inr f ↦ rw f refl
  ]

  add_plains :
      (ks : List String) (o : DefaultDnsRule)
      → all plain ks ≡ true
      → add_dns_domains to_lower o ks ≡ with_domain o (o.domain ++ full_domains ks)
  unfolding add_dns_domains
  add_plains [] o h = ap (with_domain o) (sym (append-nil o.domain))
  add_plains (k ∷ ks) o h =
      ap (λ o'. add_dns_domains to_lower o' ks) (add_plain k o (ground arith))
      ∙ (add_plains ks _ (ground arith)
          ∙ ap (with_domain o) (
              append_assoc o.domain (full_domains (k ∷ [])) (full_domains ks)
              ∙ ap (λ ds. o.domain ++ ds) (sym (full_domains-cons k ks))))

  -- The DNS rule of the items k, joined by commas, selects exactly the domains of those with the
  -- prefix "full:", in lower case and in order, if each item is such a one or has none of the five
  -- prefixes, and none has a comma.
  pub make_dns_rule-join :
      (k : String) (ks : List String) (r : Rule)
      → all plain (k ∷ ks) ≡ true
      → r.domains ≡ join (k ∷ ks)
      → make_dns_rule to_lower r ≡ with_domain empty_dns_rule (full_domains (k ∷ ks))
  unfolding make_dns_rule
  make_dns_rule-join k ks r h e =
      ap (λ s. add_dns_domains to_lower empty_dns_rule (split s)) e
      ∙ (ap (add_dns_domains to_lower empty_dns_rule) (split-join k ks (plain-no_comma (k ∷ ks) h))
          ∙ add_plains (k ∷ ks) empty_dns_rule h)
