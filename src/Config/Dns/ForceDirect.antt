-- ===== src/Config/Dns/ForceDirect.antt =====
-- The rule that sends the domains of the proxies' servers to the direct DNS.
use hiddify_core.Prelude.{String, ◌≡◌, ap, ◌∙◌, true, List, ◌∷◌, all}
use hiddify_core.Config.Text.{join}
use hiddify_core.Config.Tags.{dns_direct_tag}
use hiddify_core.Config.Rules.{DefaultDnsRule, empty_dns_rule}
use hiddify_core.Config.Rules.Full.{plain, full_domains, make_dns_rule-join}
use hiddify_core.Config.Options.{ConfigOptions}
use hiddify_core.Config.Dns.{
  Net, DnsSettings, with_remote_host, force_rule, prepend_rule, add_force_direct,
}

module _ (net : Net) (opt : ConfigOptions) (s : DnsSettings) where
  -- Where Go goes through the keys, the host of the remote DNS server among them, as d ∷ ds, and each
  -- has the prefix "full:" or none of the five prefixes, and no comma, one rule for the direct DNS is
  -- put in front of the others. Its only condition is the list of the domains of the keys with the
  -- prefix "full:". A key without a prefix, as the host of the remote DNS server is added, is not in
  -- it, and where no key has one the list is empty: the rule then has no condition at all.
  pub add_force_direct-domains :
      (keys : List String) (k : String) (ks : List String) (d : String) (ds : List String)
      → with_remote_host net opt keys ≡ k ∷ ks
      → net.order (k ∷ ks) ≡ d ∷ ds
      → all plain (d ∷ ds) ≡ true
      → (add_force_direct net opt keys s).rules
        ≡ record empty_dns_rule {
          domain = full_domains net.to_lower (d ∷ ds);
          server = dns_direct_tag;
        }
          ∷ s.rules
  unfolding add_force_direct
  add_force_direct-domains keys k ks d ds e o h =
      ap (λ ks'. prepend_rule net ks' s.rules) e
      ∙ ap {A = DefaultDnsRule} (λ r. record r { server = dns_direct_tag } ∷ s.rules)
          (make_dns_rule-join net.to_lower d ds (force_rule (join (net.order (k ∷ ks)))) h
            (ap join o))
