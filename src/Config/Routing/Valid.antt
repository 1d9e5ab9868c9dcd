-- ===== src/Config/Routing/Valid.antt =====
-- What holds of all DNS rules holds of those that are kept.
use hiddify_core.Prelude.{List, [], ◌∷◌, All, if-elim}
use hiddify_core.Config.Rules.{DefaultDnsRule}
use hiddify_core.Config.Routing.{Library, valid_dns_rules}

pub valid_dns_rules-All :
    (lib : Library) (P : DefaultDnsRule → Type 0) (rs : List DefaultDnsRule)
    → All P rs
    → All P (valid_dns_rules lib rs)
unfolding valid_dns_rules
valid_dns_rules-All lib P [] h = tt
valid_dns_rules-All lib P (r ∷ rs) h =
    let rest = valid_dns_rules-All lib P rs h.1 in
    if-elim (All P) (lib.is_valid_dns_rule r) (λ _. (h.0, rest)) (λ _. rest)
