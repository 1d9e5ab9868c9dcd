-- ===== src/Config/Inbounds/Listeners.antt =====
-- Who can reach the inbounds.
use hiddify_core.Prelude.{
  String, ◌≡◌, ◌≢◌, refl, Bool, true, false, not, ◌&&◌, ◌||◌, List, [], ◌∷◌, ◌++◌, any, All,
  All-append, arith, ◌==◌, if-elim,
}
use hiddify_core.Config.Options.{
  ConfigOptions, DomainStrategy, as_is, use_ipv4, use_ipv6, other_strategy,
}
use hiddify_core.Config.Inbounds.{
  Inbound, tun_inet4, tun_inet6, tun_inbound, tun_inbounds, mixed_inbound, dns_inbound, set_inbound,
}

-- The inbound listens on no socket of its own, or on the loopback address.
abbrev pub Local : Inbound → Type 0
Local i = (i.listen == "" || i.listen == "127.0.0.1") ≡ true

abbrev pub has_inbound : List Inbound → String → Bool
has_inbound is t = any (λ i. i.tag == t) is

-- A tunnel has an address, of the families that the mode asks for.
abbrev pub Addressed : Inbound → Type 0
Addressed i = (i.type == "tun") ≡ true → i.inet4_address ++ i.inet6_address ≢ []

module _ (opt : ConfigOptions) where
  mode_addressed : (m : DomainStrategy) → tun_inet4 m ++ tun_inet6 m ≢ []
  unfolding tun_inet4 tun_inet6
  mode_addressed as_is = λ e. cc e
  mode_addressed use_ipv4 = λ e. cc e
  mode_addressed use_ipv6 = λ e. cc e
  mode_addressed (other_strategy n) = λ e. cc e

  -- What holds of the inbounds that setInbound makes of the given ones.
  pub record Reached (given is : List Inbound) : Type 0 where
    pub closed : opt.route.allow_connection_from_lan ≡ false → All Local given → All Local is
    pub addressed : All Addressed given → All Addressed is
    pub tunnel :
        has_inbound given "tun-in" ≡ false
        → has_inbound is "tun-in" ≡ (opt.inbound.enable_tun && not opt.inbound.enable_tun_service)
    pub mixed : has_inbound is "mixed-in" ≡ true
    pub dns : has_inbound is "dns-in" ≡ true

  has_inbound-append :
      (xs ys : List Inbound) (t : String)
      → has_inbound (xs ++ ys) t ≡ (has_inbound xs t || has_inbound ys t)
  has_inbound-append [] ys t = refl
  has_inbound-append (x ∷ xs) ys t = ground (arith, has_inbound-append xs ys t)

  -- Where connections from the local network are not allowed and the given inbounds are local, all are
  -- afterwards. Every tunnel has an address, where the given ones have. Where no given inbound is
  -- called so, there is a tunnel exactly where the options ask for one and not for the tunnel service.
  -- The inbounds for proxies and for DNS are there.
  pub set_inbound-Reached : (given : List Inbound) → Reached given (set_inbound opt given)
  unfolding set_inbound tun_inbounds tun_inbound mixed_inbound dns_inbound
  set_inbound-Reached given = record {
    closed = λ no h. All-append Local given _ h (
        All-append Local (tun_inbounds opt) _
          (if-elim (All Local) opt.inbound.enable_tun_service (λ _. tt)
            (λ _. if-elim (All Local) opt.inbound.enable_tun (λ _. (refl, tt)) (λ _. tt)))
          (rw no refl, (rw no refl, tt)));
    addressed = λ h. All-append Addressed given _ h (
        All-append Addressed (tun_inbounds opt) _
          (if-elim (All Addressed) opt.inbound.enable_tun_service (λ _. tt)
            (λ _.
              if-elim (All Addressed) opt.inbound.enable_tun
                (λ _. ((λ _. mode_addressed opt.route.ipv6_mode), tt)) (λ _. tt)))
          ((λ e. cc e), ((λ e. cc e), tt)));
    tunnel = λ h. rw (has_inbound-append given _ "tun-in", h) (ground arith);
    mixed = rw (has_inbound-append given _ "mixed-in") (ground arith);
    dns = rw (has_inbound-append given _ "dns-in") (ground arith);
  }
