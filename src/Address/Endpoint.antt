-- ===== src/Address/Endpoint.antt =====
-- pkg/warp/endpoint.go: WarpPrefixes, RandomWarpPrefix and RandomWarpEndpoint. The numbers that are
-- drawn are a parameter, a list for the loop that draws until a prefix is of a family asked for.
pub mod Found
use hiddify_core.Prelude.{
  ℕ, zero, suc, ◌+◌, ◌*◌, ◌%◌, Bool, true, false, not, ◌&&◌, ◌||◌, Option, none, some, List, [],
  ◌∷◌, length, if◌then◌else◌, Outcome, done, crashed, ◌>>=◌,
}
use Prim.Native.Nat.{◌^◌}
use hiddify_core.Address.{IpAddr, Prefix, random_ip_from_prefix}
use hiddify_core.Config.Warp.Endpoint.{random_warp_port}

-- a.b.c.0/24
abbrev pub prefix_4 : ℕ → ℕ → ℕ → Prefix
prefix_4 a b c = record {
  addr = record { is_4 = true; value = a * 2 ^ 24 + b * 2 ^ 16 + c * 2 ^ 8 };
  bits = some 24;
}

-- 2606:4700:x::/64
abbrev pub prefix_6 : ℕ → Prefix
prefix_6 x = record {
  addr = record { is_4 = false; value = (9734 * 2 ^ 32 + 18176 * 2 ^ 16 + x) * 2 ^ 80 };
  bits = some 64;
}

unfoldable pub warp_prefixes : List Prefix
warp_prefixes =
    prefix_4 162 159 192
    ∷ prefix_4 162 159 193
    ∷ prefix_4 162 159 195
    ∷ prefix_4 188 114 96
    ∷ prefix_4 188 114 97
    ∷ prefix_4 188 114 98
    ∷ prefix_4 188 114 99
    ∷ prefix_6 208
    ∷ prefix_6 209
    ∷ []

-- `cidrs[i]`
unfoldable pub prefix_at : List Prefix → ℕ → Option Prefix
prefix_at [] i = none
prefix_at (p ∷ ps) zero = some p
prefix_at (p ∷ ps) (suc i) = prefix_at ps i

unfoldable pub is_wanted : Bool → Bool → Prefix → Bool
is_wanted v4 v6 p = (v4 && p.addr.is_4) || (v6 && not p.addr.is_4)

-- The loop of RandomWarpPrefix, over the numbers that are drawn: none where it goes on after them.
unfoldable pub chosen_prefix : List Prefix → Bool → Bool → List ℕ → Outcome (Option Prefix)
unfolding prefix_at is_wanted
chosen_prefix cidrs v4 v6 [] = done none
chosen_prefix cidrs v4 v6 (draw ∷ draws) =
    let rest = chosen_prefix cidrs v4 v6 draws in
    elim (prefix_at cidrs (draw % length cidrs)) [
      | none ↦ crashed
      | some cidr ↦ if is_wanted v4 v6 cidr then done (some cidr) else rest
    ]

unfoldable pub random_warp_prefix : Bool → Bool → List ℕ → Outcome (Option Prefix)
unfolding chosen_prefix warp_prefixes
random_warp_prefix v4 v6 draws =
    if not v4 && not v6 then crashed else chosen_prefix warp_prefixes v4 v6 draws

-- An address and a port, of the numbers that are drawn for the host part and for the port.
abbrev pub endpoint_in : ℕ → ℕ → Option Prefix → Outcome (Option (IpAddr × ℕ))
endpoint_in host port none = done none
endpoint_in host port (some cidr) =
    random_ip_from_prefix host cidr >>= λ (a : IpAddr). done (some (a, random_warp_port port))

-- RandomWarpEndpoint
unfoldable pub random_warp_endpoint : Bool → Bool → List ℕ → ℕ → ℕ → Outcome (Option (IpAddr × ℕ))
unfolding random_warp_prefix
random_warp_endpoint v4 v6 draws host port =
    random_warp_prefix v4 v6 draws >>= λ (p : Option Prefix). endpoint_in host port p
