-- ===== src/Address/Endpoint/Found.antt =====
-- What RandomWarpEndpoint finds.
use hiddify_core.Prelude.{
  ℕ, ◌%◌, ◌<◌, ◌≤◌, ◌≡◌, Bool, true, false, Option, none, some, List, length, Memᴰ,
}
use Prim.Native.Nat.{◌^◌}
use hiddify_core.Address.{IpAddr, Prefix, masked_value}
use hiddify_core.Address.Within.{IsValid, Within}
use hiddify_core.Address.Endpoint.{warp_prefixes, prefix_at, is_wanted}

-- A prefix that addresses can be drawn from.
record IsDrawable (p : Prefix) : Type 0 where
  size : ℕ
  sized : p.bits ≡ some size
  valid : IsValid p.addr size
  beyond : p.addr.is_4 ≡ false → 2 ^ 48 ≤ masked_value p.addr size

-- Does the number choose a prefix of a family asked for?
unfoldable pub chooses : List Prefix → Bool → Bool → ℕ → Bool
chooses cidrs v4 v6 draw = elim (prefix_at cidrs (draw % length cidrs)) [
  | none ↦ false
  | some p ↦ is_wanted v4 v6 p
]

-- An address inside a prefix of Cloudflare, of a family asked for, and a port.
pub record Endpoint (v4 v6 : Bool) (e : IpAddr × ℕ) : Type 0 where
  pub cidr : Prefix
  pub size : ℕ
  pub listed : Memᴰ cidr warp_prefixes
  pub sized : cidr.bits ≡ some size
  pub wanted : is_wanted v4 v6 cidr ≡ true
  pub within : Within cidr.addr size (e.0)
  pub port : (0 < e.1) × (e.1 < 65536)

abbrev pub Found : Bool → Bool → Option (IpAddr × ℕ) → Type 0
Found v4 v6 none = ⊥
Found v4 v6 (some e) = Endpoint v4 v6 e

-- The loop ends with a prefix that was asked for once a number that is drawn chooses one.
record Chosen (cidrs : List Prefix) (v4 v6 : Bool) (p : Prefix) : Type 0 where
  listed : Memᴰ p cidrs
  drawable : IsDrawable p
  wanted : is_wanted v4 v6 p ≡ true
