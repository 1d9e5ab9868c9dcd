-- ===== src/Address/Within.antt =====
-- A random address of a prefix is one of its addresses.
use mathlib.Core.Path.{subst}
use native.Mathlib.Nat.{
  mod-lt, add-zero, zero-add, one-mul, pow-succ', mul_assoc, div-lt_iff_lt-mul, pow-le-pow_right,
  mul-add-div_right, div-eq_of_lt,
}
use hiddify_core.Prelude.{
  ℕ, zero, suc, ◌+◌, ◌-◌, ◌*◌, ◌/◌, ◌%◌, ◌<◌, ◌≤◌, ◌≡◌, refl, sym, ap, ◌∙◌, Bool, true, false, some,
  arith, done, Ensures,
}
use Prim.Native.Nat.{◌^◌}
use hiddify_core.Address.{
  IpAddr, Prefix, bit_len, host_count, masked_value, is_mapped, from_number, random_ip_from_prefix,
}

-- A prefix of `b` bits that netip gives: its address fits, and so do the bits.
pub record IsValid (a : IpAddr) (b : ℕ) : Type 0 where
  pub fits : a.value < 2 ^ bit_len a
  pub bits : b ≤ bit_len a

-- An address of the family of the prefix, with the same first `b` bits.
pub record Within (a : IpAddr) (b : ℕ) (r : IpAddr) : Type 0 where
  pub family : r.is_4 ≡ a.is_4
  pub fits : r.value < 2 ^ bit_len a
  pub same : r.value / host_count a b ≡ a.value / host_count a b

pos_pow : (h : ℕ) → 0 < 2 ^ h
pos_pow h = pow-le-pow_right {n = 2} (omega arith) {i = 0} {j = h} (omega arith)

same_part : (m r p : ℕ) → r < p → (m * p + r) / p ≡ m
same_part m r p h =
    mul-add-div_right (omega arith) m r ∙ ap (λ k. m + k) (div-eq_of_lt h) ∙ add-zero m

below : (m r p q : ℕ) → r < p → m < q → m * p + r < q * p
below m r p q hr hm = grind arith

the_suc : (b h : ℕ) → suc b + h ≡ suc (b + h)
the_suc b h = omega arith

pow-add : (b h : ℕ) → 2 ^ (b + h) ≡ 2 ^ b * 2 ^ h
pow-add zero h = ap (λ k. 2 ^ k) (zero-add h) ∙ sym (one-mul (2 ^ h))
pow-add (suc b) h =
    let e : 2 ^ (suc b + h) ≡ 2 * 2 ^ (b + h) =
      ap (λ k. 2 ^ k) (the_suc b h) ∙ pow-succ' 2 (b + h) in
    e
    ∙ ap (λ k. 2 * k) (pow-add b h)
    ∙ sym (mul_assoc 2 (2 ^ b) (2 ^ h))
    ∙ ap (λ k. k * 2 ^ h) (sym (pow-succ' 2 b))

-- The first bits of a number are below the power of their number.
first_bits : (v l b : ℕ) → v < 2 ^ l → b ≤ l → v / 2 ^ (l - b) < 2 ^ b
first_bits v l b hv hb =
    let e : 2 ^ l ≡ 2 ^ b * 2 ^ (l - b) = ap (λ k. 2 ^ k) (omega arith) ∙ pow-add b (l - b) in
    (div-lt_iff_lt-mul (pos_pow (l - b))).1 (rw (sym e) hv)

-- The number of an address of the prefix, by its host part.
in_prefix :
    (v l b draw : ℕ)
    → v < 2 ^ l
    → b ≤ l
    → (v / 2 ^ (l - b) * 2 ^ (l - b) + draw % 2 ^ (l - b) < 2 ^ l)
      × ((v / 2 ^ (l - b) * 2 ^ (l - b) + draw % 2 ^ (l - b)) / 2 ^ (l - b) ≡ v / 2 ^ (l - b))
in_prefix v l b draw hv hb =
    let p = 2 ^ (l - b) in
    let m = v / p in
    let r : draw % p < p = mod-lt draw (pos_pow (l - b)) in
    let e : 2 ^ l ≡ 2 ^ b * p = ap (λ k. 2 ^ k) (omega arith) ∙ pow-add b (l - b) in
    (rw e (below m (draw % p) p (2 ^ b) r (first_bits v l b hv hb)), same_part m (draw % p) p r)

from_number-mapped :
    (x : ℕ)
    → x < 2 ^ 32
    → from_number (65535 * 2 ^ 32 + x) ≡ done (record { is_4 = true; value = x })
unfolding from_number
from_number-mapped x h =
    let q : (65535 * 2 ^ 32 + x) / 2 ^ 32 ≡ 65535 = omega arith in
    let r : (65535 * 2 ^ 32 + x) % 2 ^ 32 ≡ x = omega arith in rw (q, r) (ground arith)

from_number-plain :
    (n : ℕ) → 2 ^ 48 ≤ n → n < 2 ^ 128 → from_number n ≡ done (record { is_4 = false; value = n })
unfolding from_number
from_number-plain n lo hi = ground arith

is_mapped-beyond : (n : ℕ) → 2 ^ 48 ≤ n → is_mapped n ≡ false
is_mapped-beyond n h = ground arith

-- What is drawn, of either family.
drawn_4 :
    (draw v b : ℕ)
    → v < 2 ^ 32
    → b ≤ 32
    → random_ip_from_prefix draw
        (record { addr = record { is_4 = true; value = v }; bits = some b })
      ≡ done (record { is_4 = true; value = v / 2 ^ (32 - b) * 2 ^ (32 - b) + draw % 2 ^ (32 - b) })
unfolding random_ip_from_prefix
drawn_4 draw v b hv hb =
    let p = 2 ^ (32 - b) in
    ap from_number (omega arith)
    ∙ from_number-mapped (v / p * p + draw % p) (in_prefix v 32 b draw hv hb).0

drawn_6 :
    (draw v b : ℕ)
    → v < 2 ^ 128
    → b ≤ 128
    → 2 ^ 48 ≤ v / 2 ^ (128 - b) * 2 ^ (128 - b)
    → random_ip_from_prefix draw
        (record { addr = record { is_4 = false; value = v }; bits = some b })
      ≡ done (record {
        is_4 = false;
        value = v / 2 ^ (128 - b) * 2 ^ (128 - b) + draw % 2 ^ (128 - b);
      })
unfolding random_ip_from_prefix
drawn_6 draw v b hv hb beyond =
    let p = 2 ^ (128 - b) in
    rw (is_mapped-beyond (v / p * p) beyond)
      (from_number-plain (v / p * p + draw % p) (omega arith) (in_prefix v 128 b draw hv hb).0)

random_ip-Within :
    (draw : ℕ) (is_4 : Bool) (v b : ℕ)
    → IsValid (record { is_4 = is_4; value = v }) b
    → (is_4 ≡ false → 2 ^ 48 ≤ masked_value (record { is_4 = is_4; value = v }) b)
    → Ensures (Within (record { is_4 = is_4; value = v }) b) (
        random_ip_from_prefix draw
          (record { addr = record { is_4 = is_4; value = v }; bits = some b }))
random_ip-Within draw true v b ok beyond =
    let h = in_prefix v 32 b draw ok.fits ok.bits in
    rw (drawn_4 draw v b ok.fits ok.bits) (record { family = refl; fits = h.0; same = h.1 })
random_ip-Within draw false v b ok beyond =
    let h = in_prefix v 128 b draw ok.fits ok.bits in
    rw (drawn_6 draw v b ok.fits ok.bits (beyond refl))
      (record { family = refl; fits = h.0; same = h.1 })

-- Of a prefix whose address and bits fit its family, and that for IPv6 lies beyond the first 2^48
-- addresses, among which are those that stand for IPv4: there is a random address, without an error or
-- a panic, it is of the prefix's family, and its first bits are those of the prefix.
pub random_ip_from_prefix-Within :
    (draw : ℕ) (p : Prefix) (b : ℕ)
    → p.bits ≡ some b
    → IsValid p.addr b
    → (p.addr.is_4 ≡ false → 2 ^ 48 ≤ masked_value p.addr b)
    → Ensures (Within p.addr b) (random_ip_from_prefix draw p)
random_ip_from_prefix-Within draw p b e ok beyond =
    subst
      (λ o.
        Ensures (Within p.addr b) (random_ip_from_prefix draw (record { addr = p.addr; bits = o })))
      (sym e) (random_ip-Within draw p.addr.is_4 p.addr.value b ok beyond)
