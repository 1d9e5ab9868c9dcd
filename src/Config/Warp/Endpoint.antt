-- ===== src/Config/Warp/Endpoint.antt =====
-- The ports of pkg/warp/endpoint.go. What rand.Intn answers is a parameter, taken below its bound.
use hiddify_core.Prelude.{
  ℕ, zero, suc, ◌%◌, ◌<◌, ◌≡◌, refl, true, ◌&&◌, List, [], ◌∷◌, length, all, ltb, arith,
}

unfoldable pub warp_ports : List ℕ
warp_ports =
    500 ∷ 854 ∷ 859 ∷ 864 ∷ 878 ∷ 880 ∷ 890 ∷ 891 ∷ 894 ∷ 903 ∷ 908 ∷ 928 ∷ 934 ∷ 939 ∷ 942 ∷ 943
    ∷ 945 ∷ 946 ∷ 955 ∷ 968 ∷ 987 ∷ 988 ∷ 1002 ∷ 1010 ∷ 1014 ∷ 1018 ∷ 1070 ∷ 1074 ∷ 1180 ∷ 1387
    ∷ 1701 ∷ 1843 ∷ 2371 ∷ 2408 ∷ 2506 ∷ 3138 ∷ 3476 ∷ 3581 ∷ 3854 ∷ 4177 ∷ 4198 ∷ 4233 ∷ 4500
    ∷ 5279 ∷ 5956 ∷ 7103 ∷ 7152 ∷ 7156 ∷ 7281 ∷ 7559 ∷ 8319 ∷ 8742 ∷ 8854 ∷ 8886 ∷ []

-- `ports[i]`; the index is in range
abbrev pub at : List ℕ → ℕ → ℕ
at [] i = 0
at (p ∷ ps) zero = p
at (p ∷ ps) (suc i) = at ps i

-- RandomWarpPort, of the number that is drawn
unfoldable pub random_warp_port : ℕ → ℕ
unfolding warp_ports
random_warp_port draw = at warp_ports (draw % length warp_ports)

all-at :
    (ps : List ℕ) (i : ℕ)
    → all (λ p. ltb 0 p && ltb p 65536) ps ≡ true
    → i < length ps
    → (0 < at ps i) × (at ps i < 65536)
all-at [] i h lt = absurd (omega arith)
all-at (p ∷ ps) zero h lt = ground arith
all-at (p ∷ ps) (suc i) h lt = all-at ps i (ground arith) (omega arith)

-- A port that is drawn is never 0 and fits in 16 bits.
pub random_warp_port_bounds :
    (draw : ℕ) → (0 < random_warp_port draw) × (random_warp_port draw < 65536)
unfolding random_warp_port
random_warp_port_bounds draw = all-at warp_ports (draw % 54) refl (omega arith)
