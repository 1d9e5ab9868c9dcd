-- ===== src/Address/Examples.antt =====
-- Concrete runs of the theorems on addresses.
use hiddify_core.Prelude.{◌≡◌, refl, true, done}
use hiddify_core.Address.{random_ip_from_prefix}
use hiddify_core.Address.Endpoint.{prefix_4}
use hiddify_core.Address.Endpoint.Found.{Found}

-- 188.114.96.0/24 and the number 7
test_drawn :
    random_ip_from_prefix 7 (prefix_4 188 114 96)
    ≡ done (record { is_4 = true; value = 3161612295 })
unfolding random_ip_from_prefix
test_drawn = refl
