-- ===== src/Model/Addresses/Tests.antt =====
-- Addresses that are accepted and refused.
use lab_remote_go.Common.{◌≡◌, refl, true, false, [], ◌∷◌}
use lab_remote_go.Model.Addresses.{is_ip, ipv6_groups}

-- "10.0.0.1", "10.0.01.1", "::1", "1::2::3", "fe80::1.2.3.4"
is_ip_loopback : is_ip (58 ∷ 58 ∷ 49 ∷ []) ≡ true
unfolding is_ip ipv6_groups
is_ip_loopback = refl

is_ip_four : is_ip (49 ∷ 48 ∷ 46 ∷ 48 ∷ 46 ∷ 48 ∷ 46 ∷ 49 ∷ []) ≡ true
unfolding is_ip ipv6_groups
is_ip_four = refl

is_ip_leading_zero : is_ip (49 ∷ 48 ∷ 46 ∷ 48 ∷ 46 ∷ 48 ∷ 49 ∷ 46 ∷ 49 ∷ []) ≡ false
unfolding is_ip ipv6_groups
is_ip_leading_zero = refl

is_ip_two_gaps : is_ip (49 ∷ 58 ∷ 58 ∷ 50 ∷ 58 ∷ 58 ∷ 51 ∷ []) ≡ false
unfolding is_ip ipv6_groups
is_ip_two_gaps = refl

is_ip_embedded :
    is_ip (102 ∷ 101 ∷ 56 ∷ 48 ∷ 58 ∷ 58 ∷ 49 ∷ 46 ∷ 50 ∷ 46 ∷ 51 ∷ 46 ∷ 52 ∷ []) ≡ true
unfolding is_ip ipv6_groups
is_ip_embedded = refl
