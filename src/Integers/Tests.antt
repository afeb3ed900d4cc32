-- ===== src/Integers/Tests.antt =====
-- src/integers.rs at concrete values.
use vt_muxer.Common.{Ordering, false, some, ◌≡◌, ◌≢◌, refl, ◌↔◌, ◌<◌, arith}
use vt_muxer.Integers.{NetworkOrderU16, new, get, cmp, partial_cmp, lt}
use vt_muxer.Integers.Order.{partial_cmp_wrong}

abbrev port_80 : NetworkOrderU16
port_80 = record { first = 0; second = 80 }

abbrev port_8080 : NetworkOrderU16
port_8080 = record { first = 31; second = 144 }

new_8080 : new 8080 ≡ port_8080
unfolding new
new_8080 = refl

partial_cmp_wrong_example :
    (partial_cmp port_8080 port_80 ≡ some Ordering.eq)
    × (partial_cmp port_8080 port_80 ≢ some (cmp port_8080 port_80))
    × ((cmp port_8080 port_80 ≡ Ordering.lt) ↔ (get port_8080 < get port_80))
    × (lt port_8080 port_80 ≡ false)
unfolding get
partial_cmp_wrong_example = partial_cmp_wrong port_8080 port_80 (λ h. omega (arith, h))
