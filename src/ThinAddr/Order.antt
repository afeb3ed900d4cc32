-- ===== src/ThinAddr/Order.antt =====
-- src/thin_addr.rs: the derived comparisons of `SocketAddr`.
use vt_muxer.Common.{ℕ, ◌≡◌, ◌≢◌, refl, ap, ◌↔◌, true, some, List, [], ◌∷◌, arith, Ordering}
use vt_muxer.Integers
use vt_muxer.Integers.Order.{partial_cmp-eq, cmp_iff, eq_iff}
use vt_muxer.ThinAddr.{SocketAddr, IsSocket, cmp_bytes, eq_bytes, eq, cmp, partial_cmp}

cmp_bytes_self : (xs : List ℕ) → cmp_bytes xs xs ≡ Ordering.eq
unfolding cmp_bytes
cmp_bytes_self [] = refl
cmp_bytes_self (x ∷ xs) = ground (arith, cmp_bytes_self xs)

cmp_bytes-eq : (xs ys : List ℕ) → cmp_bytes xs ys ≡ Ordering.eq → xs ≡ ys
unfolding cmp_bytes
cmp_bytes-eq [] [] h = refl
cmp_bytes-eq [] (y ∷ ys) h = cc
cmp_bytes-eq (x ∷ xs) [] h = cc
cmp_bytes-eq (x ∷ xs) (y ∷ ys) h = ground (arith, cmp_bytes-eq xs ys)

eq_bytes_iff : (xs ys : List ℕ) → (eq_bytes xs ys ≡ true) ↔ (xs ≡ ys)
unfolding eq_bytes
eq_bytes_iff [] [] = (λ _. refl, λ _. refl)
eq_bytes_iff [] (y ∷ ys) = (λ h. cc, λ h. cc)
eq_bytes_iff (x ∷ xs) [] = (λ h. cc, λ h. cc)
eq_bytes_iff (x ∷ xs) (y ∷ ys) =
    (λ h. ground (arith, (eq_bytes_iff xs ys).0), λ h. ground (arith, (eq_bytes_iff xs ys).1))

pub socket_eq_iff : (a b : SocketAddr) → (eq a b ≡ true) ↔ (a ≡ b)
unfolding eq
socket_eq_iff a b = (
  λ h. ground (arith, eq_bytes_iff a.ip.octets b.ip.octets, eq_iff a.port b.port),
  λ h. ground (arith, eq_bytes_iff a.ip.octets b.ip.octets, eq_iff a.port b.port),
)

-- For all valid addresses, `==` and `cmp` agree that two of them are equal exactly if they are one.
pub eq-cmp_iff :
    (a b : SocketAddr)
    → IsSocket a
    → IsSocket b
    → ((eq a b ≡ true) ↔ (a ≡ b)) × ((cmp a b ≡ Ordering.eq) ↔ (a ≡ b))
eq-cmp_iff a b va vb = (socket_eq_iff a b, (cmp_sound, cmp_complete))
  where
    ports : (Integers.cmp a.port b.port ≡ Ordering.eq) ↔ (a.port ≡ b.port)
    ports =
        let same = (cmp_iff a.port b.port va.port_valid vb.port_valid).0 in
        let one = eq_iff a.port b.port in (λ h. one.0 (same.0 h), λ h. same.1 (one.1 h))

    cmp_sound : cmp a b ≡ Ordering.eq → a ≡ b
    cmp_sound h = unfold cmp in ground (arith, cmp_bytes-eq a.ip.octets b.ip.octets, ports)

    cmp_complete : a ≡ b → cmp a b ≡ Ordering.eq
    cmp_complete h =
        unfold cmp in
        ground (
          arith,
          ap (λ (s : SocketAddr). s.ip.octets) h,
          ap (λ (s : SocketAddr). s.port) h,
          cmp_bytes_self a.ip.octets,
          ports,
        )

-- `PartialOrd` does not see the ports: two addresses that differ, with the same octets, are `Equal`
-- for `partial_cmp`, while `==` and `cmp` tell them apart.
pub partial_cmp_blind :
    (a b : SocketAddr)
    → IsSocket a
    → IsSocket b
    → a.ip ≡ b.ip
    → a ≢ b
    → (partial_cmp a b ≡ some Ordering.eq) × (cmp a b ≢ Ordering.eq) × (eq a b ≢ true)
unfolding partial_cmp
partial_cmp_blind a b va vb same ne = (
  ground (arith, cmp_bytes_self a.ip.octets, partial_cmp-eq a.port b.port),
  λ h. ne ((eq-cmp_iff a b va vb).1.0 h),
  λ h. ne ((eq-cmp_iff a b va vb).0.0 h),
)
