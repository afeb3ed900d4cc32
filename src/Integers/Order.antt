-- ===== src/Integers/Order.antt =====
-- src/integers.rs: what the comparison traits answer.
use vt_muxer.Common.{ℕ, ◌<◌, Ordering, true, false, some, ◌≡◌, ◌≢◌, ◌↔◌, arith}
use vt_muxer.Integers.{
  NetworkOrderU16, IsU16, get, eq, cmp, partial_cmp, lt, eq_u16, partial_cmp_u16, lt_u16, le_u16,
  gt_u16, ge_u16,
}

-- `cmp` answers `Equal` exactly on values that `==` calls equal, and `Less` exactly where the first
-- number is the smaller one, for all pairs of `u16` values.
pub cmp_iff :
    (a b : NetworkOrderU16)
    → IsU16 a
    → IsU16 b
    → ((cmp a b ≡ Ordering.eq) ↔ (eq a b ≡ true)) × ((cmp a b ≡ Ordering.lt) ↔ (get a < get b))
unfolding cmp eq get
cmp_iff a b va vb = ground arith

pub eq_iff : (a b : NetworkOrderU16) → (eq a b ≡ true) ↔ (a ≡ b)
unfolding eq
eq_iff a b = (λ h. ground arith, λ h. ground arith)

pub partial_cmp-eq : (a b : NetworkOrderU16) → partial_cmp a b ≡ some Ordering.eq
unfolding partial_cmp cmp
partial_cmp-eq a b = ground arith

cmp-lt_iff : (a b : NetworkOrderU16) → (cmp a b ≡ Ordering.lt) ↔ (get a < get b)
unfolding cmp
cmp-lt_iff a b = ground arith

cmp-ne : (a b : NetworkOrderU16) → get a ≢ get b → cmp a b ≢ Ordering.eq
unfolding cmp
cmp-ne a b h = ground arith

-- `PartialOrd` disagrees with `Ord` on every two different numbers: `partial_cmp` answers
-- `Some(Equal)`, which is not `Some(cmp)`, and `<` answers false also where `cmp` answers `Less`,
-- which it does exactly where the first number is the smaller one.
pub partial_cmp_wrong :
    (a b : NetworkOrderU16)
    → get a ≢ get b
    → (partial_cmp a b ≡ some Ordering.eq)
      × (partial_cmp a b ≢ some (cmp a b))
      × ((cmp a b ≡ Ordering.lt) ↔ (get a < get b))
      × (lt a b ≡ false)
unfolding lt
partial_cmp_wrong a b h =
    let same = partial_cmp-eq a b in
    let different = cmp-ne a b h in
    (same, ground (arith, different, same), cmp-lt_iff a b, ground (arith, same))

-- The comparisons with a plain `u16` are those of the number that is stored.
pub u16_tests :
    (a : NetworkOrderU16) (x : ℕ)
    → ((eq_u16 a x ≡ true) ↔ (partial_cmp_u16 a x ≡ some Ordering.eq))
      × ((lt_u16 a x ≡ true) ↔ (partial_cmp_u16 a x ≡ some Ordering.lt))
      × ((le_u16 a x ≡ true) ↔ (partial_cmp_u16 a x ≢ some Ordering.gt))
      × ((gt_u16 a x ≡ true) ↔ (partial_cmp_u16 a x ≡ some Ordering.gt))
      × ((ge_u16 a x ≡ true) ↔ (partial_cmp_u16 a x ≢ some Ordering.lt))
unfolding eq_u16 partial_cmp_u16 lt_u16 le_u16 gt_u16 ge_u16
u16_tests a x = ground arith
