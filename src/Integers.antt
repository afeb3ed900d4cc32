-- ===== src/Integers.antt =====
-- src/integers.rs: a `u16` kept as its two bytes in network order, with the comparisons that the
-- file implements on it. A `u16` is a number below 65536.
pub mod RoundTrip
pub mod Order
mod Tests
use vt_muxer.Common.{
  ℕ, ◌+◌, ◌*◌, ◌/◌, ◌%◌, ◌<◌, compare, Ordering, Bool, true, false, Option, none, some, ◌==◌, ltb,
  leb,
}

-- The array `[u8; 2]`, most significant byte first.
pub record NetworkOrderU16 : Type 0 where
  pub first : ℕ
  pub second : ℕ

-- Both fields are `u8` values.
pub record IsU16 (n : NetworkOrderU16) : Type 0 where
  pub first_byte : n.first < 256
  pub second_byte : n.second < 256

unfoldable pub new : ℕ → NetworkOrderU16
new x = record { first = x / 256 % 256; second = x % 256 }

unfoldable pub get : NetworkOrderU16 → ℕ
get n = n.first * 256 + n.second

-- The derived `==`, byte by byte.
unfoldable pub eq : NetworkOrderU16 → NetworkOrderU16 → Bool
eq a b = elim (a.first == b.first) [ true ↦ a.second == b.second | false ↦ false ]

unfoldable pub cmp : NetworkOrderU16 → NetworkOrderU16 → Ordering
cmp a b = compare (get a) (get b)

-- As written: both sides of the comparison are `other`.
unfoldable pub partial_cmp : NetworkOrderU16 → NetworkOrderU16 → Option Ordering
partial_cmp a b = some (cmp b b)

-- The provided method `PartialOrd::lt`, which asks `partial_cmp`.
pub lt : NetworkOrderU16 → NetworkOrderU16 → Bool
unfolding partial_cmp cmp
lt a b = elim (partial_cmp a b) [
  | some o ↦ elim o [ Ordering.lt ↦ true | _ ↦ false ]
  | none ↦ false
]

-- The comparisons with a plain `u16`.
pub eq_u16 : NetworkOrderU16 → ℕ → Bool
eq_u16 a x = get a == x

pub partial_cmp_u16 : NetworkOrderU16 → ℕ → Option Ordering
partial_cmp_u16 a x = some (compare (get a) x)

pub lt_u16 : NetworkOrderU16 → ℕ → Bool
lt_u16 a x = ltb (get a) x

pub le_u16 : NetworkOrderU16 → ℕ → Bool
le_u16 a x = leb (get a) x

pub gt_u16 : NetworkOrderU16 → ℕ → Bool
gt_u16 a x = ltb x (get a)

pub ge_u16 : NetworkOrderU16 → ℕ → Bool
ge_u16 a x = leb x (get a)
