-- ===== src/Integers/RoundTrip.antt =====
-- src/integers.rs: `new` and `get` are inverse on `u16` values.
use vt_muxer.Common.{ℕ, ◌/◌, ◌%◌, ◌<◌, ◌≡◌, arith}
use vt_muxer.Integers.{NetworkOrderU16, IsU16, new, get}

pub new-IsU16 : (x : ℕ) → IsU16 (new x)
unfolding new
new-IsU16 x = omega arith

pub get-lt : (n : NetworkOrderU16) → IsU16 n → get n < 65536
unfolding get
get-lt n v = omega arith

-- A `u16` survives being stored in network order.
pub get-new : (x : ℕ) → x < 65536 → get (new x) ≡ x
unfolding get new
get-new x h = omega arith

-- Two bytes survive being read as a number and stored again.
pub new-get : (n : NetworkOrderU16) → IsU16 n → new (get n) ≡ n
unfolding get new
new-get n v = ground arith

pub get-injective : (a b : NetworkOrderU16) → IsU16 a → IsU16 b → get a ≡ get b → a ≡ b
unfolding get
get-injective a b va vb e = ground arith

-- The stored bytes of a `u16`.
pub first-new : (x : ℕ) → x < 65536 → (new x).first ≡ x / 256
unfolding new
first-new x h = omega arith

pub second-new : (x : ℕ) → (new x).second ≡ x % 256
unfolding new
second-new x = omega arith
