-- ===== src/Common/Bytes.antt =====
-- Byte strings: lists of numbers below 256, in either byte order.
use Prim.Native.Nat.{ℕ, zero, suc, ◌+◌, ◌*◌, ◌/◌, ◌%◌, ◌<◌}
use mathlib.Core.Path.{◌≡◌, refl, ap, ap₂, ◌∙◌}
use mathlib.Core.List.{List, [], ◌∷◌, ◌++◌, reverse, reverse-cons, reverse-reverse}
use native.Mathlib.Omega.{arith}
use vt_muxer.Common.Lists.{length, take, drop, length-reverse}

-- Every element is a `u8`.
abbrev pub AreBytes : List ℕ → Type 0
AreBytes [] = Unit {0}
AreBytes (x ∷ xs) = (x < 256) × AreBytes xs

pub AreBytes-append : (xs ys : List ℕ) → AreBytes xs → AreBytes ys → AreBytes (xs ++ ys)
AreBytes-append [] ys hx hy = hy
AreBytes-append (x ∷ xs) ys hx hy = (hx.0, AreBytes-append xs ys hx.1 hy)

pub AreBytes-take : (n : ℕ) (xs : List ℕ) → AreBytes xs → AreBytes (take n xs)
AreBytes-take zero xs h = tt
AreBytes-take (suc n) [] h = tt
AreBytes-take (suc n) (x ∷ xs) h = (h.0, AreBytes-take n xs h.1)

pub AreBytes-drop : (n : ℕ) (xs : List ℕ) → AreBytes xs → AreBytes (drop n xs)
AreBytes-drop zero xs h = h
AreBytes-drop (suc n) [] h = tt
AreBytes-drop (suc n) (x ∷ xs) h = AreBytes-drop n xs h.1

AreBytes-reverse : (xs : List ℕ) → AreBytes xs → AreBytes (reverse xs)
AreBytes-reverse [] h = tt
AreBytes-reverse (x ∷ xs) h =
    let front = AreBytes-append (reverse xs) (x ∷ []) (AreBytes-reverse xs h.1) (h.0, tt) in
    subst_bytes front
  where
    subst_bytes : AreBytes (reverse xs ++ x ∷ []) → AreBytes (reverse (x ∷ xs))
    subst_bytes b = rw (reverse-cons x xs) b

-- The number whose digits in base 256 are the bytes, lowest first, and its first `n` digits.
from_le_bytes : List ℕ → ℕ
from_le_bytes [] = 0
from_le_bytes (x ∷ xs) = x + 256 * from_le_bytes xs

to_le_bytes : ℕ → ℕ → List ℕ
to_le_bytes zero v = []
to_le_bytes (suc n) v = v % 256 ∷ to_le_bytes n (v / 256)

-- `uN::from_be_bytes` and `uN::to_be_bytes` at a width of `n` bytes.
unfoldable pub from_be_bytes : List ℕ → ℕ
unfolding from_le_bytes
from_be_bytes xs = from_le_bytes (reverse xs)

unfoldable pub to_be_bytes : ℕ → ℕ → List ℕ
unfolding to_le_bytes
to_be_bytes n v = reverse (to_le_bytes n v)

to_le_bytes-from_le_bytes :
    (xs : List ℕ) → AreBytes xs → to_le_bytes (length xs) (from_le_bytes xs) ≡ xs
unfolding to_le_bytes from_le_bytes
to_le_bytes-from_le_bytes [] h = refl
to_le_bytes-from_le_bytes (x ∷ xs) h =
    ap₂ ◌∷◌ (omega arith)
      (ap (to_le_bytes (length xs)) (omega arith) ∙ to_le_bytes-from_le_bytes xs h.1)

pub to_be_bytes-from_be_bytes :
    (n : ℕ) (xs : List ℕ) → n ≡ length xs → AreBytes xs → to_be_bytes n (from_be_bytes xs) ≡ xs
unfolding to_be_bytes from_be_bytes
to_be_bytes-from_be_bytes n xs e h =
    ap reverse (
      ap (λ k. to_le_bytes k (from_le_bytes (reverse xs))) (e ∙ back (length-reverse xs))
      ∙ to_le_bytes-from_le_bytes (reverse xs) (AreBytes-reverse xs h))
    ∙ reverse-reverse xs
  where
    back : {m k : ℕ} → m ≡ k → k ≡ m
    back p = omega arith
