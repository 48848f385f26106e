-- ===== src/Base/Int.antt =====
-- The `int64` values that may be negative, as integers on the native numbers.
use Prim.Native.Nat.{ℕ, suc, ◌+◌, ◌-◌, ◌≤◌, compare, Ordering}
use mathlib.Core.Path.{◌≡◌}
use mathlib.Core.Bool.{Bool, true, false}
use native.Mathlib.Omega.{arith}

-- `negsuc k` is -(k + 1).
pub data ℤ : Type 0 where
  pos negsuc : ℕ → ℤ

-- How far an integer is above 0, and how far below.
abbrev pub above : ℤ → ℕ
above (negsuc k) = 0
above (pos k) = k

abbrev pub below : ℤ → ℕ
below (negsuc k) = suc k
below (pos k) = 0

-- The integer k - l.
unfoldable pub difference : ℕ → ℕ → ℤ
difference k l = elim (compare k l) [ Ordering.lt ↦ negsuc (l - k - 1) | _ ↦ pos (k - l) ]

infixl 65 ◌+ℤ◌
unfoldable pub ◌+ℤ◌ : ℤ → ℤ → ℤ
unfolding difference
x +ℤ y = difference (above x + above y) (below x + below y)

abbrev pub leb_ℤ : ℤ → ℤ → Bool
leb_ℤ x y = elim (compare (above x + below y) (above y + below x)) [
  | Ordering.gt ↦ false
  | _ ↦ true
]

infix 50 ◌≤ℤ◌
abbrev pub ◌≤ℤ◌ : ℤ → ℤ → Type 0
x ≤ℤ y = above x + below y ≤ above y + below x

-- What omega needs of a sum that is kept shut.
pub parts-+ℤ :
    (x y : ℤ) → above (x +ℤ y) + (below x + below y) ≡ below (x +ℤ y) + (above x + above y)
unfolding ◌+ℤ◌
parts-+ℤ x y = ground arith

pub parts-difference : (k l : ℕ) → above (difference k l) + l ≡ below (difference k l) + k
unfolding difference
parts-difference k l = ground arith

pub leb_ℤ→≤ℤ : (x y : ℤ) → leb_ℤ x y ≡ true → x ≤ℤ y
leb_ℤ→≤ℤ x y h = ground arith

pub leb_ℤ→lt : (x y : ℤ) → leb_ℤ x y ≡ false → suc (above y + below x) ≤ above x + below y
leb_ℤ→lt x y h = ground arith

pub parts_eq : (x y : ℤ) → above x + below y ≡ above y + below x → x ≡ y
parts_eq x y h = ground arith
