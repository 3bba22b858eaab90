-- ===== src/Base/Float.antt =====
-- Rust's f32 for comparisons and remainders. Every finite f32 is a whole number of units of 2^-149, the
-- least positive one, and the remainder of two of them is exact. The two zeros compare as equal
-- and are one value here.
use Prim.Native.Nat.{ℕ, suc, ◌+◌, ◌*◌, ◌%◌, ◌^◌, ◌≤◌}
use mathlib.Core.Path.{◌≡◌}
use mathlib.Core.Bool.{Bool, true, false, not, ◌&&◌, ◌||◌}
use goxlr_utility.Base.Tests.{leb, eqb, if◌then◌else◌}
use goxlr_utility.Base.Int.{ℤ, pos, negsuc, neg, magnitude}
use native.Mathlib.Nat.{mul-le-mul_right}
use native.Mathlib.Omega.{arith}

pub data F32 : Type 0 where
  nan : F32
  -- below or above every finite one
  infinite : (negative : Bool) → F32
  finite : (units : ℤ) → F32

unfoldable pub half_units : ℕ
half_units = 2 ^ 148

-- the literals `n.0`, `n.5` and `0.5`
unfoldable pub literal : ℕ → F32
literal n = F32.finite (pos (n * (2 * half_units)))

unfoldable pub half_past : ℕ → F32
half_past n = F32.finite (pos (n * (2 * half_units) + half_units))

unfoldable pub half : F32
half = F32.finite (pos half_units)

abbrev le_int : ℤ → ℤ → Bool
le_int (pos a) (pos b) = leb a b
le_int (pos a) (negsuc b) = false
le_int (negsuc a) (pos b) = true
le_int (negsuc a) (negsuc b) = leb b a

-- `x <= y`
abbrev pub le : F32 → F32 → Bool
le F32.nan y = false
le (F32.infinite s) F32.nan = false
le (F32.infinite s) (F32.infinite t) = s || not t
le (F32.infinite s) (F32.finite b) = s
le (F32.finite a) F32.nan = false
le (F32.finite a) (F32.infinite t) = not t
le (F32.finite a) (F32.finite b) = le_int a b

-- `x < y`
abbrev pub lt : F32 → F32 → Bool
lt F32.nan y = false
lt (F32.infinite s) F32.nan = false
lt (F32.infinite s) (F32.infinite t) = s && not t
lt (F32.infinite s) (F32.finite b) = s
lt (F32.finite a) F32.nan = false
lt (F32.finite a) (F32.infinite t) = not t
lt (F32.finite a) (F32.finite b) = not (le_int b a)

-- `(low..=high).contains(&x)`
abbrev pub contains : F32 → F32 → F32 → Bool
contains low high x = le low x && le x high

-- `x % y`
abbrev pub rem : F32 → F32 → F32
rem F32.nan y = F32.nan
rem (F32.infinite s) y = F32.nan
rem (F32.finite a) F32.nan = F32.nan
rem (F32.finite a) (F32.infinite t) = F32.finite a
rem (F32.finite (pos a)) (F32.finite b) =
    if eqb (magnitude b) 0 then F32.nan else F32.finite (pos (a % magnitude b))
rem (F32.finite (negsuc a)) (F32.finite b) =
    if eqb (magnitude b) 0 then F32.nan else F32.finite (neg (suc a % magnitude b))

-- `x % y == 0.`
unfoldable pub is_multiple : F32 → F32 → Bool
is_multiple x y = le (rem x y) (literal 0) && le (literal 0) (rem x y)

pub le_trans : (x y z : F32) → le x y ≡ true → le y z ≡ true → le x z ≡ true
le_trans x y z p q = ground arith

-- A number compares with itself, and two numbers are in order one way or the other.
pub le-real : (x y : F32) → le x y ≡ true → (le x x ≡ true) × (le y y ≡ true)
le-real x y p = ground arith

pub le_unless_lt : (x y : F32) → le x x ≡ true → le y y ≡ true → lt y x ≡ false → le x y ≡ true
le_unless_lt x y p q r = ground arith

pub lt_unless_le : (x y : F32) → le x y ≡ true → lt y x ≡ false
lt_unless_le x y p = ground arith

pub literal_mono : (n m : ℕ) → n ≤ m → le (literal n) (literal m) ≡ true
unfolding literal
literal_mono n m h = ground (arith, mul-le-mul_right (2 * half_units) h)
