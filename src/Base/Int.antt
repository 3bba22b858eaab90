-- ===== src/Base/Int.antt =====
-- Signed integers over the native numbers, and the arithmetic of i8 and i32 that the source uses:
-- division rounds towards zero, and a cast to i8 wraps around.
use Prim.Native.Nat.{ℕ, zero, suc, ◌+◌, ◌-◌, ◌*◌, ◌/◌, ◌%◌, ◌≤◌}
use mathlib.Core.Path.{◌≡◌}
use mathlib.Core.Bool.{Bool}
use goxlr_utility.Base.Tests.{leb, ltb, if◌then◌else◌}
use native.Mathlib.Omega.{arith}

pub data ℤ : Type 0 where
  pos : ℕ → ℤ
  negsuc : ℕ → ℤ

abbrev pub neg : ℕ → ℤ
neg zero = pos zero
neg (suc n) = negsuc n

infixl 20 ◌⊖◌
abbrev pub ◌⊖◌ : ℕ → ℕ → ℤ
x ⊖ y = if leb y x then pos (x - y) else neg (y - x)

infixl 20 ◌+ℤ◌
abbrev pub ◌+ℤ◌ : ℤ → ℤ → ℤ
pos a +ℤ pos b = pos (a + b)
pos a +ℤ negsuc b = a ⊖ suc b
negsuc a +ℤ pos b = b ⊖ suc a
negsuc a +ℤ negsuc b = negsuc (suc (a + b))

abbrev pub scale : ℕ → ℤ → ℤ
scale k (pos n) = pos (k * n)
scale k (negsuc n) = neg (k * suc n)

abbrev pub quot : ℤ → ℕ → ℤ
quot (pos n) d = pos (n / d)
quot (negsuc n) d = neg (suc n / d)

abbrev pub magnitude : ℤ → ℕ
magnitude (pos n) = n
magnitude (negsuc n) = suc n

-- `(-m..=m).contains(&z)`
abbrev pub within : ℕ → ℤ → Bool
within m z = leb (magnitude z) m

-- `as i8`
abbrev pub signed_byte : ℕ → ℤ
signed_byte n = if ltb n 128 then pos n else neg (256 - n)

abbrev pub i8 : ℤ → ℤ
i8 (pos n) = signed_byte (n % 256)
i8 (negsuc n) = signed_byte (255 - n % 256)

pub i8-id : (z : ℤ) → magnitude z ≤ 127 → i8 z ≡ z
i8-id (pos n) h = ground arith
i8-id (negsuc n) h = ground arith
