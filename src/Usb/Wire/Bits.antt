-- ===== src/Usb/Wire/Bits.antt =====
-- A test of one bit, and the mask of low bits, as arithmetic.
use Prim.Native.Nat.{min, digits, bit_and, bit_and-bitwise}
use goxlr_utility.Base.{ℕ, zero, suc, ◌≡◌, refl, ◌+◌, ◌*◌, ◌/◌, ◌%◌, ◌^◌, ◌≤◌, arith}
use native.Mathlib.Nat.{pow-suc, div-div-eq-div-mul}

abbrev low_digits : ℕ → ℕ → ℕ → ℕ
low_digits n a b = digits (λ _. zero) min n a b

-- The fuel of the definition does not matter.
low_digits_fuel : (n m a b : ℕ) → a ≤ n → a ≤ m → low_digits n a b ≡ low_digits m a b
low_digits_fuel zero zero a b p q = refl
low_digits_fuel zero (suc m) zero b p q = refl
low_digits_fuel zero (suc m) (suc a) b p q = absurd (omega arith)
low_digits_fuel (suc n) zero zero b p q = refl
low_digits_fuel (suc n) zero (suc a) b p q = absurd (omega arith)
low_digits_fuel (suc n) (suc m) zero b p q = refl
low_digits_fuel (suc n) (suc m) (suc a) b p q =
    omega (arith, low_digits_fuel n m (suc a / 2) (b / 2) (omega arith) (omega arith))

-- The lowest bit of an intersection, and the others.
pub bit_and_halves : (a b : ℕ) → bit_and a b ≡ bit_and (a / 2) (b / 2) * 2 + min (a % 2) (b % 2)
bit_and_halves zero b = omega (arith, bit_and-bitwise 0 b, bit_and-bitwise 0 (b / 2))
bit_and_halves (suc a) b = omega (
  arith,
  bit_and-bitwise (suc a) b,
  bit_and-bitwise (suc a / 2) (b / 2),
  low_digits_fuel a (suc a / 2) (suc a / 2) (b / 2) (omega arith) (omega arith),
)

none_left : (n a : ℕ) → a ≤ n → bit_and a 0 ≡ 0
none_left n zero h = bit_and-bitwise 0 0
none_left zero (suc a) h = absurd (omega arith)
none_left (suc n) (suc a) h =
    omega (arith, bit_and_halves (suc a) 0, none_left n (suc a / 2) (omega arith))

bit_and-zero : (a : ℕ) → bit_and a 0 ≡ 0
bit_and-zero a = none_left a a (omega arith)

two_pow : (k : ℕ) → 2 ^ suc k ≡ 2 * 2 ^ k
two_pow k = omega (arith, pow-suc 2 k)

halved : (t : ℕ) → 2 * t / 2 ≡ t
halved t = omega arith

double : (b t : ℕ) → b * (2 * t) ≡ b * t * 2
double b t = omega arith

-- The intersection with one bit is that bit.
pub bit_and-bit : (k a : ℕ) → bit_and a (2 ^ k) ≡ a / 2 ^ k % 2 * 2 ^ k
bit_and-bit zero a = omega (arith, bit_and_halves a 1, bit_and-zero (a / 2))
bit_and-bit (suc k) a =
    rw
      (
        two_pow k,
        bit_and_halves a (2 * 2 ^ k),
        halved (2 ^ k),
        bit_and-bit k (a / 2),
        div-div-eq-div-mul a 2 (2 ^ k),
        double (a / (2 * 2 ^ k) % 2) (2 ^ k),
      )
      (omega arith)

-- Masks of low bits, one bit more at a time.
bit_and-1 : (a : ℕ) → bit_and a 1 ≡ a % 2
bit_and-1 a = omega (arith, bit_and_halves a 1, bit_and-zero (a / 2))

bit_and-3 : (a : ℕ) → bit_and a 3 ≡ a % 4
bit_and-3 a = omega (arith, bit_and_halves a 3, bit_and-1 (a / 2))

bit_and-7 : (a : ℕ) → bit_and a 7 ≡ a % 8
bit_and-7 a = omega (arith, bit_and_halves a 7, bit_and-3 (a / 2))

pub bit_and-15 : (a : ℕ) → bit_and a 15 ≡ a % 16
bit_and-15 a = omega (arith, bit_and_halves a 15, bit_and-7 (a / 2))

bit_and-31 : (a : ℕ) → bit_and a 31 ≡ a % 32
bit_and-31 a = omega (arith, bit_and_halves a 31, bit_and-15 (a / 2))

bit_and-63 : (a : ℕ) → bit_and a 63 ≡ a % 64
bit_and-63 a = omega (arith, bit_and_halves a 63, bit_and-31 (a / 2))

bit_and-127 : (a : ℕ) → bit_and a 127 ≡ a % 128
bit_and-127 a = omega (arith, bit_and_halves a 127, bit_and-63 (a / 2))

pub bit_and-255 : (a : ℕ) → bit_and a 255 ≡ a % 256
bit_and-255 a = omega (arith, bit_and_halves a 255, bit_and-127 (a / 2))

bit_and-511 : (a : ℕ) → bit_and a 511 ≡ a % 512
bit_and-511 a = omega (arith, bit_and_halves a 511, bit_and-255 (a / 2))

bit_and-1023 : (a : ℕ) → bit_and a 1023 ≡ a % 1024
bit_and-1023 a = omega (arith, bit_and_halves a 1023, bit_and-511 (a / 2))

bit_and-2047 : (a : ℕ) → bit_and a 2047 ≡ a % 2048
bit_and-2047 a = omega (arith, bit_and_halves a 2047, bit_and-1023 (a / 2))

pub bit_and-4095 : (a : ℕ) → bit_and a 4095 ≡ a % 4096
bit_and-4095 a = omega (arith, bit_and_halves a 4095, bit_and-2047 (a / 2))
