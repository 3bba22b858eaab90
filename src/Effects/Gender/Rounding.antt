-- ===== src/Effects/Gender/Rounding.antt =====
-- The amount that was set against the amount that is read, and the range of the knob.
use mathlib.Core.Path.{subst}
use goxlr_utility.Base.{
  ℕ, zero, suc, ◌+◌, ◌-◌, ◌*◌, ◌/◌, ◌≤◌, ◌≡◌, refl, true, some, some_if, arith,
}
use goxlr_utility.Base.Int.{ℤ, pos, negsuc, neg, ◌+ℤ◌, ◌⊖◌, magnitude, within, i8, i8-id}
use goxlr_utility.Effects.Gender.{
  GenderStyle, GenderEncoder, limit, amount_of, knob_of, amount, set_amount,
}

-- An amount or a knob in its range is a number from 0 less the limit.
from_zero : (m : ℕ) (z : ℤ) → magnitude z ≤ m → (n : ℕ) × (n ≤ m + m) × (z ≡ n ⊖ m)
from_zero m (pos n) h = (n + m, omega arith, ground arith)
from_zero m (negsuc n) h = (m - (n + 1), omega arith, ground arith)

lifted : (m n : ℕ) → (n ⊖ m) +ℤ pos m ≡ pos n
lifted m n = ground arith

plus_neg : (n m : ℕ) → pos n +ℤ neg m ≡ n ⊖ m
plus_neg n zero = ground arith
plus_neg n (suc m) = refl

small : (n m : ℕ) → n ≤ 2 * m → m ≤ 100 → i8 (n ⊖ m) ≡ n ⊖ m
small n m h k = i8-id (n ⊖ m) (ground arith)

-- What an amount less than its limit was rounded by.
abbrev pub slack : GenderStyle → ℕ
slack GenderStyle.narrow = 0
slack GenderStyle.medium = 1
slack GenderStyle.wide = 2

abbrev pub IsNear : ℕ → ℤ → ℤ → Type 0
IsNear s x y = (n : ℕ) × (n ≤ s) × (x +ℤ pos n ≡ y)

IsNear-from_zero : (s m a b : ℕ) → a ≤ b → b ≤ a + s → IsNear s (a ⊖ m) (b ⊖ m)
IsNear-from_zero s m a b h k = (b - a, omega arith, ground (arith, h, k))

knob_from_zero : (l b : ℕ) → 48 * b / (2 * l) ≤ 48 → knob_of l (b ⊖ l) ≡ (48 * b / (2 * l)) ⊖ 24
knob_from_zero l b h = rw (lifted l b, plus_neg) (small (48 * b / (2 * l)) 24 h (omega arith))

amount_from_zero :
    (l k : ℕ)
    → k ≤ 48
    → l ≤ 100
    → 2 * l * k / 48 ≤ 2 * l
    → amount_of l (k ⊖ 24) ≡ (2 * l * k / 48) ⊖ l
amount_from_zero l k h p q =
    rw (lifted 24 k, i8-id (pos k) (omega arith), plus_neg) (small (2 * l * k / 48) l q p)

-- The knob of an amount, and the amount of that knob, both from 0 up.
record IsRounded (s : GenderStyle) (b k : ℕ) : Type 0 where
  knob : k ≤ 48
  below : 2 * limit s * k / 48 ≤ b
  above : b ≤ 2 * limit s * k / 48 + slack s

rounded : (s : GenderStyle) (b : ℕ) → b ≤ limit s + limit s → IsRounded s b (48 * b / (2 * limit s))
rounded GenderStyle.narrow b h = record {
  knob = omega arith;
  below = omega arith;
  above = omega arith;
}
rounded GenderStyle.medium b h = record {
  knob = omega arith;
  below = omega arith;
  above = omega arith;
}
rounded GenderStyle.wide b h = record {
  knob = omega arith;
  below = omega arith;
  above = omega arith;
}

limit-bound : (s : GenderStyle) → limit s ≤ 50
limit-bound GenderStyle.narrow = omega arith
limit-bound GenderStyle.medium = omega arith
limit-bound GenderStyle.wide = omega arith

read_back :
    (s : GenderStyle) (value : ℤ)
    → magnitude value ≤ limit s
    → (within 24 (knob_of (limit s) value) ≡ true)
      × IsNear (slack s) (amount_of (limit s) (knob_of (limit s) value)) value
read_back s value h =
    let (b, p, e) = from_zero (limit s) value h in
    let r = rounded s b p in
    rw
      (
        e,
        knob_from_zero (limit s) b r.knob,
        amount_from_zero (limit s) (48 * b / (2 * limit s)) r.knob (omega (arith, limit-bound s))
            (omega (arith, r.below, p)),
      )
      (ground (arith, r.knob), IsNear-from_zero (slack s) (limit s) _ b r.below r.above)

-- An amount that the encoder accepts puts the knob between -24 and 24, and is read back rounded
-- down: exactly in the narrow style, by at most 1 in the medium one, and by at most 2 in the wide one.
pub amount-set_amount :
    (value : ℤ) (e f : GenderEncoder)
    → set_amount value e ≡ some f
    → (within 24 f.knob_position ≡ true) × IsNear (slack f.style) (amount f) value
unfolding set_amount amount
amount-set_amount value e f p =
    let q = some_if (within (limit e.style) value) p in
    subst
      (λ g.
        (within 24 g.knob_position ≡ true)
        × IsNear (slack g.style) (amount_of (limit g.style) g.knob_position) value)
      q.1 (read_back e.style value (ground (arith, q.0)))
