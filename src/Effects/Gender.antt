-- ===== src/Effects/Gender.antt =====
-- profile/src/components/gender.rs: `GenderEncoder`, an amount of the voice against a knob from -24 to
-- 24. `none` is the error of a method that changes the encoder.
pub mod Rounding
use goxlr_utility.Base.{ℕ, ◌*◌, Bool, true, false, Option, none, some, if◌then◌else◌}
use goxlr_utility.Base.Int.{ℤ, pos, neg, ◌+ℤ◌, scale, quot, within, i8}

pub data GenderStyle : Type 0 where
  narrow medium wide : GenderStyle

pub record GenderEncoder : Type 0 where
  pub knob_position : ℤ
  pub style : GenderStyle
  pub range : ℕ

-- the largest amount of a style
abbrev pub limit : GenderStyle → ℕ
limit GenderStyle.narrow = 12
limit GenderStyle.medium = 25
limit GenderStyle.wide = 50

-- `(2 * limit * knob) / 48 - limit` in i32, with the knob from 0 to 48 that an i8 addition gives
abbrev pub amount_of : ℕ → ℤ → ℤ
amount_of l knob = i8 (quot (scale (2 * l) (i8 (knob +ℤ pos 24))) 48 +ℤ neg l)

unfoldable pub amount : GenderEncoder → ℤ
amount e = amount_of (limit e.style) e.knob_position

-- `(amount + limit) * 48 / (2 * limit) - 24` in i32
abbrev pub knob_of : ℕ → ℤ → ℤ
knob_of l value = i8 (quot (scale 48 (value +ℤ pos l)) (2 * l) +ℤ neg 24)

unfoldable pub set_amount : ℤ → GenderEncoder → Option GenderEncoder
set_amount value e =
    if within (limit e.style) value
    then some (record e { knob_position = knob_of (limit e.style) value })
    else none

unfoldable pub set_knob_position : ℤ → GenderEncoder → Option GenderEncoder
set_knob_position knob e = if within 24 knob then some (record e { knob_position = knob }) else none

unfoldable pub set_style : GenderStyle → GenderEncoder → GenderEncoder
set_style style e = record e { style = style }
