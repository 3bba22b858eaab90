-- ===== src/Effects/Pitch.antt =====
-- profile/src/components/pitch.rs: `PitchEncoder`, whose knob position is a value in semitones. A
-- method that changes it gives the new encoder, and `none` is its error.
pub mod Fitting
use goxlr_utility.Base.{ℕ, Bool, true, false, Option, none, some, ltb, if◌then◌else◌}
use goxlr_utility.Base.Int.{ℤ, pos, neg, scale, quot, within, i8}

pub data PitchStyle : Type 0 where
  narrow wide : PitchStyle

pub record PitchEncoder : Type 0 where
  pub position : ℤ
  pub style : PitchStyle
  pub range : ℕ
  pub threshold : ℤ
  pub inst_ratio : Option ℕ

unfoldable pub new_pitch : PitchEncoder
new_pitch = record {
  position = pos 0;
  style = PitchStyle.narrow;
  range = 0;
  threshold = neg 26;
  inst_ratio = none;
}

-- the value of the knob for a style
abbrev pub knob_of : PitchStyle → ℤ → ℤ
knob_of PitchStyle.narrow position = i8 (scale 2 position)
knob_of PitchStyle.wide position = position

unfoldable pub knob_position : Bool → PitchEncoder → ℤ
knob_position true e = quot e.position 12
knob_position false e = knob_of e.style e.position

-- the largest knob of a style while hardtune is enabled
abbrev pub hardtune_limit : PitchStyle → ℕ
hardtune_limit PitchStyle.narrow = 1
hardtune_limit PitchStyle.wide = 2

abbrev pub position_of : PitchStyle → ℤ → ℤ
position_of PitchStyle.narrow knob = quot knob 2
position_of PitchStyle.wide knob = knob

unfoldable pub set_knob_position : ℤ → Bool → PitchEncoder → Option PitchEncoder
set_knob_position knob true e =
    if within (hardtune_limit e.style) knob
    then some (record e { position = i8 (scale 12 knob) })
    else none
set_knob_position knob false e =
    if within 24 knob then some (record e { position = position_of e.style knob }) else none

-- `(value / 2) * 2` of a narrow knob
abbrev pub rounded : PitchStyle → ℤ → ℤ
rounded PitchStyle.narrow value = i8 (scale 2 (quot value 2))
rounded PitchStyle.wide value = value

unfoldable pub calculate_encoder_value : ℤ → Bool → PitchEncoder → ℤ
calculate_encoder_value value true e = value
calculate_encoder_value value false e = rounded e.style value

-- The two styles before and after; equal ones return at once.
abbrev pub change_style : PitchStyle → PitchStyle → PitchEncoder → PitchEncoder
change_style PitchStyle.narrow PitchStyle.narrow e = e
change_style PitchStyle.wide PitchStyle.wide e = e
change_style PitchStyle.wide PitchStyle.narrow e = record e {
  threshold = neg 36;
  position = quot e.position 2;
  style = PitchStyle.narrow;
}
change_style PitchStyle.narrow PitchStyle.wide e = record e {
  threshold = neg 26;
  position = i8 (scale 2 e.position);
  style = PitchStyle.wide;
}

unfoldable pub set_style : PitchStyle → PitchEncoder → PitchEncoder
set_style style e = change_style e.style style e

unfoldable pub set_inst_ratio : ℕ → PitchEncoder → Option PitchEncoder
set_inst_ratio value e = if ltb 100 value then none else some (record e { inst_ratio = some value })

unfoldable pub inst_ratio_value : PitchEncoder → ℕ
inst_ratio_value e = elim e.inst_ratio [ some value ↦ value | none ↦ 75 ]
