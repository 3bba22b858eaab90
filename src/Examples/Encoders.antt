-- ===== src/Examples/Encoders.antt =====
-- The theorems on the effects applied to concrete encoders.
use goxlr_utility.Base.{◌≡◌, refl, true, false, none, some, arith}
use goxlr_utility.Base.Int.{pos, neg, within}
use goxlr_utility.Effects.Pitch.{
  PitchStyle, PitchEncoder, set_knob_position, knob_position, calculate_encoder_value,
}
use goxlr_utility.Effects.Pitch.Fitting.{
  IsFitting, change-IsFitting, knob_position-set_knob_position, set_knob_position-knob_position,
}
use goxlr_utility.Effects.Pitch.Fitting
use goxlr_utility.Effects.Gender.{GenderStyle, GenderEncoder}
use goxlr_utility.Effects.Gender
use goxlr_utility.Effects.Gender.Rounding.{amount-set_amount, IsNear}
use goxlr_utility.Effects.Echo.{EchoStyle, EchoEncoder}
use goxlr_utility.Effects.Echo
use goxlr_utility.Effects.Echo.Ranges.{
  IsInRange, change-IsInRange, set_style-preset_loaded, preset_loaded, amount-neg,
}
use goxlr_utility.Effects.Echo.Ranges

abbrev low : PitchEncoder
low = record {
  position = neg 11;
  style = PitchStyle.narrow;
  range = 12;
  threshold = neg 36;
  inst_ratio = none;
}

abbrev lower : PitchEncoder
lower = record low { position = neg 22; style = PitchStyle.wide; threshold = neg 26 }

low-IsFitting : IsFitting low
low-IsFitting = record { position = omega arith }

change-IsFitting_example : IsFitting lower
unfolding goxlr_utility.Effects.Pitch.Fitting.change goxlr_utility.Effects.Pitch.set_style
change-IsFitting_example =
    change-IsFitting (Fitting.Change.style PitchStyle.wide) low lower low-IsFitting refl

knob_position-set_knob_position_example :
    knob_position false (record low { position = neg 3 })
    ≡ calculate_encoder_value (neg 7) false low
unfolding set_knob_position
knob_position-set_knob_position_example =
    knob_position-set_knob_position (neg 7) false low (record low { position = neg 3 }) refl

abbrev voice : GenderEncoder
voice = record { knob_position = pos 0; style = GenderStyle.wide; range = 0 }

-- -33 puts the knob at -16, which is read as -34.
amount-set_amount_example :
    (within 24 (neg 16) ≡ true)
    × IsNear 2 (Gender.amount (record voice { knob_position = neg 16 })) (neg 33)
unfolding goxlr_utility.Effects.Gender.set_amount
amount-set_amount_example =
    amount-set_amount (neg 33) voice (record voice { knob_position = neg 16 }) refl

abbrev echo : EchoEncoder
echo = record {
  knob_position = pos 12;
  style = EchoStyle.quarter;
  source = 1;
  div_l = 9;
  div_r = 9;
  feedback_left = 50;
  feedback_right = 50;
  feedback_control = 30;
  xfb_l_to_r = 0;
  xfb_r_to_l = 0;
  filter_style = 0;
  time_left = 0;
  time_right = 0;
  tempo = 120;
}

echo-IsInRange : IsInRange echo
echo-IsInRange = (
  omega arith,
  omega arith,
  omega arith,
  omega arith,
  omega arith,
  omega arith,
  omega arith,
  omega arith,
  omega arith,
)

change-IsInRange_example : IsInRange (record echo { knob_position = pos 24 })
unfolding goxlr_utility.Effects.Echo.Ranges.change goxlr_utility.Effects.Echo.set_percentage_value
    goxlr_utility.Effects.Echo.set_knob_position
change-IsInRange_example =
    change-IsInRange (Ranges.Change.percentage 100) echo (record echo { knob_position = pos 24 })
      echo-IsInRange refl

set_style-preset_loaded_example :
    Echo.set_style EchoStyle.classic_slap echo ≡ some (preset_loaded EchoStyle.classic_slap echo)
set_style-preset_loaded_example = set_style-preset_loaded EchoStyle.classic_slap echo
