-- ===== src/Usb/ButtonEnums.antt =====
-- usb/src/buttonstate.rs: the buttons with their bits, and the lighting states.
use goxlr_utility.Base.{
  ℕ, ◌≡◌, refl, some, List, [], ◌∷◌, Enumeration, index, find_index, find_index-injective,
}

-- ButtonStates, usb/src/buttonstate.rs:6-12
pub data ButtonStates : Type 0 where
  colour1 colour2 dimmed_colour1 dimmed_colour2 flashing : ButtonStates

unfoldable pub ButtonStates-discrete : Discrete ButtonStates
ButtonStates-discrete = hlevel

unfoldable pub button_states_index : ButtonStates → ℕ
button_states_index ButtonStates.colour1 = 0x01
button_states_index ButtonStates.colour2 = 0x00
button_states_index ButtonStates.dimmed_colour1 = 0x02
button_states_index ButtonStates.dimmed_colour2 = 0x04
button_states_index ButtonStates.flashing = 0x03

abbrev pub button_states_variants : List ButtonStates
button_states_variants =
    ButtonStates.colour1 ∷ ButtonStates.colour2 ∷ ButtonStates.dimmed_colour1
    ∷ ButtonStates.dimmed_colour2 ∷ ButtonStates.flashing ∷ []

instance abbrev pub button_states_enumeration : Enumeration ButtonStates
button_states_enumeration = record {
  discriminant = button_states_index;
  variants = button_states_variants;
  discrete = ButtonStates-discrete;
}

-- Buttons, usb/src/buttonstate.rs:22-53
pub data Buttons : Type 0 where
  fader1_mute fader2_mute fader3_mute fader4_mute bleep microphone_mute : Buttons
  effect_select1 effect_select2 effect_select3 effect_select4 : Buttons
  effect_select5 effect_select6 effect_fx effect_megaphone effect_robot : Buttons
  effect_hard_tune sampler_select_a sampler_select_b sampler_select_c : Buttons
  sampler_top_left sampler_top_right sampler_bottom_left : Buttons
  sampler_bottom_right sampler_clear : Buttons

unfoldable pub Buttons-discrete : Discrete Buttons
Buttons-discrete = hlevel

unfoldable pub buttons_index : Buttons → ℕ
buttons_index Buttons.fader1_mute = 4
buttons_index Buttons.fader2_mute = 9
buttons_index Buttons.fader3_mute = 14
buttons_index Buttons.fader4_mute = 19
buttons_index Buttons.bleep = 22
buttons_index Buttons.microphone_mute = 23
buttons_index Buttons.effect_select1 = 0
buttons_index Buttons.effect_select2 = 5
buttons_index Buttons.effect_select3 = 10
buttons_index Buttons.effect_select4 = 15
buttons_index Buttons.effect_select5 = 1
buttons_index Buttons.effect_select6 = 6
buttons_index Buttons.effect_fx = 21
buttons_index Buttons.effect_megaphone = 20
buttons_index Buttons.effect_robot = 11
buttons_index Buttons.effect_hard_tune = 16
buttons_index Buttons.sampler_select_a = 2
buttons_index Buttons.sampler_select_b = 7
buttons_index Buttons.sampler_select_c = 12
buttons_index Buttons.sampler_top_left = 3
buttons_index Buttons.sampler_top_right = 8
buttons_index Buttons.sampler_bottom_left = 17
buttons_index Buttons.sampler_bottom_right = 13
buttons_index Buttons.sampler_clear = 18

abbrev pub buttons_variants : List Buttons
buttons_variants =
    Buttons.fader1_mute ∷ Buttons.fader2_mute ∷ Buttons.fader3_mute ∷ Buttons.fader4_mute
    ∷ Buttons.bleep ∷ Buttons.microphone_mute ∷ Buttons.effect_select1 ∷ Buttons.effect_select2
    ∷ Buttons.effect_select3 ∷ Buttons.effect_select4 ∷ Buttons.effect_select5
    ∷ Buttons.effect_select6 ∷ Buttons.effect_fx ∷ Buttons.effect_megaphone ∷ Buttons.effect_robot
    ∷ Buttons.effect_hard_tune ∷ Buttons.sampler_select_a ∷ Buttons.sampler_select_b
    ∷ Buttons.sampler_select_c ∷ Buttons.sampler_top_left ∷ Buttons.sampler_top_right
    ∷ Buttons.sampler_bottom_left ∷ Buttons.sampler_bottom_right ∷ Buttons.sampler_clear ∷ []

instance abbrev pub buttons_enumeration : Enumeration Buttons
buttons_enumeration = record {
  discriminant = buttons_index;
  variants = buttons_variants;
  discrete = Buttons-discrete;
}

find_index-buttons : (x : Buttons) → find_index (index x) buttons_variants ≡ some x
unfolding buttons_index find_index
find_index-buttons Buttons.fader1_mute = refl
find_index-buttons _ = refl

pub buttons_index-injective : (x y : Buttons) → index x ≡ index y → x ≡ y
buttons_index-injective x y =
    find_index-injective buttons_variants (find_index-buttons x) (find_index-buttons y)
