-- ===== src/Usb/ColourTarget.antt =====
-- The coloured parts of the device, of usb/src/colouring.rs.
use goxlr_utility.Base.{
  ℕ, ◌≡◌, refl, some, List, [], ◌∷◌, Enumeration, index, find_index, find_index-injective,
}

-- ColourTargets, usb/src/colouring.rs:10-62
pub data ColourTargets : Type 0 where
  fader1_mute fader2_mute fader3_mute fader4_mute bleep microphone_mute : ColourTargets
  effect_select1 effect_select2 effect_select3 effect_select4 : ColourTargets
  effect_select5 effect_select6 effect_fx effect_megaphone effect_robot : ColourTargets
  effect_hard_tune sampler_select_a sampler_select_b sampler_select_c : ColourTargets
  sampler_top_left sampler_top_right sampler_bottom_left : ColourTargets
  sampler_bottom_right sampler_clear fade_meter1 fade_meter2 fade_meter3 : ColourTargets
  fade_meter4 scribble1 scribble2 scribble3 scribble4 pitch_encoder : ColourTargets
  gender_encoder reverb_encoder echo_encoder logo_x internal_light : ColourTargets

unfoldable pub ColourTargets-discrete : Discrete ColourTargets
ColourTargets-discrete = hlevel

unfoldable pub colour_targets_index : ColourTargets → ℕ
colour_targets_index ColourTargets.fader1_mute = 0
colour_targets_index ColourTargets.fader2_mute = 1
colour_targets_index ColourTargets.fader3_mute = 2
colour_targets_index ColourTargets.fader4_mute = 3
colour_targets_index ColourTargets.bleep = 4
colour_targets_index ColourTargets.microphone_mute = 5
colour_targets_index ColourTargets.effect_select1 = 6
colour_targets_index ColourTargets.effect_select2 = 7
colour_targets_index ColourTargets.effect_select3 = 8
colour_targets_index ColourTargets.effect_select4 = 9
colour_targets_index ColourTargets.effect_select5 = 10
colour_targets_index ColourTargets.effect_select6 = 11
colour_targets_index ColourTargets.effect_fx = 12
colour_targets_index ColourTargets.effect_megaphone = 13
colour_targets_index ColourTargets.effect_robot = 14
colour_targets_index ColourTargets.effect_hard_tune = 15
colour_targets_index ColourTargets.sampler_select_a = 16
colour_targets_index ColourTargets.sampler_select_b = 17
colour_targets_index ColourTargets.sampler_select_c = 18
colour_targets_index ColourTargets.sampler_top_left = 19
colour_targets_index ColourTargets.sampler_top_right = 20
colour_targets_index ColourTargets.sampler_bottom_left = 21
colour_targets_index ColourTargets.sampler_bottom_right = 22
colour_targets_index ColourTargets.sampler_clear = 23
colour_targets_index ColourTargets.fade_meter1 = 24
colour_targets_index ColourTargets.fade_meter2 = 25
colour_targets_index ColourTargets.fade_meter3 = 26
colour_targets_index ColourTargets.fade_meter4 = 27
colour_targets_index ColourTargets.scribble1 = 28
colour_targets_index ColourTargets.scribble2 = 29
colour_targets_index ColourTargets.scribble3 = 30
colour_targets_index ColourTargets.scribble4 = 31
colour_targets_index ColourTargets.pitch_encoder = 32
colour_targets_index ColourTargets.gender_encoder = 33
colour_targets_index ColourTargets.reverb_encoder = 34
colour_targets_index ColourTargets.echo_encoder = 35
colour_targets_index ColourTargets.logo_x = 36
colour_targets_index ColourTargets.internal_light = 37

abbrev pub colour_targets_variants : List ColourTargets
colour_targets_variants =
    ColourTargets.fader1_mute ∷ ColourTargets.fader2_mute ∷ ColourTargets.fader3_mute
    ∷ ColourTargets.fader4_mute ∷ ColourTargets.bleep ∷ ColourTargets.microphone_mute
    ∷ ColourTargets.effect_select1 ∷ ColourTargets.effect_select2 ∷ ColourTargets.effect_select3
    ∷ ColourTargets.effect_select4 ∷ ColourTargets.effect_select5 ∷ ColourTargets.effect_select6
    ∷ ColourTargets.effect_fx ∷ ColourTargets.effect_megaphone ∷ ColourTargets.effect_robot
    ∷ ColourTargets.effect_hard_tune ∷ ColourTargets.sampler_select_a
    ∷ ColourTargets.sampler_select_b ∷ ColourTargets.sampler_select_c
    ∷ ColourTargets.sampler_top_left ∷ ColourTargets.sampler_top_right
    ∷ ColourTargets.sampler_bottom_left ∷ ColourTargets.sampler_bottom_right
    ∷ ColourTargets.sampler_clear ∷ ColourTargets.fade_meter1 ∷ ColourTargets.fade_meter2
    ∷ ColourTargets.fade_meter3 ∷ ColourTargets.fade_meter4 ∷ ColourTargets.scribble1
    ∷ ColourTargets.scribble2 ∷ ColourTargets.scribble3 ∷ ColourTargets.scribble4
    ∷ ColourTargets.pitch_encoder ∷ ColourTargets.gender_encoder ∷ ColourTargets.reverb_encoder
    ∷ ColourTargets.echo_encoder ∷ ColourTargets.logo_x ∷ ColourTargets.internal_light ∷ []

instance abbrev pub colour_targets_enumeration : Enumeration ColourTargets
colour_targets_enumeration = record {
  discriminant = colour_targets_index;
  variants = colour_targets_variants;
  discrete = ColourTargets-discrete;
}

pub find_index-colour_targets :
    (x : ColourTargets) → find_index (index x) colour_targets_variants ≡ some x
unfolding colour_targets_index find_index
find_index-colour_targets ColourTargets.fader1_mute = refl
find_index-colour_targets _ = refl

pub colour_targets_index-injective : (x y : ColourTargets) → index x ≡ index y → x ≡ y
colour_targets_index-injective x y =
    find_index-injective colour_targets_variants (find_index-colour_targets x)
      (find_index-colour_targets y)
