-- ===== src/Usb/Colouring.antt =====
-- usb/src/colouring.rs: where each colour of each target stands in the colour map.
pub mod Disjoint
use goxlr_utility.Base.{ℕ, ◌+◌, ◌*◌, ◌%◌, Bool, eqb, if◌then◌else◌}
use goxlr_utility.Usb.ColourTarget.{ColourTargets}

unfoldable pub get_colour_count : ColourTargets → ℕ
get_colour_count ColourTargets.scribble1 = 1
get_colour_count ColourTargets.scribble2 = 1
get_colour_count ColourTargets.scribble3 = 1
get_colour_count ColourTargets.scribble4 = 1
get_colour_count ColourTargets.pitch_encoder = 3
get_colour_count ColourTargets.gender_encoder = 3
get_colour_count ColourTargets.reverb_encoder = 3
get_colour_count ColourTargets.echo_encoder = 3
get_colour_count _ = 2

unfoldable pub get_start : ColourTargets → ℕ
get_start ColourTargets.fader1_mute = 12
get_start ColourTargets.fader2_mute = 14
get_start ColourTargets.fader3_mute = 16
get_start ColourTargets.fader4_mute = 18
get_start ColourTargets.bleep = 78
get_start ColourTargets.microphone_mute = 80
get_start ColourTargets.effect_select1 = 29
get_start ColourTargets.effect_select2 = 31
get_start ColourTargets.effect_select3 = 33
get_start ColourTargets.effect_select4 = 35
get_start ColourTargets.effect_select5 = 37
get_start ColourTargets.effect_select6 = 39
get_start ColourTargets.effect_fx = 76
get_start ColourTargets.effect_megaphone = 70
get_start ColourTargets.effect_robot = 72
get_start ColourTargets.effect_hard_tune = 74
get_start ColourTargets.sampler_select_a = 54
get_start ColourTargets.sampler_select_b = 56
get_start ColourTargets.sampler_select_c = 58
get_start ColourTargets.sampler_top_left = 62
get_start ColourTargets.sampler_top_right = 64
get_start ColourTargets.sampler_bottom_right = 66
get_start ColourTargets.sampler_bottom_left = 68
get_start ColourTargets.sampler_clear = 60
get_start ColourTargets.fade_meter1 = 20
get_start ColourTargets.fade_meter2 = 22
get_start ColourTargets.fade_meter3 = 24
get_start ColourTargets.fade_meter4 = 26
get_start ColourTargets.scribble1 = 0
get_start ColourTargets.scribble2 = 2
get_start ColourTargets.scribble3 = 4
get_start ColourTargets.scribble4 = 6
get_start ColourTargets.pitch_encoder = 41
get_start ColourTargets.gender_encoder = 44
get_start ColourTargets.reverb_encoder = 47
get_start ColourTargets.echo_encoder = 50
get_start ColourTargets.logo_x = 10
get_start ColourTargets.internal_light = 8

unfoldable pub get_start_1_3_40 : ColourTargets → ℕ
get_start_1_3_40 ColourTargets.fader1_mute = 12
get_start_1_3_40 ColourTargets.fader2_mute = 14
get_start_1_3_40 ColourTargets.fader3_mute = 16
get_start_1_3_40 ColourTargets.fader4_mute = 18
get_start_1_3_40 ColourTargets.bleep = 126
get_start_1_3_40 ColourTargets.microphone_mute = 128
get_start_1_3_40 ColourTargets.effect_select1 = 77
get_start_1_3_40 ColourTargets.effect_select2 = 79
get_start_1_3_40 ColourTargets.effect_select3 = 81
get_start_1_3_40 ColourTargets.effect_select4 = 83
get_start_1_3_40 ColourTargets.effect_select5 = 85
get_start_1_3_40 ColourTargets.effect_select6 = 87
get_start_1_3_40 ColourTargets.effect_fx = 124
get_start_1_3_40 ColourTargets.effect_megaphone = 118
get_start_1_3_40 ColourTargets.effect_robot = 120
get_start_1_3_40 ColourTargets.effect_hard_tune = 122
get_start_1_3_40 ColourTargets.sampler_select_a = 102
get_start_1_3_40 ColourTargets.sampler_select_b = 104
get_start_1_3_40 ColourTargets.sampler_select_c = 106
get_start_1_3_40 ColourTargets.sampler_top_left = 110
get_start_1_3_40 ColourTargets.sampler_top_right = 112
get_start_1_3_40 ColourTargets.sampler_bottom_right = 114
get_start_1_3_40 ColourTargets.sampler_bottom_left = 116
get_start_1_3_40 ColourTargets.sampler_clear = 108
get_start_1_3_40 ColourTargets.fade_meter1 = 20
get_start_1_3_40 ColourTargets.fade_meter2 = 34
get_start_1_3_40 ColourTargets.fade_meter3 = 48
get_start_1_3_40 ColourTargets.fade_meter4 = 62
get_start_1_3_40 ColourTargets.scribble1 = 0
get_start_1_3_40 ColourTargets.scribble2 = 2
get_start_1_3_40 ColourTargets.scribble3 = 4
get_start_1_3_40 ColourTargets.scribble4 = 6
get_start_1_3_40 ColourTargets.pitch_encoder = 89
get_start_1_3_40 ColourTargets.gender_encoder = 92
get_start_1_3_40 ColourTargets.reverb_encoder = 95
get_start_1_3_40 ColourTargets.echo_encoder = 98
get_start_1_3_40 ColourTargets.logo_x = 10
get_start_1_3_40 ColourTargets.internal_light = 8

-- `colour * 4` is computed in a u8
abbrev pub straight : ℕ → ℕ → ℕ
straight start_point colour = start_point * 4 + colour * 4 % 256

-- the dials have their first two colours exchanged
abbrev pub exchanged : ℕ → ℕ → ℕ
exchanged start_point colour =
    if eqb colour 0
    then start_point * 4 + 4
    else if eqb colour 1
    then start_point * 4
    else straight start_point colour

unfoldable pub position : ColourTargets → ℕ → Bool → ℕ
unfolding get_start get_start_1_3_40
position target colour format_1_3_40 =
    let start_point = if format_1_3_40 then get_start_1_3_40 target else get_start target in
    elim target [
      | ColourTargets.pitch_encoder ↦ exchanged start_point colour
      | ColourTargets.gender_encoder ↦ exchanged start_point colour
      | ColourTargets.reverb_encoder ↦ exchanged start_point colour
      | ColourTargets.echo_encoder ↦ exchanged start_point colour
      | _ ↦ straight start_point colour
    ]
