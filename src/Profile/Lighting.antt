-- ===== src/Profile/Lighting.antt =====
-- The colour map of a profile, `get_colour_map` of daemon/src/profile.rs, and the lit state of the
-- buttons.
pub mod ReadBack
use goxlr_utility.Base.{
  ℕ, zero, suc, ◌+◌, Bool, true, false, List, [], ◌∷◌, set, replicate, eqb, if◌then◌else◌,
}
use goxlr_utility.Types.{FaderName}
use goxlr_utility.Usb.{ColourTargets, colour_targets_variants, Buttons, ButtonStates, ChannelState}
use goxlr_utility.Usb.Colouring.{get_colour_count, position}
use goxlr_utility.Profile.State.{Profile, Colour, ColourMap}
use goxlr_utility.Profile.Mute.{colour_state, get_fader_mute_state}

unfoldable pub get_profile_colour_map : Profile → ColourTargets → ColourMap
get_profile_colour_map p ColourTargets.fader1_mute = (p.mute_buttons FaderName.a).colour_map
get_profile_colour_map p ColourTargets.fader2_mute = (p.mute_buttons FaderName.b).colour_map
get_profile_colour_map p ColourTargets.fader3_mute = (p.mute_buttons FaderName.c).colour_map
get_profile_colour_map p ColourTargets.fader4_mute = (p.mute_buttons FaderName.d).colour_map
get_profile_colour_map p ColourTargets.bleep = p.lights ColourTargets.bleep
get_profile_colour_map p ColourTargets.microphone_mute = p.mute_chat.colour_map
get_profile_colour_map p ColourTargets.effect_select1 = p.lights ColourTargets.effect_select1
get_profile_colour_map p ColourTargets.effect_select2 = p.lights ColourTargets.effect_select2
get_profile_colour_map p ColourTargets.effect_select3 = p.lights ColourTargets.effect_select3
get_profile_colour_map p ColourTargets.effect_select4 = p.lights ColourTargets.effect_select4
get_profile_colour_map p ColourTargets.effect_select5 = p.lights ColourTargets.effect_select5
get_profile_colour_map p ColourTargets.effect_select6 = p.lights ColourTargets.effect_select6
get_profile_colour_map p ColourTargets.effect_fx = p.lights ColourTargets.effect_fx
get_profile_colour_map p ColourTargets.effect_megaphone = p.lights ColourTargets.effect_megaphone
get_profile_colour_map p ColourTargets.effect_robot = p.lights ColourTargets.effect_robot
get_profile_colour_map p ColourTargets.effect_hard_tune = p.lights ColourTargets.effect_hard_tune
get_profile_colour_map p ColourTargets.sampler_select_a = p.lights ColourTargets.sampler_select_a
get_profile_colour_map p ColourTargets.sampler_select_b = p.lights ColourTargets.sampler_select_b
get_profile_colour_map p ColourTargets.sampler_select_c = p.lights ColourTargets.sampler_select_c
get_profile_colour_map p ColourTargets.sampler_top_left = p.lights ColourTargets.sampler_top_left
get_profile_colour_map p ColourTargets.sampler_top_right = p.lights ColourTargets.sampler_top_right
get_profile_colour_map p ColourTargets.sampler_bottom_left =
    p.lights ColourTargets.sampler_bottom_left
get_profile_colour_map p ColourTargets.sampler_bottom_right =
    p.lights ColourTargets.sampler_bottom_right
get_profile_colour_map p ColourTargets.sampler_clear = p.lights ColourTargets.sampler_clear
get_profile_colour_map p ColourTargets.fade_meter1 = (p.faders FaderName.a).colour_map
get_profile_colour_map p ColourTargets.fade_meter2 = (p.faders FaderName.b).colour_map
get_profile_colour_map p ColourTargets.fade_meter3 = (p.faders FaderName.c).colour_map
get_profile_colour_map p ColourTargets.fade_meter4 = (p.faders FaderName.d).colour_map
get_profile_colour_map p ColourTargets.scribble1 = (p.scribbles FaderName.a).colour_map
get_profile_colour_map p ColourTargets.scribble2 = (p.scribbles FaderName.b).colour_map
get_profile_colour_map p ColourTargets.scribble3 = (p.scribbles FaderName.c).colour_map
get_profile_colour_map p ColourTargets.scribble4 = (p.scribbles FaderName.d).colour_map
get_profile_colour_map p ColourTargets.pitch_encoder = p.lights ColourTargets.pitch_encoder
get_profile_colour_map p ColourTargets.gender_encoder = p.lights ColourTargets.gender_encoder
get_profile_colour_map p ColourTargets.reverb_encoder = p.lights ColourTargets.reverb_encoder
get_profile_colour_map p ColourTargets.echo_encoder = p.lights ColourTargets.echo_encoder
get_profile_colour_map p ColourTargets.logo_x = p.lights ColourTargets.logo_x
get_profile_colour_map p ColourTargets.internal_light = p.lights ColourTargets.logo_x

unfoldable pub map_button_to_colour_target : Buttons → ColourTargets
map_button_to_colour_target Buttons.fader1_mute = ColourTargets.fader1_mute
map_button_to_colour_target Buttons.fader2_mute = ColourTargets.fader2_mute
map_button_to_colour_target Buttons.fader3_mute = ColourTargets.fader3_mute
map_button_to_colour_target Buttons.fader4_mute = ColourTargets.fader4_mute
map_button_to_colour_target Buttons.bleep = ColourTargets.bleep
map_button_to_colour_target Buttons.microphone_mute = ColourTargets.microphone_mute
map_button_to_colour_target Buttons.effect_select1 = ColourTargets.effect_select1
map_button_to_colour_target Buttons.effect_select2 = ColourTargets.effect_select2
map_button_to_colour_target Buttons.effect_select3 = ColourTargets.effect_select3
map_button_to_colour_target Buttons.effect_select4 = ColourTargets.effect_select4
map_button_to_colour_target Buttons.effect_select5 = ColourTargets.effect_select5
map_button_to_colour_target Buttons.effect_select6 = ColourTargets.effect_select6
map_button_to_colour_target Buttons.effect_fx = ColourTargets.effect_fx
map_button_to_colour_target Buttons.effect_megaphone = ColourTargets.effect_megaphone
map_button_to_colour_target Buttons.effect_robot = ColourTargets.effect_robot
map_button_to_colour_target Buttons.effect_hard_tune = ColourTargets.effect_hard_tune
map_button_to_colour_target Buttons.sampler_select_a = ColourTargets.sampler_select_a
map_button_to_colour_target Buttons.sampler_select_b = ColourTargets.sampler_select_b
map_button_to_colour_target Buttons.sampler_select_c = ColourTargets.sampler_select_c
map_button_to_colour_target Buttons.sampler_top_left = ColourTargets.sampler_top_left
map_button_to_colour_target Buttons.sampler_top_right = ColourTargets.sampler_top_right
map_button_to_colour_target Buttons.sampler_bottom_left = ColourTargets.sampler_bottom_left
map_button_to_colour_target Buttons.sampler_bottom_right = ColourTargets.sampler_bottom_right
map_button_to_colour_target Buttons.sampler_clear = ColourTargets.sampler_clear

unfoldable pub get_button_colour_state : Profile → Buttons → ButtonStates
unfolding get_profile_colour_map map_button_to_colour_target colour_state
get_button_colour_state p button =
    colour_state (get_profile_colour_map p (map_button_to_colour_target button))

-- The callers' indices are below the colour count, at most 3.
unfoldable pub colour : ColourMap → ℕ → Colour
colour m zero = m.colour0
colour m (suc zero) = m.colour1
colour m (suc (suc i)) = m.colour2

abbrev pub Bytes4 : Type 0
Bytes4 = ℕ × ℕ × ℕ × ℕ

unfoldable pub to_reverse_bytes : Colour → Bytes4
to_reverse_bytes c = (c.blue, c.green, c.red, c.alpha)

abbrev pub blank : Bytes4
blank = (0, 0, 0, 0)

-- `get_sample_colour_array`: without a sample the first two colours change places
unfoldable pub get_sampler_lighting : Profile → ColourTargets → ℕ → Bytes4
unfolding get_profile_colour_map colour to_reverse_bytes
get_sampler_lighting p target i =
    if p.has_samples target
    then to_reverse_bytes (colour (get_profile_colour_map p target) i)
    else let new_index = if eqb i 0 then 1 else if eqb i 1 then 0 else i in
      to_reverse_bytes (colour (get_profile_colour_map p target) new_index)

unfoldable pub map_colour_target_to_fader : ColourTargets → FaderName
map_colour_target_to_fader ColourTargets.fade_meter1 = FaderName.a
map_colour_target_to_fader ColourTargets.fade_meter2 = FaderName.b
map_colour_target_to_fader ColourTargets.fade_meter3 = FaderName.c
map_colour_target_to_fader ColourTargets.fade_meter4 = FaderName.d
map_colour_target_to_fader _ = FaderName.a

unfoldable pub get_fader_lighting : Profile → ColourTargets → ℕ → Bytes4
unfolding get_profile_colour_map colour to_reverse_bytes map_colour_target_to_fader
    get_fader_mute_state
get_fader_lighting p target i = elim (get_fader_mute_state p (map_colour_target_to_fader target)) [
  | ChannelState.muted ↦ blank
  | ChannelState.unmuted ↦ to_reverse_bytes (colour (get_profile_colour_map p target) i)
]

-- the four bytes that the loop writes for a colour of a target
unfoldable pub lighting : Profile → Bool → ColourTargets → ℕ → Bytes4
unfolding get_sampler_lighting get_fader_lighting
lighting p blank_mute ColourTargets.sampler_bottom_left i =
    get_sampler_lighting p ColourTargets.sampler_bottom_left i
lighting p blank_mute ColourTargets.sampler_bottom_right i =
    get_sampler_lighting p ColourTargets.sampler_bottom_right i
lighting p blank_mute ColourTargets.sampler_top_left i =
    get_sampler_lighting p ColourTargets.sampler_top_left i
lighting p blank_mute ColourTargets.sampler_top_right i =
    get_sampler_lighting p ColourTargets.sampler_top_right i
lighting p true ColourTargets.fade_meter1 i = get_fader_lighting p ColourTargets.fade_meter1 i
lighting p true ColourTargets.fade_meter2 i = get_fader_lighting p ColourTargets.fade_meter2 i
lighting p true ColourTargets.fade_meter3 i = get_fader_lighting p ColourTargets.fade_meter3 i
lighting p true ColourTargets.fade_meter4 i = get_fader_lighting p ColourTargets.fade_meter4 i
lighting p blank_mute target i = to_reverse_bytes (colour (get_profile_colour_map p target) i)

-- `colour_array[position..position + 4].copy_from_slice(&bytes)`
unfoldable pub copy_from_slice : List ℕ → ℕ → Bytes4 → List ℕ
copy_from_slice array n (b0, b1, b2, b3) =
    set (set (set (set array n b0) (n + 1) b1) (n + 2) b2) (n + 3) b3

-- the loop over the colours `i`, `i + 1`, .. of a target, `left` of them
unfoldable pub paint_colours :
    (ColourTargets → ℕ → Bytes4) → Bool → ColourTargets → ℕ → ℕ → List ℕ → List ℕ
unfolding copy_from_slice
paint_colours bytes format target i zero array = array
paint_colours bytes format target i (suc left) array =
    paint_colours bytes format target (suc i) left
      (copy_from_slice array (position target i format) (bytes target i))

unfoldable pub paint_targets :
    (ColourTargets → ℕ → Bytes4) → Bool → List ColourTargets → List ℕ → List ℕ
unfolding paint_colours
paint_targets bytes format [] array = array
paint_targets bytes format (target ∷ rest) array =
    paint_targets bytes format rest
      (paint_colours bytes format target 0 (get_colour_count target) array)

unfoldable pub get_colour_map : Profile → Bool → Bool → List ℕ
unfolding paint_targets lighting
get_colour_map p use_format_1_3_40 blank_mute =
    paint_targets (lighting p blank_mute) use_format_1_3_40 colour_targets_variants
      (replicate 520 0)
