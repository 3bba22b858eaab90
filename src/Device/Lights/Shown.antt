-- ===== src/Device/Lights/Shown.antt =====
-- What the lights of the buttons, and the tests of a firmware's version, come to.
use goxlr_utility.Base.{◌≡◌, refl, some, get_elem?, index, length}
use goxlr_utility.Usb.{Buttons, ButtonStates, buttons_index, buttons_enumeration}
use goxlr_utility.Profile.{Profile}
use goxlr_utility.Profile.Mute.{get_mute_chat_button_colour_state}
use goxlr_utility.Profile.Lighting.{get_button_colour_state}
use goxlr_utility.Device.Lights.{light_buttons, create_button_states}

-- The state of each button: the cough button has its own.
abbrev pub shown : Profile → Buttons → ButtonStates
shown p Buttons.microphone_mute = get_mute_chat_button_colour_state p
shown p b = get_button_colour_state p b

-- The states sent are 24, and at a button's discriminant stands the state of that button.
pub create_button_states-shown :
    (p : Profile) (b : Buttons)
    → (length (create_button_states p) ≡ 24)
      × (get_elem? (create_button_states p) (index b) ≡ some (shown p b))
unfolding create_button_states light_buttons buttons_index
create_button_states-shown p Buttons.fader1_mute = (refl, refl)
create_button_states-shown p Buttons.fader2_mute = (refl, refl)
create_button_states-shown p Buttons.fader3_mute = (refl, refl)
create_button_states-shown p Buttons.fader4_mute = (refl, refl)
create_button_states-shown p Buttons.bleep = (refl, refl)
create_button_states-shown p Buttons.microphone_mute = (refl, refl)
create_button_states-shown p Buttons.effect_select1 = (refl, refl)
create_button_states-shown p Buttons.effect_select2 = (refl, refl)
create_button_states-shown p Buttons.effect_select3 = (refl, refl)
create_button_states-shown p Buttons.effect_select4 = (refl, refl)
create_button_states-shown p Buttons.effect_select5 = (refl, refl)
create_button_states-shown p Buttons.effect_select6 = (refl, refl)
create_button_states-shown p Buttons.effect_fx = (refl, refl)
create_button_states-shown p Buttons.effect_megaphone = (refl, refl)
create_button_states-shown p Buttons.effect_robot = (refl, refl)
create_button_states-shown p Buttons.effect_hard_tune = (refl, refl)
create_button_states-shown p Buttons.sampler_select_a = (refl, refl)
create_button_states-shown p Buttons.sampler_select_b = (refl, refl)
create_button_states-shown p Buttons.sampler_select_c = (refl, refl)
create_button_states-shown p Buttons.sampler_top_left = (refl, refl)
create_button_states-shown p Buttons.sampler_top_right = (refl, refl)
create_button_states-shown p Buttons.sampler_bottom_left = (refl, refl)
create_button_states-shown p Buttons.sampler_bottom_right = (refl, refl)
create_button_states-shown p Buttons.sampler_clear = (refl, refl)
