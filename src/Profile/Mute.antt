-- ===== src/Profile/Mute.antt =====
-- The mute buttons and the cough button of a profile, daemon/src/profile.rs.
use goxlr_utility.Base.{ℕ, Bool, true, false, ◌&&◌, ◌||◌, not, eqb, if◌then◌else◌, update}
use goxlr_utility.Types.{FaderName, MuteFunction, fader_name_enumeration, fader_name_index, is_all}
use goxlr_utility.Usb.{ButtonStates, ChannelState}
use goxlr_utility.Profile.State.{
  Profile, MuteButton, ColourMap, ColourOffStyle, CoughToggle, is_on, state_of,
}

-- What `get_mute_button_state` returns, with names for its parts.
pub record MuteButtonState : Type 0 where
  pub muted_to_x : Bool
  pub muted_to_all : Bool
  pub mute_function : MuteFunction

unfoldable pub get_mute_button_state : Profile → FaderName → MuteButtonState
get_mute_button_state p fader = record {
  muted_to_x = is_on (p.mute_buttons fader).colour_map.state;
  muted_to_all = is_on (p.mute_buttons fader).colour_map.blink;
  mute_function = (p.mute_buttons fader).mute_function;
}

-- The test that the source repeats: the button mutes its channel everywhere.
abbrev pub mutes_all : MuteButtonState → Bool
mutes_all s = s.muted_to_all || (s.muted_to_x && is_all s.mute_function)

unfoldable pub get_fader_mute_state : Profile → FaderName → ChannelState
unfolding get_mute_button_state
get_fader_mute_state p fader =
    if mutes_all (get_mute_button_state p fader) then ChannelState.muted else ChannelState.unmuted

unfoldable pub set_mute_button : Profile → FaderName → MuteButton → Profile
set_mute_button p fader button = record p { mute_buttons = update p.mute_buttons fader button }

unfoldable pub set_mute_previous_volume : FaderName → ℕ → Profile → Profile
unfolding set_mute_button
set_mute_previous_volume fader volume p =
    set_mute_button p fader (record (p.mute_buttons fader) { previous_volume = volume })

unfoldable pub set_mute_button_on : FaderName → Bool → Profile → Profile
unfolding set_mute_button
set_mute_button_on fader on p =
    let b = p.mute_buttons fader in
    set_mute_button p fader (record b { colour_map = record b.colour_map { state = state_of on } })

unfoldable pub set_mute_button_blink : FaderName → Bool → Profile → Profile
unfolding set_mute_button
set_mute_button_blink fader on p =
    let b = p.mute_buttons fader in
    set_mute_button p fader (record b { colour_map = record b.colour_map { blink = state_of on } })

unfoldable pub set_mute_button_behaviour : FaderName → MuteFunction → Profile → Profile
unfolding set_mute_button
set_mute_button_behaviour fader behaviour p =
    set_mute_button p fader (record (p.mute_buttons fader) { mute_function = behaviour })

-- What `get_mute_chat_button_state` returns.
pub record MuteChatState : Type 0 where
  pub mute_toggle : Bool
  pub muted_to_x : Bool
  pub muted_to_all : Bool
  pub mute_function : MuteFunction

abbrev pub is_cough_toggle : CoughToggle → Bool
is_cough_toggle CoughToggle.toggle = true
is_cough_toggle CoughToggle.hold = false

unfoldable pub get_mute_chat_button_state : Profile → MuteChatState
get_mute_chat_button_state p = record {
  mute_toggle = is_cough_toggle p.mute_chat.cough_behaviour;
  muted_to_x = p.mute_chat.cough_button_on;
  muted_to_all = is_on p.mute_chat.blink;
  mute_function = p.mute_chat.cough_mute_source;
}

unfoldable pub set_mute_chat_button_on : Bool → Profile → Profile
set_mute_chat_button_on on p = record p { mute_chat = record p.mute_chat { cough_button_on = on } }

unfoldable pub set_mute_chat_button_blink : Bool → Profile → Profile
set_mute_chat_button_blink on p = record p {
  mute_chat = record p.mute_chat { blink = state_of on };
}

unfoldable pub set_chat_mute_button_behaviour : MuteFunction → Profile → Profile
set_chat_mute_button_behaviour behaviour p = record p {
  mute_chat = record p.mute_chat { cough_mute_source = behaviour };
}

unfoldable pub set_chat_mute_button_is_held : Bool → Profile → Profile
set_chat_mute_button_is_held is_hold p = record p {
  mute_chat = record p.mute_chat {
    cough_behaviour = if is_hold then CoughToggle.hold else CoughToggle.toggle;
  };
}

abbrev lit_off : ColourOffStyle → ButtonStates
lit_off ColourOffStyle.dimmed = ButtonStates.dimmed_colour1
lit_off ColourOffStyle.colour2 = ButtonStates.colour2
lit_off ColourOffStyle.dimmed_colour2 = ButtonStates.dimmed_colour2

unfoldable pub get_mute_chat_button_colour_state : Profile → ButtonStates
get_mute_chat_button_colour_state p =
    if is_on p.mute_chat.blink
    then ButtonStates.flashing
    else if p.mute_chat.cough_button_on
    then ButtonStates.colour1
    else lit_off p.mute_chat.colour_map.off_style

-- `get_button_colour_state`, on the button's colour map
unfoldable pub colour_state : ColourMap → ButtonStates
colour_state m =
    if is_on m.blink
    then ButtonStates.flashing
    else if is_on m.state
    then ButtonStates.colour1
    else lit_off m.off_style

-- The fader that holds the microphone, kept in the cough button's settings; 4 is none.
unfoldable pub is_mic_on_fader : Profile → Bool
is_mic_on_fader p = not (eqb p.mute_chat.mic_fader_id 4)

unfoldable pub fader_from_id : ℕ → FaderName
fader_from_id n =
    if eqb n 0
    then FaderName.a
    else if eqb n 1
    then FaderName.b
    else if eqb n 2
    then FaderName.c
    else FaderName.d

unfoldable pub get_mic_fader : Profile → FaderName
unfolding fader_from_id
get_mic_fader p = fader_from_id p.mute_chat.mic_fader_id

-- The range check of `set_mic_fader_id` passes for every fader's discriminant.
unfoldable pub set_mic_fader : FaderName → Profile → Profile
unfolding fader_name_index
set_mic_fader fader p = record p {
  mute_chat = record p.mute_chat { mic_fader_id = fader_name_index fader };
}

unfoldable pub clear_mic_fader : Profile → Profile
clear_mic_fader p = record p { mute_chat = record p.mute_chat { mic_fader_id = 4 } }

unfoldable pub mic_muted_by_fader : Profile → Bool
unfolding is_mic_on_fader get_mic_fader get_mute_button_state
mic_muted_by_fader p =
    if is_mic_on_fader p then mutes_all (get_mute_button_state p (get_mic_fader p)) else false

unfoldable pub mic_muted_by_cough : Profile → Bool
unfolding get_mute_chat_button_state
mic_muted_by_cough p =
    let s = get_mute_chat_button_state p in
    s.muted_to_all || (s.muted_to_x && is_all s.mute_function)

-- The value of the MicInputMute effect, `get_mic_mute` of daemon/src/mic_profile.rs.
unfoldable pub get_mic_mute : Profile → ℕ
unfolding mic_muted_by_fader mic_muted_by_cough
get_mic_mute p = if mic_muted_by_cough p || mic_muted_by_fader p then 1 else 0
