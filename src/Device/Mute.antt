-- ===== src/Device/Mute.antt =====
-- The mute buttons of the faders: `handle_fader_mute` and what it calls.
pub mod Steps
pub mod Effect
pub mod ToAll
pub mod Opening
pub mod Agreement
use Prim.Native.String.{◌++◌}
use goxlr_utility.Base.{
  ℕ, Bool, true, false, not, ◌&&◌, ◌||◌, ◌==◌, Option, none, some, if◌then◌else◌,
}
use goxlr_utility.Types.{ChannelName, FaderName, InputDevice, is_all, channel_name_enumeration}
use goxlr_utility.Usb.{Request, ChannelState}
use goxlr_utility.Profile.Mute.{
  get_mute_button_state, set_mute_previous_volume, set_mute_button_on, set_mute_button_blink,
  mic_muted_by_cough,
}
use goxlr_utility.Profile.Faders.{get_fader_assignment, get_channel_volume, set_channel_volume}
use goxlr_utility.Device.State.{
  Device, Action, Done, Error, pure, raise, gets, ◌>>=◌, ◌>>◌, when, modify_profile, say, request,
}
use goxlr_utility.Device.Speech.{channel_display, tts_target}
use goxlr_utility.Device.Routing.{apply_routing}
use goxlr_utility.Device.Lights.{
  device_supports_submixes, is_mini, load_colour_map, update_button_states, apply_mic_input_mute,
}

unfoldable pub get_basic_input_from_channel : ChannelName → Option InputDevice
get_basic_input_from_channel ChannelName.mic = some InputDevice.microphone
get_basic_input_from_channel ChannelName.line_in = some InputDevice.line_in
get_basic_input_from_channel ChannelName.console = some InputDevice.console
get_basic_input_from_channel ChannelName.system = some InputDevice.system
get_basic_input_from_channel ChannelName.game = some InputDevice.game
get_basic_input_from_channel ChannelName.chat = some InputDevice.chat
get_basic_input_from_channel ChannelName.sample = some InputDevice.samples
get_basic_input_from_channel ChannelName.music = some InputDevice.music
get_basic_input_from_channel _ = none

abbrev pub route_if_some : Option InputDevice → Action Done
route_if_some none = pure tt
route_if_some (some input) = apply_routing input

abbrev pub is_headphones_or_line_out : ChannelName → Bool
is_headphones_or_line_out ChannelName.headphones = true
is_headphones_or_line_out ChannelName.line_out = true
is_headphones_or_line_out _ = false

unfoldable pub needs_submix_correction : Device → ChannelName → Bool
needs_submix_correction d channel =
    device_supports_submixes d.device_type d.firmware && is_headphones_or_line_out channel

-- The two `if`s on Chat and on Mic that end the handlers.
abbrev pub is_chat_or_mic : ChannelName → Bool
is_chat_or_mic ChannelName.chat = true
is_chat_or_mic ChannelName.mic = true
is_chat_or_mic _ = false

-- `mute_fader_to_all` up to its message: mute the channel, and light the button.
unfoldable pub silence_fader : FaderName → ChannelName → Action Done
silence_fader fader channel = do
  volume ← gets (λ d. get_channel_volume d.profile channel)
  lock_faders ← gets (λ d. d.settings.lock_faders)
  mini ← gets (λ d. is_mini d.device_type)
  when (not mini) (modify_profile (set_mute_previous_volume fader volume))
  when (not mini && not lock_faders) (request (Request.set_volume channel 0))
  request (Request.set_channel_state channel ChannelState.muted)
  modify_profile (set_mute_button_on fader true)

-- The end of `mute_fader_to_all`: the volume or the lights, and the routing of the microphone.
unfoldable pub settle_mute : ChannelName → Action Done
settle_mute channel = do
  lock_faders ← gets (λ d. d.settings.lock_faders)
  mini ← gets (λ d. is_mini d.device_type)
  if not mini && not lock_faders
      then modify_profile (set_channel_volume channel 0)
      else load_colour_map
  when (is_chat_or_mic channel) (apply_routing InputDevice.microphone)
  update_button_states

unfoldable pub mute_fader_to_all : FaderName → Bool → Action Done
mute_fader_to_all fader blink = do
  s ← gets (λ d. get_mute_button_state d.profile fader)
  channel ← gets (λ d. get_fader_assignment d.profile fader)
  if s.muted_to_all then pure tt else do
    when (not (s.muted_to_x && is_all s.mute_function)) (silence_fader fader channel)
    say (channel_display channel ++ " Muted")
    when blink (modify_profile (set_mute_button_blink fader true))
    settle_mute channel

-- The steps of `unmute_fader` for a fader that was muted to all: the channel's state first, but
-- for a microphone that the cough button mutes; then its volume.
unfoldable pub reopen_channel : ChannelName → Action Done
reopen_channel channel = do
  coughed ← gets (λ d. mic_muted_by_cough d.profile)
  when (not (channel == ChannelName.mic) || not coughed)
      (do request (Request.set_channel_state channel ChannelState.unmuted); apply_mic_input_mute)

unfoldable pub restore_volume : FaderName → ChannelName → Action Done
restore_volume fader channel = do
  previous_volume ← gets (λ d. (d.profile.mute_buttons fader).previous_volume)
  current_volume ← gets (λ d. get_channel_volume d.profile channel)
  lock_faders ← gets (λ d. d.settings.lock_faders)
  mini ← gets (λ d. is_mini d.device_type)
  correct ← gets (λ d. needs_submix_correction d channel)
  if not mini && not lock_faders
      then (do
        request (Request.set_volume channel previous_volume)
        modify_profile (set_channel_volume channel previous_volume))
      else (do when correct (request (Request.set_volume channel current_volume)); load_colour_map)
  when (is_chat_or_mic channel) (apply_routing InputDevice.microphone)

-- The end of `unmute_fader`.
unfoldable pub settle_unmute : Bool → ChannelName → Action Done
settle_unmute function_all channel = do
  when (not function_all) (route_if_some (get_basic_input_from_channel channel))
  say (channel_display channel ++ " unmuted")
  update_button_states

unfoldable pub darken_button : FaderName → Action Done
darken_button fader = do
  modify_profile (set_mute_button_on fader false)
  modify_profile (set_mute_button_blink fader false)

unfoldable pub unmute_fader : FaderName → Action Done
unmute_fader fader = do
  s ← gets (λ d. get_mute_button_state d.profile fader)
  channel ← gets (λ d. get_fader_assignment d.profile fader)
  if not s.muted_to_x && not s.muted_to_all then pure tt else do
    darken_button fader
    when (s.muted_to_all || is_all s.mute_function)
        (do reopen_channel channel; restore_volume fader channel)
    settle_unmute (is_all s.mute_function) channel

-- The end of `mute_fader_to_x`.
unfoldable pub settle_mute_to_x : ChannelName → Action Done
settle_mute_to_x channel = do
  route_if_some (get_basic_input_from_channel channel)
  update_button_states

unfoldable pub mute_fader_to_x : FaderName → Action Done
mute_fader_to_x fader = do
  s ← gets (λ d. get_mute_button_state d.profile fader)
  channel ← gets (λ d. get_fader_assignment d.profile fader)
  if s.muted_to_all
      then raise Error.bail
      else if s.muted_to_x || s.muted_to_all
      then pure tt
      else if is_all s.mute_function
      then mute_fader_to_all fader false
      else do
        say (channel_display channel ++ (" Muted" ++ tts_target s.mute_function))
        modify_profile (set_mute_button_on fader true)
        settle_mute_to_x channel

-- The two tests after the first: the state is the one read before it.
abbrev pub press_action : Bool → Bool → Bool → FaderName → Action Done
press_action held muted_to_x function_all fader = do
  when (not held && muted_to_x) (unmute_fader fader)
  when (not held && not muted_to_x && not function_all) (mute_fader_to_x fader)

unfoldable pub handle_fader_mute : FaderName → Bool → Action Done
handle_fader_mute fader held = do
  s ← gets (λ d. get_mute_button_state d.profile fader)
  if held || (not s.muted_to_x && is_all s.mute_function)
      then (if held && s.muted_to_all then pure tt else do
        mute_fader_to_all fader held
        press_action held s.muted_to_x (is_all s.mute_function) fader)
      else press_action held s.muted_to_x (is_all s.mute_function) fader
