-- ===== src/Device/Cough.antt =====
-- The cough button, `handle_cough_mute`.
pub mod Effect
pub mod Agreement
pub mod Branches
pub mod Presses
pub mod Unmute
use Prim.Native.String.{◌++◌}
use goxlr_utility.Base.{Bool, true, false, not, ◌&&◌, ◌||◌, if◌then◌else◌}
use goxlr_utility.Types.{ChannelName, InputDevice, is_all}
use goxlr_utility.Usb.{Request, ChannelState}
use goxlr_utility.Profile.Mute.{
  MuteChatState, get_mute_chat_button_state, set_mute_chat_button_on, set_mute_chat_button_blink,
  mic_muted_by_fader,
}
use goxlr_utility.Device.State.{
  Action, Done, pure, gets, ◌>>=◌, ◌>>◌, when, modify_profile, say, request,
}
use goxlr_utility.Device.Speech.{tts_target}
use goxlr_utility.Device.Routing.{apply_routing}
use goxlr_utility.Device.Lights.{apply_mic_input_mute}

-- The two calls that the handler repeats.
unfoldable pub set_mic_state : ChannelState → Action Done
set_mic_state state = do
  request (Request.set_channel_state ChannelName.mic state)
  apply_mic_input_mute

-- Press without toggle, and release of an unmuted button with toggle: they do the same.
unfoldable pub cough_mute : MuteChatState → Action Done
cough_mute s = do
  modify_profile (set_mute_chat_button_on true)
  when (is_all s.mute_function) (set_mic_state ChannelState.muted)
  say ("Mic Muted" ++ tts_target s.mute_function)
  apply_routing InputDevice.microphone

unfoldable pub cough_held : Action Done
cough_held = do
  modify_profile (set_mute_chat_button_on true)
  modify_profile (set_mute_chat_button_blink true)
  say "Mic Muted"
  set_mic_state ChannelState.muted
  apply_routing InputDevice.microphone

unfoldable pub cough_toggle_off : MuteChatState → Action Done
cough_toggle_off s = do
  modify_profile (set_mute_chat_button_on false)
  modify_profile (set_mute_chat_button_blink false)
  by_fader ← gets (λ d. mic_muted_by_fader d.profile)
  when ((s.muted_to_all || (s.muted_to_x && is_all s.mute_function)) && not by_fader)
      (set_mic_state ChannelState.unmuted)
  say "Mic Unmuted"
  apply_routing InputDevice.microphone

unfoldable pub cough_let_go : MuteChatState → Action Done
cough_let_go s = do
  modify_profile (set_mute_chat_button_on false)
  by_fader ← gets (λ d. mic_muted_by_fader d.profile)
  when (is_all s.mute_function && not by_fader) (set_mic_state ChannelState.unmuted)
  say "Mic Unmuted"
  apply_routing InputDevice.microphone

unfoldable pub handle_cough_mute : Bool → Bool → Bool → Bool → Action Done
handle_cough_mute press release held held_called = do
  s ← gets (λ d. get_mute_chat_button_state d.profile)
  if press
      then (if s.mute_toggle then pure tt else cough_mute s)
      else if held
      then (if not s.mute_toggle then pure tt else cough_held)
      else if release
      then (if s.mute_toggle
          then (if held_called
              then pure tt
              else if s.muted_to_x || s.muted_to_all
              then cough_toggle_off s
              else cough_mute s)
          else cough_let_go s)
      else pure tt

-- daemon/src/device.rs: `unmute_chat_if_muted`
unfoldable pub unmute_chat_if_muted : Action Done
unmute_chat_if_muted = do
  s ← gets (λ d. get_mute_chat_button_state d.profile)
  when (s.muted_to_x || s.muted_to_all) (handle_cough_mute true false false false)
