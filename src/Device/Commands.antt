-- ===== src/Device/Commands.antt =====
-- daemon/src/device.rs: `perform_command`, for the commands of the mixer: faders, mute buttons, cough
-- button, volumes, routing and submixes.
pub mod Steps
pub mod Unmuted
pub mod Locking
pub mod Muting
pub mod Coughing
pub mod Agreement
pub mod Reached
use goxlr_utility.Base.{
  ℕ, Bool, true, false, not, ◌&&◌, ◌||◌, Option, none, some, List, [], ◌∷◌, ite, update,
  if◌then◌else◌,
}
use goxlr_utility.Types.{
  ChannelName, FaderName, InputDevice, OutputDevice, MuteFunction, Mix, fader_name_enumeration,
  input_device_variants, MuteFunction-discrete, is_all,
}
use goxlr_utility.Usb.{Request, ChannelState}
use goxlr_utility.Profile.{Profile}
use goxlr_utility.Profile.Mute.{
  MuteChatState, get_mute_button_state, set_mute_button_behaviour, get_mute_chat_button_state,
  set_mute_chat_button_on, set_mute_chat_button_blink, set_chat_mute_button_behaviour,
  set_chat_mute_button_is_held, mic_muted_by_fader,
}
use goxlr_utility.Profile.Faders.{get_fader_from_channel, set_channel_volume}
use goxlr_utility.Profile.Router.{set_routing, set_monitor_mix}
use goxlr_utility.Profile.Submix.{is_submix_enabled, set_submix_enabled, set_mix_output}
use goxlr_utility.Device.State.{
  Device, Settings, Action, Done, Error, ok, pure, raise, gets, ◌>>=◌, ◌>>◌, when, modify_profile,
  request,
}
use goxlr_utility.Device.Command.{GoxlrCommand, MuteState}
use goxlr_utility.Device.Routing.{apply_routing}
use goxlr_utility.Device.Lights.{update_button_states, load_colour_map}
use goxlr_utility.Device.Mute.{unmute_fader, mute_fader_to_x, mute_fader_to_all}
use goxlr_utility.Device.Cough.{unmute_chat_if_muted}
use goxlr_utility.Device.Faders.{set_fader, lock_faders, unlock_faders}
use goxlr_utility.Device.Volumes.{update_submix_for}
use goxlr_utility.Device.Submix.{load_submix_settings}

abbrev pub equal : Bool → Bool → Bool
equal a b = if a then b else not b

abbrev pub modify_settings : (Settings → Settings) → Action Done
modify_settings f d = (ok tt, record d { settings = f d.settings })

-- The fader waits for the volume that the daemon gave its channel.
unfoldable pub latch : Option FaderName → ℕ → Action Done
latch none volume d = pure tt d
latch (some fader) volume d = (
  ok tt,
  record d {
    fader_pause_until = update d.fader_pause_until fader (record { paused = true; until = volume });
  },
)

unfoldable pub change_volume : ChannelName → ℕ → Action Done
change_volume channel volume = do
  request (Request.set_volume channel volume)
  modify_profile (set_channel_volume channel volume)
  update_submix_for channel volume
  fader ← gets (λ d. get_fader_from_channel d.profile channel)
  latch fader volume

unfoldable pub change_mute_function : FaderName → MuteFunction → Action Done
change_mute_function fader behaviour = do
  unmute_fader fader
  modify_profile (set_mute_button_behaviour fader behaviour)

unfoldable pub change_cough_function : MuteFunction → Action Done
change_cough_function mute_function = do
  unmute_chat_if_muted
  modify_profile (set_chat_mute_button_behaviour mute_function)

-- `none` is the error of `set_routing`.
unfoldable pub reroute : InputDevice → Option Profile → Action Done
reroute input none = raise Error.bail
reroute input (some p) = do modify_profile (λ _. p); apply_routing input

unfoldable pub change_lock : Bool → Action Done
change_lock value = do
  modify_settings (λ s. record s { lock_faders = value })
  if value then lock_faders else unlock_faders
  load_colour_map

unfoldable pub set_fader_state : FaderName → MuteState → Action Done
set_fader_state fader MuteState.unmuted = unmute_fader fader
set_fader_state fader MuteState.muted_to_x = mute_fader_to_x fader
set_fader_state fader MuteState.muted_to_all = mute_fader_to_all fader true

-- The state that the profile gives the microphone, when the button toggles or is not lit.
unfoldable pub apply_mic_state : MuteChatState → Action Done
apply_mic_state s = do
  by_fader ← gets (λ d. mic_muted_by_fader d.profile)
  request (
      Request.set_channel_state ChannelName.mic (
        if (s.muted_to_all || (s.muted_to_x && is_all s.mute_function)) || by_fader
        then ChannelState.muted
        else ChannelState.unmuted))

unfoldable pub apply_cough_from_profile : Action Done
apply_cough_from_profile = do
  s ← gets (λ d. get_mute_chat_button_state d.profile)
  if not s.mute_toggle && s.muted_to_x
      then (do
        modify_profile (set_mute_chat_button_on false)
        modify_profile (set_mute_chat_button_blink false))
      else apply_mic_state s

unfoldable pub cough_light : MuteState → Bool × Bool
cough_light MuteState.unmuted = (false, false)
cough_light MuteState.muted_to_x = (true, false)
cough_light MuteState.muted_to_all = (false, true)

unfoldable pub set_cough_state : MuteState → Action Done
set_cough_state state = do
  modify_profile (set_mute_chat_button_on (cough_light state).0)
  modify_profile (set_mute_chat_button_blink (cough_light state).1)
  apply_cough_from_profile
  apply_routing InputDevice.microphone
  update_button_states

unfoldable pub route_all : List InputDevice → Action Done
route_all [] = pure tt
route_all (input ∷ rest) = do apply_routing input; route_all rest

unfoldable pub monitor : OutputDevice → Action Done
monitor device = do modify_profile (set_monitor_mix device); route_all input_device_variants

unfoldable pub change_submix_enabled : Bool → Action Done
change_submix_enabled enabled = do
  when (not enabled) (monitor OutputDevice.headphones)
  modify_profile (set_submix_enabled enabled)
  load_submix_settings true

-- The later arms of `perform_command`.
abbrev pub mute_also : Bool → Action Done
mute_also value = modify_settings (λ s. record s { vc_mute_also_mute_cm = value })

abbrev pub monitor_with_fx : Bool → Action Done
monitor_with_fx value = do
  modify_settings (λ s. record s { enable_monitor_with_fx = value })
  apply_routing InputDevice.microphone

abbrev pub lock_or_keep : Bool → Action Done
lock_or_keep value = do
  current ← gets (λ d. d.settings.lock_faders)
  if equal current value then pure tt else change_lock value

abbrev pub set_cough_state_if : MuteState → Action Done
set_cough_state_if state = do
  toggles ← gets (λ d. (get_mute_chat_button_state d.profile).mute_toggle)
  if not toggles then raise Error.bail else set_cough_state state

abbrev pub enable_submixes : Bool → Action Done
enable_submixes enabled = do
  current ← gets (λ d. is_submix_enabled d.profile)
  if equal current enabled then pure tt else change_submix_enabled enabled

abbrev pub move_output : OutputDevice → Mix → Action Done
move_output device mix = do modify_profile (set_mix_output device mix); load_submix_settings false

abbrev pub monitor_output : OutputDevice → Action Done
monitor_output device = do monitor device; load_submix_settings false

unfoldable pub perform_command : GoxlrCommand → Action Done
perform_command (GoxlrCommand.set_fader fader channel) = set_fader fader channel
perform_command (GoxlrCommand.set_fader_mute_function fader behaviour) = do
  current ← gets (λ d. (get_mute_button_state d.profile fader).mute_function)
  ite (MuteFunction-discrete current behaviour) (pure tt) (change_mute_function fader behaviour)
perform_command (GoxlrCommand.set_volume channel volume) = change_volume channel volume
perform_command (GoxlrCommand.set_router input output enabled) =
    gets (λ d. set_routing input output enabled d.profile) >>= reroute input
perform_command (GoxlrCommand.set_cough_mute_function mute_function) = do
  current ← gets (λ d. (get_mute_chat_button_state d.profile).mute_function)
  ite (MuteFunction-discrete current mute_function) (pure tt) (change_cough_function mute_function)
perform_command (GoxlrCommand.set_cough_is_hold is_hold) = do
  unmute_chat_if_muted
  modify_profile (set_chat_mute_button_is_held is_hold)
perform_command (GoxlrCommand.set_vc_mute_also_mute_cm value) = mute_also value
perform_command (GoxlrCommand.set_monitor_with_fx value) = monitor_with_fx value
perform_command (GoxlrCommand.set_lock_faders value) = lock_or_keep value
perform_command (GoxlrCommand.set_fader_mute_state fader state) = set_fader_state fader state
perform_command (GoxlrCommand.set_cough_mute_state state) = set_cough_state_if state
perform_command (GoxlrCommand.set_sub_mix_enabled enabled) = enable_submixes enabled
perform_command (GoxlrCommand.set_sub_mix_output_mix device mix) = move_output device mix
perform_command (GoxlrCommand.set_monitor_mix device) = monitor_output device
