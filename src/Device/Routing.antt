-- ===== src/Device/Routing.antt =====
-- The routing of an input, `apply_routing` and the functions that it calls.
pub mod Cells
pub mod Silence
pub mod FaderSilence
use goxlr_utility.Base.{
  ℕ, ◌≡◌, Bool, true, false, not, ◌&&◌, ◌||◌, Option, none, some, List, [], ◌∷◌, ◌==◌, update, set,
  replicate, if◌then◌else◌, ltb,
}
use goxlr_utility.Types.{
  ChannelName, FaderName, InputDevice, OutputDevice, MuteFunction, is_all, fader_name_variants,
  output_device_variants, channel_name_enumeration, fader_name_enumeration,
  input_device_enumeration, output_device_enumeration,
}
use goxlr_utility.Usb.{Request}
use goxlr_utility.Usb.Routing.{position, input_halves, output_halves}
use goxlr_utility.Usb.Routing
use goxlr_utility.Profile.Router.{Router, get_router, get_monitoring_mix}
use goxlr_utility.Profile.{Profile, HardTuneSource}
use goxlr_utility.Profile.Mute.{get_mute_button_state, get_mute_chat_button_state, mutes_all}
use goxlr_utility.Profile.Faders.{get_fader_assignment}
use goxlr_utility.Device.State.{Device, Action, Done, request, ◌>>=◌, ◌>>◌}

unfoldable pub is_active_hardtune_source_all : Profile → Bool
is_active_hardtune_source_all p = elim p.hardtune_source [
  | some HardTuneSource.all ↦ true
  | some _ ↦ false
  | none ↦ true
]

-- `none` is the panic of `unwrap`, which the caller's test excludes.
unfoldable pub get_active_hardtune_source : Profile → Option InputDevice
get_active_hardtune_source p = elim p.hardtune_source [
  | none ↦ none
  | some HardTuneSource.music ↦ some InputDevice.music
  | some HardTuneSource.game ↦ some InputDevice.game
  | some HardTuneSource.line_in ↦ some InputDevice.line_in
  | some HardTuneSource.system ↦ some InputDevice.system
  | some HardTuneSource.all ↦ some InputDevice.music
]

-- the loop over the outputs, on the arrays of both halves
unfoldable pub route_outputs : Router → List OutputDevice → List ℕ × List ℕ → List ℕ × List ℕ
route_outputs router [] arrays = arrays
route_outputs router (output ∷ rest) (left, right) = route_outputs router rest (
    if router output
    then (
      set left (position (output_halves output).0) 0x20,
      set right (position (output_halves output).1) 0x20,
    )
    else (left, right))

abbrev pub takes_light_hardtune : InputDevice → Bool
takes_light_hardtune InputDevice.music = true
takes_light_hardtune InputDevice.game = true
takes_light_hardtune InputDevice.line_in = true
takes_light_hardtune InputDevice.system = true
takes_light_hardtune _ = false

-- the value at the hardtune position, if it is written
unfoldable pub hardtune_value : Profile → InputDevice → Option ℕ
unfolding is_active_hardtune_source_all get_active_hardtune_source
hardtune_value p input =
    if is_active_hardtune_source_all p
    then (if takes_light_hardtune input then some 0x04 else none)
    else elim (get_active_hardtune_source p) [
      | none ↦ none
      | some source ↦ if input == source then some 0x10 else none
    ]

abbrev pub write_hardtune : Option ℕ → List ℕ × List ℕ → List ℕ × List ℕ
write_hardtune none arrays = arrays
write_hardtune (some v) (left, right) = (
  set left (position Routing.OutputDevice.hard_tune) v,
  set right (position Routing.OutputDevice.hard_tune) v,
)

-- the arrays that `apply_channel_routing` sends
unfoldable pub channel_arrays : Profile → InputDevice → Router → List ℕ × List ℕ
unfolding route_outputs hardtune_value
channel_arrays p input router =
    write_hardtune (hardtune_value p input)
      (route_outputs router output_device_variants (replicate 22 0, replicate 22 0))

unfoldable pub apply_channel_routing : InputDevice → Router → Action Done
apply_channel_routing input router d =
    let (left_input, right_input) = input_halves input in
    let (left, right) = channel_arrays d.profile input router in
    (request (Request.set_routing left_input left)
        >> request (Request.set_routing right_input right))
      d

unfoldable pub apply_transient_channel_routing :
    ChannelName → Bool → Bool → MuteFunction → Router → Router
apply_transient_channel_routing channel_name muted_to_x muted_to_all mute_function router =
    if not muted_to_x || muted_to_all || is_all mute_function
    then (if (channel_name == ChannelName.mic)
          && (muted_to_all || (muted_to_x && is_all mute_function))
        then (λ _. false)
        else router)
    else elim mute_function [
      | MuteFunction.all ↦ router
      | MuteFunction.to_stream ↦ update router OutputDevice.broadcast_mix false
      | MuteFunction.to_voice_chat ↦ update router OutputDevice.chat_mic false
      | MuteFunction.to_phones ↦ update router OutputDevice.headphones false
      | MuteFunction.to_line_out ↦ update router OutputDevice.line_out false
    ]

unfoldable pub apply_transient_fader_routing : Profile → ChannelName → FaderName → Router → Router
unfolding get_mute_button_state apply_transient_channel_routing
apply_transient_fader_routing p channel_name fader router =
    let s = get_mute_button_state p fader in
    apply_transient_channel_routing channel_name s.muted_to_x s.muted_to_all s.mute_function router

unfoldable pub apply_transient_cough_routing : Profile → Router → Router
unfolding get_mute_chat_button_state apply_transient_channel_routing
apply_transient_cough_routing p router =
    let s = get_mute_chat_button_state p in
    apply_transient_channel_routing ChannelName.mic s.muted_to_x s.muted_to_all s.mute_function
      router

-- the loop over the faders of `apply_transient_chat_mic_mute`
unfoldable pub chat_mic_mute : Profile → Bool → List FaderName → Router → Router
unfolding get_mute_button_state get_fader_assignment
chat_mic_mute p mute_to_chat [] router = router
chat_mic_mute p mute_to_chat (fader ∷ rest) router = chat_mic_mute p mute_to_chat rest (
    if (get_fader_assignment p fader == ChannelName.chat)
      && mutes_all (get_mute_button_state p fader)
      && mute_to_chat
    then update router OutputDevice.chat_mic false
    else router)

-- the loop over the faders of `apply_transient_routing`
unfoldable pub transient_faders : Profile → ChannelName → List FaderName → Router → Router
unfolding apply_transient_fader_routing get_fader_assignment
transient_faders p channel_name [] router = router
transient_faders p channel_name (fader ∷ rest) router = transient_faders p channel_name rest (
    if get_fader_assignment p fader == channel_name
    then apply_transient_fader_routing p channel_name fader router
    else router)

unfoldable pub channel_of_input : InputDevice → ChannelName
channel_of_input InputDevice.microphone = ChannelName.mic
channel_of_input InputDevice.chat = ChannelName.chat
channel_of_input InputDevice.music = ChannelName.music
channel_of_input InputDevice.game = ChannelName.game
channel_of_input InputDevice.console = ChannelName.console
channel_of_input InputDevice.line_in = ChannelName.line_in
channel_of_input InputDevice.system = ChannelName.system
channel_of_input InputDevice.samples = ChannelName.sample

unfoldable pub apply_transient_routing : Profile → Bool → InputDevice → Router → Router
unfolding channel_of_input transient_faders chat_mic_mute apply_transient_cough_routing
apply_transient_routing p mute_to_chat input router =
    let channel_name = channel_of_input input in
    let router' = transient_faders p channel_name fader_name_variants router in
    if channel_name == ChannelName.mic
    then apply_transient_cough_routing p (chat_mic_mute p mute_to_chat fader_name_variants router')
    else router'

-- the router that `apply_routing` computes before it sends
unfoldable pub final_router : Device → InputDevice → Router
unfolding get_router get_monitoring_mix apply_transient_routing
final_router d input =
    let p = d.profile in
    let router = get_router p input in
    let monitored =
      if (input == InputDevice.microphone) && d.settings.enable_monitor_with_fx && p.fx_enabled
      then update router OutputDevice.headphones true
      else router in
    let transient = apply_transient_routing p d.settings.vc_mute_also_mute_cm input monitored in
    let monitor = get_monitoring_mix p in
    if monitor == OutputDevice.headphones
    then transient
    else update transient OutputDevice.headphones (transient monitor)

unfoldable pub apply_routing : InputDevice → Action Done
unfolding apply_channel_routing
apply_routing input d = apply_channel_routing input (final_router d input) d
