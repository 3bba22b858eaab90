-- ===== src/Device/Mute/Steps.antt =====
-- The steps of the mute handlers that leave the mute state of the channels alone.
use goxlr_utility.Base.{ℕ, refl, Bool, Option, none, some, arith}
use goxlr_utility.Types.{ChannelName, FaderName, InputDevice}
use goxlr_utility.Usb.{Request}
use goxlr_utility.Profile.Faders.{set_channel_volume}
use goxlr_utility.Device.State.{Device, modify_profile, request}
use goxlr_utility.Device.Hardware.Quiet.{
  Quiet, IsSilent, Quiet-pure, Quiet-request, Quiet-modify, Quiet-bind, Quiet-here, quiet_rules,
}
use goxlr_utility.Device.Routing.{apply_routing}
use goxlr_utility.Device.Lights.{
  load_colour_map, colour_map_request, update_button_states, apply_mic_input_mute,
}
use goxlr_utility.Device.Mute.{
  settle_mute, restore_volume, settle_unmute, settle_mute_to_x, route_if_some,
}

pub update_button_states-Quiet : Quiet update_button_states
unfolding update_button_states
update_button_states-Quiet = Quiet-here _ (λ d. Quiet-request _ (λ c sent. refl))

colour_map_request-IsSilent : (d : Device) → IsSilent (colour_map_request d)
unfolding colour_map_request
colour_map_request-IsSilent d c sent = ground arith

pub load_colour_map-Quiet : Quiet load_colour_map
unfolding load_colour_map
load_colour_map-Quiet = Quiet-here _ (λ d. Quiet-request _ (colour_map_request-IsSilent d))

pub apply_mic_input_mute-Quiet : Quiet apply_mic_input_mute
unfolding apply_mic_input_mute
apply_mic_input_mute-Quiet = Quiet-here _ (λ d. Quiet-request _ (λ c sent. refl))

pub apply_routing-Quiet : (input : InputDevice) → Quiet (apply_routing input)
unfolding apply_routing
apply_routing-Quiet input =
    Quiet-here _
      λ d. Quiet-bind _ _ (Quiet-request _ (λ c sent. refl)) (Quiet-request _ (λ c sent. refl))

pub set_volume-Quiet : (c : ChannelName) (v : ℕ) → Quiet (request (Request.set_volume c v))
set_volume-Quiet c v = Quiet-request _ (λ c sent. refl)

pub set_channel_volume-Quiet :
    (c : ChannelName) (v : ℕ) → Quiet (modify_profile (set_channel_volume c v))
unfolding set_channel_volume
set_channel_volume-Quiet c v = Quiet-modify _ (λ p. (refl, refl, refl))

pub route_if_some-Quiet : (o : Option InputDevice) → Quiet (route_if_some o)
route_if_some-Quiet none = Quiet-pure
route_if_some-Quiet (some input) = apply_routing-Quiet input

pub ruleset step_rules = (
  quiet_rules, update_button_states-Quiet, load_colour_map-Quiet, apply_routing-Quiet,
  set_volume-Quiet, set_channel_volume-Quiet, route_if_some-Quiet,
)

pub settle_mute-Quiet : (c : ChannelName) → Quiet (settle_mute c)
unfolding settle_mute
settle_mute-Quiet c = search step_rules depth 12

pub restore_volume-Quiet : (f : FaderName) (c : ChannelName) → Quiet (restore_volume f c)
unfolding restore_volume
restore_volume-Quiet f c = search step_rules depth 14

pub settle_unmute-Quiet : (all : Bool) (c : ChannelName) → Quiet (settle_unmute all c)
unfolding settle_unmute
settle_unmute-Quiet all c = search step_rules depth 12

pub settle_mute_to_x-Quiet : (c : ChannelName) → Quiet (settle_mute_to_x c)
unfolding settle_mute_to_x
settle_mute_to_x-Quiet c = search step_rules depth 12
