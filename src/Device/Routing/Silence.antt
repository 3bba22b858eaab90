-- ===== src/Device/Routing/Silence.antt =====
-- The transient routing and what it takes away.
use goxlr_utility.Base.{
  ◌≡◌, ◌≢◌, ◌∙◌, Bool, true, false, ◌&&◌, List, [], ◌∷◌, ◌==◌, update, if◌then◌else◌, arith,
}
use goxlr_utility.Types.{
  ChannelName, FaderName, InputDevice, OutputDevice, MuteFunction, channel_name_enumeration,
  output_device_enumeration, input_device_enumeration, fader_name_variants,
}
use goxlr_utility.Profile.Router.{Router, get_router, get_monitoring_mix}
use goxlr_utility.Profile.{Profile}
use goxlr_utility.Profile.Mute.{
  get_mute_button_state, get_mute_chat_button_state, mic_muted_by_cough,
}
use goxlr_utility.Profile.Faders.{get_fader_assignment}
use goxlr_utility.Device.State.{Device}
use goxlr_utility.Device.Routing.{
  apply_transient_channel_routing, apply_transient_fader_routing, apply_transient_cough_routing,
  chat_mic_mute, transient_faders, apply_transient_routing, channel_of_input, final_router,
}

channel_lower :
    (c : ChannelName) (x all : Bool) (m : MuteFunction) (r : Router) (o : OutputDevice)
    → r o ≡ false
    → apply_transient_channel_routing c x all m r o ≡ false
unfolding apply_transient_channel_routing
channel_lower c x all m r o e = ground (arith, e)

chat_mic_mute-lower :
    (p : Profile) (also : Bool) (gs : List FaderName) (r : Router) (o : OutputDevice)
    → r o ≡ false
    → chat_mic_mute p also gs r o ≡ false
unfolding chat_mic_mute
chat_mic_mute-lower p also [] r o e = e
chat_mic_mute-lower p also (g ∷ gs) r o e = chat_mic_mute-lower p also gs _ o (ground (arith, e))

fader_lower :
    (p : Profile) (c : ChannelName) (g : FaderName) (b : Bool) (r : Router) (o : OutputDevice)
    → r o ≡ false
    → (if b then apply_transient_fader_routing p c g r else r) o ≡ false
unfolding apply_transient_fader_routing
fader_lower p c g true r o e =
    let s = get_mute_button_state p g in
    channel_lower c s.muted_to_x s.muted_to_all s.mute_function r o e
fader_lower p c g false r o e = e

pub transient_faders-lower :
    (p : Profile) (c : ChannelName) (gs : List FaderName) (r : Router) (o : OutputDevice)
    → r o ≡ false
    → transient_faders p c gs r o ≡ false
unfolding transient_faders
transient_faders-lower p c [] r o e = e
transient_faders-lower p c (g ∷ gs) r o e =
    transient_faders-lower p c gs _ o (fader_lower p c g (get_fader_assignment p g == c) r o e)

cough_lower :
    (p : Profile) (r : Router) (o : OutputDevice)
    → r o ≡ false
    → apply_transient_cough_routing p r o ≡ false
unfolding apply_transient_cough_routing
cough_lower p r o e =
    let s = get_mute_chat_button_state p in
    channel_lower ChannelName.mic s.muted_to_x s.muted_to_all s.mute_function r o e

pub transient_lower :
    (p : Profile) (also : Bool) (i : InputDevice) (r : Router) (o : OutputDevice)
    → transient_faders p (channel_of_input i) fader_name_variants r o ≡ false
    → apply_transient_routing p also i r o ≡ false
unfolding apply_transient_routing
transient_lower p also i r o e = step (channel_of_input i == ChannelName.mic)
  where
    router : Router
    router = transient_faders p (channel_of_input i) fader_name_variants r

    step :
        (b : Bool)
        → (if b
              then apply_transient_cough_routing p (chat_mic_mute p also fader_name_variants router)
              else router)
            o
          ≡ false
    step true = cough_lower p _ o (chat_mic_mute-lower p also fader_name_variants router o e)
    step false = e

-- With the microphone muted to all by the cough button, nothing is left.
coughed_none :
    (p : Profile) (also : Bool) (r : Router) (o : OutputDevice)
    → mic_muted_by_cough p ≡ true
    → apply_transient_routing p also InputDevice.microphone r o ≡ false
unfolding apply_transient_routing apply_transient_cough_routing apply_transient_channel_routing
    channel_of_input mic_muted_by_cough
coughed_none p also r o e = ground (arith, e)

-- The last step of `final_router`: the headphones get what the monitored output gets.
abbrev pub monitored : OutputDevice → Router → Router
monitored m r = if m == OutputDevice.headphones then r else update r OutputDevice.headphones (r m)

pub monitored_elsewhere :
    (m : OutputDevice) (r : Router) (o : OutputDevice)
    → o ≢ OutputDevice.headphones
    → monitored m r o ≡ r o
monitored_elsewhere m r o n = ground (arith, n)

pub monitored_none :
    (m : OutputDevice) (r : Router) (o : OutputDevice)
    → ((q : OutputDevice) → r q ≡ false)
    → monitored m r o ≡ false
monitored_none m r o e = ground (arith, e m, e o)

-- With effects monitored, the headphones get the microphone.
with_fx :
    (b : Bool) (r : Router) (o : OutputDevice)
    → o ≢ OutputDevice.headphones
    → (if b then update r OutputDevice.headphones true else r) o ≡ r o
with_fx b r o n = ground (arith, n)

-- The buttons only take away: an output other than the headphones that the profile does not route
-- an input to gets nothing of it, whatever is muted, monitored or monitored with effects.
pub final_router-removes :
    (d : Device) (i : InputDevice) (o : OutputDevice)
    → o ≢ OutputDevice.headphones
    → get_router d.profile i o ≡ false
    → final_router d i o ≡ false
unfolding final_router
final_router-removes d i o n e =
    monitored_elsewhere (get_monitoring_mix d.profile) _ o n
    ∙ transient_lower d.profile d.settings.vc_mute_also_mute_cm i _ o (
        transient_faders-lower d.profile (channel_of_input i) fader_name_variants _ o (
          with_fx
            ((i == InputDevice.microphone)
              && d.settings.enable_monitor_with_fx
              && d.profile.fx_enabled)
            (get_router d.profile i) o n
          ∙ e))

-- A microphone that the cough button mutes to all reaches no output, the headphones included.
pub final_router-coughed :
    (d : Device) (o : OutputDevice)
    → mic_muted_by_cough d.profile ≡ true
    → final_router d InputDevice.microphone o ≡ false
unfolding final_router
final_router-coughed d o e =
    monitored_none (get_monitoring_mix d.profile) _ o
      λ q. coughed_none d.profile d.settings.vc_mute_also_mute_cm _ q e
