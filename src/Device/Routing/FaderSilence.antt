-- ===== src/Device/Routing/FaderSilence.antt =====
-- The mute button of a fader and the routing of its channel.
use goxlr_utility.Base.{
  ◌≡◌, ◌≢◌, ◌∙◌, true, false, Option, none, some, [], ◌∷◌, ◌==◌, if◌then◌else◌, arith,
}
use goxlr_utility.Types.{
  ChannelName, FaderName, InputDevice, OutputDevice, MuteFunction, channel_name_enumeration,
  output_device_enumeration, fader_name_variants,
}
use goxlr_utility.Profile.Router.{Router, get_monitoring_mix}
use goxlr_utility.Profile.{Profile}
use goxlr_utility.Profile.Mute.{get_mute_button_state, mutes_all}
use goxlr_utility.Profile.Faders.{get_fader_assignment}
use goxlr_utility.Device.State.{Device}
use goxlr_utility.Device.Routing.{
  apply_transient_channel_routing, apply_transient_fader_routing, transient_faders,
  channel_of_input, final_router,
}
use goxlr_utility.Device.Routing.Silence.{
  transient_faders-lower, transient_lower, monitored_elsewhere, monitored_none,
}

module _ (p : Profile) (c : ChannelName) (f : FaderName) (o : OutputDevice)
    (here : get_fader_assignment p f ≡ c)
    (taken : (r : Router) → apply_transient_fader_routing p c f r o ≡ false) where
  taken_here :
      (r : Router)
      → (if get_fader_assignment p f == c then apply_transient_fader_routing p c f r else r) o
        ≡ false
  taken_here r = ground (arith, here, taken r)

-- A fader of the channel that takes an output away leaves it away, whatever the others do.
transient_faders-taken :
    (p : Profile) (c : ChannelName) (f : FaderName) (o : OutputDevice) (r : Router)
    → get_fader_assignment p f ≡ c
    → ((r : Router) → apply_transient_fader_routing p c f r o ≡ false)
    → transient_faders p c fader_name_variants r o ≡ false
unfolding transient_faders
transient_faders-taken p c FaderName.a o r e t =
    transient_faders-lower p c (FaderName.b ∷ FaderName.c ∷ FaderName.d ∷ []) _ o
      (taken_here p c FaderName.a o e t _)
transient_faders-taken p c FaderName.b o r e t =
    transient_faders-lower p c (FaderName.c ∷ FaderName.d ∷ []) _ o
      (taken_here p c FaderName.b o e t _)
transient_faders-taken p c FaderName.c o r e t =
    transient_faders-lower p c (FaderName.d ∷ []) _ o (taken_here p c FaderName.c o e t _)
transient_faders-taken p c FaderName.d o r e t = taken_here p c FaderName.d o e t _

-- The output that a mute function mutes its channel to.
abbrev pub muted_output : MuteFunction → Option OutputDevice
muted_output MuteFunction.all = none
muted_output MuteFunction.to_stream = some OutputDevice.broadcast_mix
muted_output MuteFunction.to_voice_chat = some OutputDevice.chat_mic
muted_output MuteFunction.to_phones = some OutputDevice.headphones
muted_output MuteFunction.to_line_out = some OutputDevice.line_out

taken_x :
    (p : Profile) (c : ChannelName) (f : FaderName) (o : OutputDevice) (r : Router)
    → (get_mute_button_state p f).muted_to_x ≡ true
    → (get_mute_button_state p f).muted_to_all ≡ false
    → muted_output (get_mute_button_state p f).mute_function ≡ some o
    → apply_transient_fader_routing p c f r o ≡ false
unfolding apply_transient_fader_routing apply_transient_channel_routing
taken_x p c f o r x all m = ground (arith, x, all, m)

taken_all :
    (p : Profile) (f : FaderName) (o : OutputDevice) (r : Router)
    → mutes_all (get_mute_button_state p f) ≡ true
    → apply_transient_fader_routing p ChannelName.mic f r o ≡ false
unfolding apply_transient_fader_routing apply_transient_channel_routing
taken_all p f o r e = ground (arith, e)

-- An input whose fader's button mutes it to one output other than the headphones does not reach
-- that output.
pub final_router-muted_to_x :
    (d : Device) (i : InputDevice) (f : FaderName) (o : OutputDevice)
    → get_fader_assignment d.profile f ≡ channel_of_input i
    → (get_mute_button_state d.profile f).muted_to_x ≡ true
    → (get_mute_button_state d.profile f).muted_to_all ≡ false
    → muted_output (get_mute_button_state d.profile f).mute_function ≡ some o
    → o ≢ OutputDevice.headphones
    → final_router d i o ≡ false
unfolding final_router
final_router-muted_to_x d i f o e x all m n =
    monitored_elsewhere (get_monitoring_mix d.profile) _ o n
    ∙ transient_lower d.profile d.settings.vc_mute_also_mute_cm i _ o (
        transient_faders-taken d.profile (channel_of_input i) f o _ e
          λ r. taken_x d.profile (channel_of_input i) f o r x all m)

-- A microphone whose fader's button mutes it to all reaches no output, the headphones included.
pub final_router-muted_to_all :
    (d : Device) (f : FaderName) (o : OutputDevice)
    → get_fader_assignment d.profile f ≡ ChannelName.mic
    → mutes_all (get_mute_button_state d.profile f) ≡ true
    → final_router d InputDevice.microphone o ≡ false
unfolding final_router channel_of_input
final_router-muted_to_all d f o e m = monitored_none (get_monitoring_mix d.profile) _ o λ q.
    transient_lower d.profile d.settings.vc_mute_also_mute_cm InputDevice.microphone _ q
      (transient_faders-taken d.profile ChannelName.mic f q _ e λ r. taken_all d.profile f q r m)
