-- ===== src/Examples/Micless.antt =====
-- The microphone taken off its fader, and given to it again.
use goxlr_utility.Base.{◌≡◌, refl, false, none}
use goxlr_utility.Types.{
  ChannelName, ChannelName-discrete, FaderName, FaderName-discrete, fader_name_variants,
  fader_name_enumeration, channel_name_enumeration,
}
use goxlr_utility.Profile.Faders.{get_fader_assignment, set_fader_assignment}
use goxlr_utility.Profile.Mute.{is_mic_on_fader, clear_mic_fader, get_mute_button_state}
use goxlr_utility.Device.{Device, request}
use goxlr_utility.Device.Lights.{update_button_states}
use goxlr_utility.Device.Mute.{unmute_fader}
use goxlr_utility.Device.Faders.{
  set_fader, change_channel, replace_channel, fader_to_switch, send_volume,
}
use goxlr_utility.Device.Faders.Agreement.{set_fader-IsSound}
use goxlr_utility.Device.Faders.Forgotten.{IsForgotten, set_fader-IsForgotten}
use goxlr_utility.Examples.{open_device, open-IsSound}

-- Fader A has the console in place of the microphone.
abbrev micless : Device
micless = (set_fader FaderName.a ChannelName.console open_device).1

micless_unknown : is_mic_on_fader micless.profile ≡ false
unfolding is_mic_on_fader clear_mic_fader set_fader change_channel replace_channel fader_to_switch
    send_volume unmute_fader get_mute_button_state get_fader_assignment set_fader_assignment
    update_button_states request ChannelName-discrete FaderName-discrete
micless_unknown = refl

micless_search :
    fader_to_switch micless.profile FaderName.a ChannelName.mic fader_name_variants none ≡ none
unfolding is_mic_on_fader clear_mic_fader set_fader change_channel replace_channel fader_to_switch
    send_volume unmute_fader get_mute_button_state get_fader_assignment set_fader_assignment
    update_button_states request ChannelName-discrete FaderName-discrete
micless_search = refl

micless_console : get_fader_assignment micless.profile FaderName.a ≡ ChannelName.console
unfolding is_mic_on_fader clear_mic_fader set_fader change_channel replace_channel fader_to_switch
    send_volume unmute_fader get_mute_button_state get_fader_assignment set_fader_assignment
    update_button_states request ChannelName-discrete FaderName-discrete
micless_console = refl

set_fader-IsForgotten_example :
    IsForgotten FaderName.a (set_fader FaderName.a ChannelName.mic micless).1
set_fader-IsForgotten_example =
    set_fader-IsForgotten FaderName.a micless
      (set_fader-IsSound FaderName.a ChannelName.console open_device open-IsSound).1 micless_unknown
      (λ p. cc (p, micless_console)) micless_search
