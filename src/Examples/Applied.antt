-- ===== src/Examples/Applied.antt =====
-- The theorems applied to concrete devices.
use goxlr_utility.Base.{
  ℕ, Bool, [], ◌∷◌, ◌==◌, ◌≡◌, refl, true, false, some, get_elem?, length, index, arith,
}
use goxlr_utility.Types.{
  InputDevice-discrete, OutputDevice-discrete, output_device_enumeration, ChannelName, FaderName,
  InputDevice, OutputDevice, MuteFunction,
}
use goxlr_utility.Usb.{Buttons, buttons_enumeration}
use goxlr_utility.Profile.Router.{
  get_router, create_router, set_routing, set_monitor_mix, get_monitoring_mix, set_cell,
}
use goxlr_utility.Profile.{Profile}
use goxlr_utility.Profile.Router.Update.{create_router-set_routing}
use goxlr_utility.Profile.Router.Monitor.{
  IsMonitored, set_routing-IsMonitored, set_monitor_mix-follows, set_monitor_mix-back,
}
use goxlr_utility.Profile.Mute.{
  get_mute_button_state, get_mute_chat_button_state, mic_muted_by_cough,
}
use goxlr_utility.Profile.Faders.{get_fader_assignment}
use goxlr_utility.Device.{ok}
use goxlr_utility.Device.Lights.{create_button_states}
use goxlr_utility.Device.Lights.Shown.{create_button_states-shown, shown}
use goxlr_utility.Device.Routing.{final_router, channel_arrays, hardtune_value, channel_of_input}
use goxlr_utility.Device.Routing.Cells.{left_cells, right_cells, channel_arrays-cells}
use goxlr_utility.Device.Routing.Silence.{final_router-removes, final_router-coughed}
use goxlr_utility.Device.Routing.FaderSilence.{final_router-muted_to_x, final_router-muted_to_all}
use goxlr_utility.Device.Mute.{handle_fader_mute}
use goxlr_utility.Device.Mute.Effect.{IsSound}
use goxlr_utility.Device.Mute.Agreement.{handle_fader_mute-IsSound}
use goxlr_utility.Device.Cough.{handle_cough_mute, unmute_chat_if_muted}
use goxlr_utility.Device.Cough.Branches.{IsReady}
use goxlr_utility.Device.Cough.Presses.{handle_cough_mute-IsReady}
use goxlr_utility.Device.Cough.Unmute.{unmute_chat_if_muted-stays_on}
use goxlr_utility.Device.Faders.{set_fader}
use goxlr_utility.Device.Faders.Agreement.{set_fader-IsSound}
use goxlr_utility.Examples.{open_device, coughing_device, lit_device, open-IsSound, open-IsReady}

handle_fader_mute-IsSound_example :
    ((handle_fader_mute FaderName.a true open_device).0 ≡ ok tt)
    × IsSound (handle_fader_mute FaderName.a true open_device).1
handle_fader_mute-IsSound_example =
    handle_fader_mute-IsSound FaderName.a true open_device open-IsSound

handle_cough_mute-IsReady_example :
    ((handle_cough_mute true false false false open_device).0 ≡ ok tt)
    × IsReady (handle_cough_mute true false false false open_device).1
handle_cough_mute-IsReady_example =
    handle_cough_mute-IsReady true false false false open_device open-IsReady

set_fader-IsSound_example :
    ((set_fader FaderName.b ChannelName.mic open_device).0 ≡ ok tt)
    × IsSound (set_fader FaderName.b ChannelName.mic open_device).1
set_fader-IsSound_example = set_fader-IsSound FaderName.b ChannelName.mic open_device open-IsSound

unmute_chat_if_muted-stays_on_example :
    (get_mute_chat_button_state (unmute_chat_if_muted coughing_device).1.profile).muted_to_x ≡ true
unfolding get_mute_chat_button_state
unmute_chat_if_muted-stays_on_example = unmute_chat_if_muted-stays_on coughing_device refl refl

final_router-muted_to_all_example :
    final_router (lit_device MuteFunction.all) InputDevice.microphone OutputDevice.headphones
    ≡ false
unfolding get_fader_assignment get_mute_button_state
final_router-muted_to_all_example =
    final_router-muted_to_all (lit_device MuteFunction.all) FaderName.a OutputDevice.headphones refl
      refl

final_router-coughed_example :
    final_router coughing_device InputDevice.microphone OutputDevice.broadcast_mix ≡ false
unfolding mic_muted_by_cough get_mute_chat_button_state
final_router-coughed_example = final_router-coughed coughing_device OutputDevice.broadcast_mix refl

final_router-muted_to_x_example :
    final_router (lit_device MuteFunction.to_stream) InputDevice.music OutputDevice.broadcast_mix
    ≡ false
unfolding get_fader_assignment get_mute_button_state channel_of_input
final_router-muted_to_x_example =
    final_router-muted_to_x (lit_device MuteFunction.to_stream) InputDevice.music FaderName.c
      OutputDevice.broadcast_mix refl refl refl refl (λ e. cc)

final_router-removes_example :
    final_router open_device InputDevice.game OutputDevice.sampler ≡ false
unfolding get_router
final_router-removes_example =
    final_router-removes open_device InputDevice.game OutputDevice.sampler (λ e. cc) refl

abbrev to_chat_mic : OutputDevice → Bool
to_chat_mic o = o == OutputDevice.chat_mic

-- Game is routed to the chat microphone alone, and hardtune takes every input that it can.
channel_arrays-cells_example : channel_arrays open_device.profile InputDevice.game to_chat_mic ≡ (
  left_cells to_chat_mic (hardtune_value open_device.profile InputDevice.game),
  right_cells to_chat_mic (hardtune_value open_device.profile InputDevice.game),
)
channel_arrays-cells_example = channel_arrays-cells open_device.profile InputDevice.game to_chat_mic

left_cells-to_chat_mic :
    left_cells to_chat_mic (hardtune_value open_device.profile InputDevice.game)
    ≡ 0 ∷ 0 ∷ 0 ∷ 0 ∷ 0 ∷ 0 ∷ 0 ∷ 0 ∷ 0 ∷ 0x20 ∷ 0 ∷ 0 ∷ 0 ∷ 0 ∷ 0 ∷ 0 ∷ 0 ∷ 0 ∷ 0 ∷ 0 ∷ 0 ∷ 4 ∷ []
unfolding hardtune_value OutputDevice-discrete
left_cells-to_chat_mic = refl

create_button_states-shown_example :
    (length (create_button_states open_device.profile) ≡ 24)
    × (get_elem? (create_button_states open_device.profile) (index Buttons.bleep)
        ≡ some (shown open_device.profile Buttons.bleep))
create_button_states-shown_example = create_button_states-shown open_device.profile Buttons.bleep

zero_is_not_one : ¬ (◌≡◌ {A = ℕ} 0 1)
zero_is_not_one e = omega (arith, e)

create_router-set_routing_example :
    create_router
      (set_cell InputDevice.game OutputDevice.sampler 8192 open_device.profile)
      InputDevice.game
      OutputDevice.sampler
    ≡ true
unfolding set_routing get_monitoring_mix InputDevice-discrete OutputDevice-discrete
create_router-set_routing_example =
    create_router-set_routing open_device.profile
      (set_cell InputDevice.game OutputDevice.sampler 8192 open_device.profile) InputDevice.game
      InputDevice.game OutputDevice.sampler OutputDevice.sampler true refl

-- The line out is monitored: every input is routed to it and to the headphones.
abbrev monitoring_profile : Profile
monitoring_profile = record open_device.profile {
  monitor_tree = record open_device.profile.monitor_tree {
    monitored_output = OutputDevice.line_out;
  };
}

monitoring-IsMonitored : IsMonitored monitoring_profile
unfolding get_router get_monitoring_mix create_router
monitoring-IsMonitored = record { follows = λ i. refl }

-- Game is taken from the line out, and from the headphones with it.
abbrev parted_profile : Profile
parted_profile =
    set_cell InputDevice.game OutputDevice.headphones 0
      (set_cell InputDevice.game OutputDevice.line_out 0 monitoring_profile)

set_routing-IsMonitored_example :
    IsMonitored parted_profile
    × (get_monitoring_mix parted_profile ≡ get_monitoring_mix monitoring_profile)
unfolding set_routing get_monitoring_mix InputDevice-discrete OutputDevice-discrete
set_routing-IsMonitored_example =
    set_routing-IsMonitored monitoring_profile parted_profile InputDevice.game OutputDevice.line_out
      false monitoring-IsMonitored refl

-- Both are changed by it.
parted-get_router :
    (get_router monitoring_profile InputDevice.game OutputDevice.headphones ≡ true)
    × (get_router parted_profile InputDevice.game OutputDevice.headphones ≡ false)
    × (get_router parted_profile InputDevice.game OutputDevice.line_out ≡ false)
unfolding get_router get_monitoring_mix create_router InputDevice-discrete OutputDevice-discrete
parted-get_router = (refl, refl, refl)

set_monitor_mix-follows_example :
    (get_router
        (set_monitor_mix OutputDevice.sampler open_device.profile)
        InputDevice.game
        OutputDevice.headphones
      ≡ get_router open_device.profile InputDevice.game OutputDevice.sampler)
    × (get_router
          (set_monitor_mix OutputDevice.sampler open_device.profile)
          InputDevice.game
          OutputDevice.line_out
        ≡ get_router open_device.profile InputDevice.game OutputDevice.line_out)
set_monitor_mix-follows_example =
    set_monitor_mix-follows OutputDevice.sampler open_device.profile InputDevice.game
      OutputDevice.line_out (λ e. cc) (λ e. cc) (λ e. cc)

set_monitor_mix-back_example :
    get_router
      (set_monitor_mix OutputDevice.headphones
        (set_monitor_mix OutputDevice.sampler open_device.profile))
      InputDevice.game
      OutputDevice.headphones
    ≡ false
set_monitor_mix-back_example =
    set_monitor_mix-back OutputDevice.sampler open_device.profile InputDevice.game refl (λ e. cc)
