-- ===== src/Examples/Sessions.antt =====
-- The theorems on sessions, volumes and effects applied to concrete devices and encoders.
use goxlr_utility.Base.{◌≡◌, ◌++◌, arith, some, update, Bool, ◌==◌, refl, false, List, [], ◌∷◌}
use goxlr_utility.Types.{ChannelName, OutputDevice, FaderName, channel_name_enumeration}
use goxlr_utility.Usb.{Buttons, Buttons-discrete, buttons_enumeration}
use goxlr_utility.Device.Volumes.{update_volumes_to}
use goxlr_utility.Device.Volumes.Stored.{Gives}
use goxlr_utility.Device.Volumes.Heard.{Heard}
use goxlr_utility.Device.Volumes.All.{update_volumes_to-Heard}
use goxlr_utility.Device.Inputs.{down, hold, Inputs, Tick, holds, reads, run_ticks}
use goxlr_utility.Device.Inputs.Visits.{calls_of}
use goxlr_utility.Device.Inputs.Held.{run_ticks-held}
use goxlr_utility.Device.Loading.{get_load_volume_order}
use goxlr_utility.Device.Loading.Quieter.{count, quieter, IsPlaced, get_load_volume_order-quieter}
use goxlr_utility.Profile.{Profile}
use goxlr_utility.Device.Submix.{mix_of, channel_mixes}
use goxlr_utility.Device.Submix.Places.{IsMixed, channel_mixes-IsMixed}
use goxlr_utility.Device.Inputs.Phases.{Follows, phase, run_ticks-Follows}
use goxlr_utility.Examples.{open_device, open-IsSound}

update_volumes_to-Heard_example :
    Gives (Heard FaderName.b 200 open_device) (update_volumes_to (λ f. 200) open_device)
update_volumes_to-Heard_example =
    update_volumes_to-Heard (λ f. 200) FaderName.b open_device refl open-IsSound.distinct

abbrev only_bleep : Buttons → Bool
only_bleep b = b == Buttons.bleep

abbrev quiet_inputs : Inputs
quiet_inputs = record {
  button_states = λ b. record { press_time = 0; hold_handled = false };
  last_buttons = λ b. false;
  hold_time = 500;
}

-- The bleep button is pressed for a second.
abbrev second : List Tick
second = reads 1000 only_bleep ∷ holds 1400 ∷ holds 1600 ∷ holds 1800 ∷ reads 2000 (λ b. false) ∷ []

run_ticks-Follows_example :
    Follows Buttons.bleep
      (phase Buttons.bleep quiet_inputs)
      (calls_of Buttons.bleep (run_ticks second quiet_inputs).1)
      (phase Buttons.bleep (run_ticks second quiet_inputs).0)
run_ticks-Follows_example = run_ticks-Follows Buttons.bleep second quiet_inputs

-- The bleep button is pressed at 1000 and found held at 1600.
run_ticks-held_example :
    calls_of Buttons.bleep
      (run_ticks
        (reads 1000 only_bleep
          ∷ ((holds 1400 ∷ reads 1500 only_bleep ∷ []) ++ (holds 1600 ∷ (holds 1800 ∷ []))))
        quiet_inputs).1
    ≡ down Buttons.bleep ∷ hold Buttons.bleep ∷ []
unfolding Buttons-discrete
run_ticks-held_example =
    run_ticks-held Buttons.bleep 1000 1600 only_bleep (holds 1400 ∷ reads 1500 only_bleep ∷ [])
      (holds 1800 ∷ []) quiet_inputs refl refl (tt, (refl, tt)) (tt, tt) (omega arith)

-- The headphones go from 100 to 20.
quieter_headphones : Profile
quieter_headphones = record open_device.profile {
  volumes = update open_device.profile.volumes ChannelName.headphones 20;
}

get_load_volume_order-quieter_example :
    (count ChannelName.headphones (get_load_volume_order quieter_headphones (some (λ c. 100))) ≡ 1)
    × (count ChannelName.system (get_load_volume_order quieter_headphones (some (λ c. 100))) ≡ 1)
    × IsPlaced
        (get_load_volume_order quieter_headphones (some (λ c. 100)))
        (quieter quieter_headphones (λ c. 100) ChannelName.headphones)
        ChannelName.headphones
        ChannelName.system
get_load_volume_order-quieter_example =
    get_load_volume_order-quieter quieter_headphones (λ c. 100) ChannelName.headphones
      ChannelName.system refl refl

channel_mixes-IsMixed_example :
    IsMixed
      (channel_mixes quieter_headphones)
      (mix_of quieter_headphones OutputDevice.broadcast_mix)
      0
      2
    × IsMixed
        (channel_mixes quieter_headphones)
        (mix_of quieter_headphones OutputDevice.chat_mic)
        1
        4
    × IsMixed
        (channel_mixes quieter_headphones)
        (mix_of quieter_headphones OutputDevice.sampler)
        2
        6
    × IsMixed
        (channel_mixes quieter_headphones)
        (mix_of quieter_headphones OutputDevice.line_out)
        3
        8
channel_mixes-IsMixed_example = channel_mixes-IsMixed quieter_headphones
