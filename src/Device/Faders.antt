-- ===== src/Device/Faders.antt =====
-- daemon/src/device.rs: a new channel for a fader, and the lock of the faders at their volume.
pub mod Search
pub mod Changes
pub mod Tails
pub mod Agreement
pub mod Forgotten
pub mod Knowing
pub mod Placed
pub mod Ready
use goxlr_utility.Base.{
  ℕ, Bool, true, false, not, ◌&&◌, Option, none, some, List, [], ◌∷◌, ◌==◌, if◌then◌else◌,
}
use goxlr_utility.Types.{
  ChannelName, FaderName, fader_name_variants, fader_name_enumeration, channel_name_enumeration,
}
use goxlr_utility.Usb.{Request, ChannelState}
use goxlr_utility.Profile.{Profile}
use goxlr_utility.Profile.Faders.{
  get_fader_assignment, set_fader_assignment, switch_fader_assignment, get_channel_volume,
}
use goxlr_utility.Profile.Mute.{
  set_mic_fader, clear_mic_fader, get_fader_mute_state, set_mute_previous_volume,
}
use goxlr_utility.Device.State.{
  Device, Action, Done, pure, gets, ◌>>=◌, ◌>>◌, when, modify_profile, request,
}
use goxlr_utility.Device.Lights.{update_button_states, apply_scribble, is_mini}
use goxlr_utility.Device.Mute.{unmute_fader, is_headphones_or_line_out}

-- The last other fader that has the channel: the loop has no `break`.
unfoldable pub fader_to_switch :
    Profile → FaderName → ChannelName → List FaderName → Option FaderName → Option FaderName
fader_to_switch p fader channel [] found = found
fader_to_switch p fader channel (g ∷ rest) found =
    fader_to_switch p fader channel rest
      (if not (g == fader) && (get_fader_assignment p g == channel) then some g else found)

abbrev pub is_mic : ChannelName → Bool
is_mic ChannelName.mic = true
is_mic _ = false

-- The fader has the channel already.
unfoldable pub keep_channel : FaderName → ChannelName → Action Done
keep_channel fader channel = do
  when (is_mic channel) (modify_profile (set_mic_fader fader))
  when (not (is_headphones_or_line_out channel)) (request (Request.set_fader fader channel))

-- The volume of a channel as the profile has it.
unfoldable pub send_volume : ChannelName → Action Done
send_volume channel d =
    request (Request.set_volume channel (get_channel_volume d.profile channel)) d

-- No other fader has the channel: the old one leaves, unmuted.
unfoldable pub replace_channel : FaderName → ChannelName → ChannelName → Action Done
replace_channel fader existing new = do
  unmute_fader fader
  when (is_mic existing) (modify_profile clear_mic_fader)
  modify_profile (set_fader_assignment fader new)
  request (Request.set_fader fader new)
  send_volume existing
  when (is_headphones_or_line_out new) (send_volume new)
  update_button_states

-- Two faders exchange their channels, mute buttons and scribbles.
unfoldable pub exchange_faders : FaderName → FaderName → ChannelName → ChannelName → Action Done
exchange_faders fader other existing new = do
  modify_profile (switch_fader_assignment fader other)
  when (is_mic new) (modify_profile (set_mic_fader fader))
  when (is_mic existing) (modify_profile (set_mic_fader other))
  request (Request.set_fader fader new)
  request (Request.set_fader other existing)
  when (is_headphones_or_line_out new) (send_volume new)
  when (is_headphones_or_line_out existing) (send_volume existing)
  apply_scribble fader
  apply_scribble other
  update_button_states

unfoldable pub change_channel :
    FaderName → ChannelName → ChannelName → Option FaderName → Action Done
change_channel fader existing new none = replace_channel fader existing new
change_channel fader existing new (some other) = exchange_faders fader other existing new

unfoldable pub set_fader : FaderName → ChannelName → Action Done
set_fader fader new = do
  existing ← gets (λ d. get_fader_assignment d.profile fader)
  other ← gets (λ d. fader_to_switch d.profile fader new fader_name_variants none)
  if new == existing then keep_channel fader new else change_channel fader existing new other

-- The body of the loops over the faders in `lock_faders` and `unlock_faders`.
unfoldable pub lock_fader : FaderName → Action Done
lock_fader fader d = elim (get_fader_mute_state d.profile fader) [
  | ChannelState.muted ↦
      request
        (Request.set_volume (get_fader_assignment d.profile fader)
          (d.profile.mute_buttons fader).previous_volume)
        d
  | ChannelState.unmuted ↦ pure tt d
]

abbrev pub drop_volume : FaderName → ChannelName → ℕ → Action Done
drop_volume fader channel volume = do
  modify_profile (set_mute_previous_volume fader volume)
  request (Request.set_volume channel 0)

unfoldable pub unlock_fader : FaderName → Action Done
unlock_fader fader d =
    let channel = get_fader_assignment d.profile fader in
    elim (get_fader_mute_state d.profile fader) [
      | ChannelState.muted ↦ drop_volume fader channel (get_channel_volume d.profile channel) d
      | ChannelState.unmuted ↦ pure tt d
    ]

-- `for fader in FaderName::iter()`
unfoldable pub for_each : List FaderName → (FaderName → Action Done) → Action Done
for_each [] body = pure tt
for_each (g ∷ rest) body = do body g; for_each rest body

unfoldable pub lock_faders : Action Done
lock_faders d =
    (if is_mini d.device_type then pure tt else for_each fader_name_variants lock_fader) d

unfoldable pub unlock_faders : Action Done
unlock_faders d =
    (if is_mini d.device_type then pure tt else for_each fader_name_variants unlock_fader) d
