-- ===== src/Device/Volumes.antt =====
-- daemon/src/device.rs: the faders that a human moves, and the latch of a fader that the daemon moved.
pub mod Stored
pub mod Heard
pub mod All
use goxlr_utility.Base.{
  ℕ, Bool, true, false, not, ◌&&◌, ◌||◌, ◌+◌, ◌-◌, ltb, leb, eqb, Option, none, some, List, [], ◌∷◌,
  update, if◌then◌else◌,
}
use goxlr_utility.Types.{
  ChannelName, FaderName, SubMixChannelName, fader_name_enumeration, fader_name_variants,
}
use goxlr_utility.Usb.{Request}
use goxlr_utility.Profile.Faders.{get_fader_assignment, get_channel_volume, set_channel_volume}
use goxlr_utility.Profile.Conversion.{channel_name_to_submix}
use goxlr_utility.Profile.Submix.{
  is_submix_enabled, submix_linked, get_submix_volume, set_submix_volume,
}
use goxlr_utility.Device.State.{
  Device, Action, Done, PauseUntil, pure, gets, ◌>>=◌, ◌>>◌, when, modify_profile, request,
}
use goxlr_utility.Device.Lights.{device_supports_submixes, is_mini}

-- the body of `if let Some(mix)`
unfoldable pub follow_link : ℕ → Option SubMixChannelName → Action Done
follow_link volume none d = pure tt d
follow_link volume (some mix) d =
    let linked_volume = d.profile.submixes.link_volume mix volume in
    (if submix_linked d.profile mix && not (eqb linked_volume (get_submix_volume d.profile mix))
        then (do
          modify_profile (set_submix_volume mix linked_volume)
          request (Request.set_sub_volume mix linked_volume))
        else pure tt)
      d

unfoldable pub update_submix_for : ChannelName → ℕ → Action Done
update_submix_for channel volume d =
    when (device_supports_submixes d.device_type d.firmware && is_submix_enabled d.profile)
      (follow_link volume (channel_name_to_submix channel)) d

-- `min` and `max` of a paused fader, and the test on them
unfoldable pub in_range : ℕ → ℕ → Bool
in_range until volume =
    leb (if ltb until 5 then 0 else until - 5) volume
    && leb volume (if ltb 250 until then 255 else until + 5)

-- The two `continue`s.
unfoldable pub is_ignored : FaderName → ℕ → Device → Bool
is_ignored fader volume d =
    if is_mini d.device_type
    then eqb volume (d.fader_last_seen fader)
    else (d.fader_pause_until fader).paused
      && not (in_range (d.fader_pause_until fader).until volume)

-- What a fader that is not ignored leaves: a pause that ends, and the volume seen.
unfoldable pub see_fader : FaderName → ℕ → Device → Device
see_fader fader volume d = record d {
  fader_pause_until =
      if is_mini d.device_type
      then d.fader_pause_until
      else if (d.fader_pause_until fader).paused
      then update d.fader_pause_until fader (record (d.fader_pause_until fader) { paused = false })
      else d.fader_pause_until;
  fader_last_seen = update d.fader_last_seen fader volume;
}

unfoldable pub store_volume : ChannelName → ℕ → Action Bool
store_volume channel volume = do
  old_volume ← gets (λ d. get_channel_volume d.profile channel)
  if eqb volume old_volume then pure false else do
    modify_profile (set_channel_volume channel volume)
    update_submix_for channel volume
    pure true

-- the body of the loop: whether it changed a volume
unfoldable pub update_fader : FaderName → ℕ → Action Bool
update_fader fader volume d =
    if is_ignored fader volume d
    then (pure false) d
    else store_volume (get_fader_assignment d.profile fader) volume (see_fader fader volume d)

abbrev pub update_faders : (FaderName → ℕ) → List FaderName → Bool → Action Bool
update_faders volumes [] value_changed = pure value_changed
update_faders volumes (fader ∷ rest) value_changed =
    update_fader fader (volumes fader) >>= λ changed.
    update_faders volumes rest (value_changed || changed)

-- `volumes[fader as usize]` is `volumes fader`.
unfoldable pub update_volumes_to : (FaderName → ℕ) → Action Bool
update_volumes_to volumes = update_faders volumes fader_name_variants false
