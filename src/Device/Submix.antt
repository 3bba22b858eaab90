-- ===== src/Device/Submix.antt =====
-- daemon/src/device.rs: `load_submix_settings` and `sync_submix_volume`.
pub mod Places
use goxlr_utility.Base.{
  ℕ, suc, ◌*◌, Bool, ◌&&◌, not, ◌==◌, Option, none, some, List, [], ◌∷◌, ◌++◌, set, replicate,
  index, if◌then◌else◌,
}
use goxlr_utility.Types.{
  ChannelName, OutputDevice, Mix, SubMixChannelName, output_device_variants,
  output_device_enumeration, channel_name_variants,
}
use goxlr_utility.Usb.{Request}
use goxlr_utility.Profile.{Profile}
use goxlr_utility.Profile.Faders.{get_channel_volume}
use goxlr_utility.Profile.Conversion.{channel_name_to_submix}
use goxlr_utility.Profile.Submix.{
  is_submix_enabled, submix_linked, get_submix_volume, get_submix_channel,
}
use goxlr_utility.Device.State.{Action, Done, pure, gets, ◌>>=◌, ◌>>◌, when, request}
use goxlr_utility.Device.Lights.{device_supports_submixes}
use goxlr_utility.Device.Volumes.{update_submix_for}

-- the body of `if let Some(mix)`
unfoldable pub sync_linked : ChannelName → Option SubMixChannelName → Action Done
sync_linked channel none = pure tt
sync_linked channel (some mix) = do
  linked ← gets (λ d. submix_linked d.profile mix)
  volume ← gets (λ d. get_channel_volume d.profile channel)
  sub_volume ← gets (λ d. get_submix_volume d.profile mix)
  if linked
      then update_submix_for channel volume
      else request (Request.set_sub_volume mix sub_volume)

unfoldable pub sync_submix_volume : ChannelName → Action Done
sync_submix_volume channel = sync_linked channel (channel_name_to_submix channel)

unfoldable pub sync_all : List ChannelName → Action Done
sync_all [] = pure tt
sync_all (channel ∷ rest) = do sync_submix_volume channel; sync_all rest

-- Where an output's byte goes, in the array of mix A or of mix B.
unfoldable pub place : Mix → ℕ → ℕ → List ℕ × List ℕ → List ℕ × List ℕ
place Mix.a i byte (mix_a, mix_b) = (set mix_a i byte, mix_b)
place Mix.b i byte (mix_a, mix_b) = (mix_a, set mix_b i byte)

abbrev pub mix_of : Profile → OutputDevice → Mix
mix_of p device = if is_submix_enabled p then get_submix_channel p device else Mix.a

-- The loop over the outputs. The headphones come first, and make a request of their own.
unfoldable pub place_outputs : Profile → List OutputDevice → ℕ → List ℕ × List ℕ → List ℕ × List ℕ
place_outputs p [] i mixes = mixes
place_outputs p (device ∷ rest) i mixes =
    if device == OutputDevice.headphones
    then place_outputs p rest i mixes
    else place_outputs p rest (suc i) (place (mix_of p device) i (index device * 2) mixes)

unfoldable pub channel_mixes : Profile → List ℕ
channel_mixes p =
    let (mix_a, mix_b) =
      place_outputs p output_device_variants 0 (replicate 4 0x0c, replicate 4 0x0c) in
    mix_a ++ mix_b

unfoldable pub load_submix_settings : Bool → Action Done
load_submix_settings apply_volumes = do
  supported ← gets (λ d. device_supports_submixes d.device_type d.firmware)
  if not supported then pure tt else do
    p ← gets (λ d. d.profile)
    request (Request.set_monitored_mix (mix_of p OutputDevice.headphones))
    request (Request.set_channel_mixes (channel_mixes p))
    when (is_submix_enabled p && apply_volumes) (sync_all channel_name_variants)
    volume ← gets (λ d. get_channel_volume d.profile ChannelName.mic_monitor)
    request
        (Request.set_volume ChannelName.mic_monitor (if is_submix_enabled p then 255 else volume))
