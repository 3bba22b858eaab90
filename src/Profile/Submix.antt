-- ===== src/Profile/Submix.antt =====
-- The submix accessors of daemon/src/profile.rs.
use goxlr_utility.Base.{ℕ, Bool, not, ◌&&◌, ◌==◌, update, if◌then◌else◌}
use goxlr_utility.Types.{
  SubMixChannelName, OutputDevice, Mix, sub_mix_channel_name_enumeration, output_device_enumeration,
}
use goxlr_utility.Profile.Router.{get_monitoring_mix}
use goxlr_utility.Profile.State.{Profile}

abbrev pub is_submix_enabled : Profile → Bool
is_submix_enabled p = p.submixes.submix_enabled

abbrev pub submix_linked : Profile → SubMixChannelName → Bool
submix_linked p = p.submixes.linked

abbrev pub get_submix_volume : Profile → SubMixChannelName → ℕ
get_submix_volume p = p.submixes.submix_volumes

abbrev pub set_submix_volume : SubMixChannelName → ℕ → Profile → Profile
set_submix_volume mix volume p = record p {
  submixes = record p.submixes { submix_volumes = update p.submixes.submix_volumes mix volume };
}

abbrev pub get_submix_channel : Profile → OutputDevice → Mix
get_submix_channel p = p.mix_routing

unfoldable pub set_submix_enabled : Bool → Profile → Profile
set_submix_enabled enabled p = record p {
  submixes = record p.submixes { submix_enabled = enabled };
}

-- The headphones follow the output that they monitor.
unfoldable pub set_mix_output : OutputDevice → Mix → Profile → Profile
set_mix_output channel mix p = record p {
  mix_routing =
      update
        (if (get_monitoring_mix p == channel) && not (channel == OutputDevice.headphones)
          then update p.mix_routing OutputDevice.headphones mix
          else p.mix_routing)
        channel mix;
}
