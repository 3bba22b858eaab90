-- ===== src/Profile/Faders.antt =====
-- Fader assignments, volumes and scribbles of a profile, daemon/src/profile.rs.
use goxlr_utility.Base.{ℕ, Option, none, some, List, [], ◌∷◌, ◌==◌, update, if◌then◌else◌}
use goxlr_utility.Types.{
  FaderName, ChannelName, fader_name_variants, fader_name_enumeration, channel_name_enumeration,
}
use goxlr_utility.Profile.State.{Profile}

unfoldable pub get_fader_assignment : Profile → FaderName → ChannelName
get_fader_assignment p fader = (p.faders fader).channel

unfoldable pub set_fader_assignment : FaderName → ChannelName → Profile → Profile
set_fader_assignment fader channel p = record p {
  faders = update p.faders fader (record (p.faders fader) { channel = channel });
}

-- `EnumMap::swap`
abbrev pub swap {ℓ} : {V : Type ℓ} → (FaderName → V) → FaderName → FaderName → FaderName → V
swap m f g = update (update m f (m g)) g (m f)

unfoldable pub switch_fader_assignment : FaderName → FaderName → Profile → Profile
switch_fader_assignment f g p = record p {
  scribbles = swap p.scribbles f g;
  faders = swap p.faders f g;
  mute_buttons = swap p.mute_buttons f g;
}

-- `FaderName::iter().find(..)`
find_fader : Profile → ChannelName → List FaderName → Option FaderName
unfolding get_fader_assignment
find_fader p channel [] = none
find_fader p channel (fader ∷ rest) =
    if get_fader_assignment p fader == channel then some fader else find_fader p channel rest

unfoldable pub get_fader_from_channel : Profile → ChannelName → Option FaderName
unfolding find_fader
get_fader_from_channel p channel = find_fader p channel fader_name_variants

unfoldable pub get_channel_volume : Profile → ChannelName → ℕ
get_channel_volume p channel = p.volumes channel

unfoldable pub set_channel_volume : ChannelName → ℕ → Profile → Profile
set_channel_volume channel volume p = record p { volumes = update p.volumes channel volume }
