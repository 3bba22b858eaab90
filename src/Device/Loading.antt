-- ===== src/Device/Loading.antt =====
-- daemon/src/device.rs: `get_load_volume_order`, the order in which a new profile's volumes are sent.
pub mod Quieter
use goxlr_utility.Base.{
  ℕ, Bool, true, false, not, ◌&&◌, ltb, leb, ◌==◌, Option, none, some, List, [], ◌∷◌, ◌++◌,
  if◌then◌else◌,
}
use goxlr_utility.Types.{ChannelName, channel_name_variants, channel_name_enumeration}
use goxlr_utility.Profile.{Profile}
use goxlr_utility.Profile.Faders.{get_channel_volume}

-- `if test { order.push(channel) }`
abbrev pub push_if : Bool → ChannelName → List ChannelName
push_if test channel = if test then channel ∷ [] else []

-- the channels but the headphones and the line out, in order
unfoldable pub push_others : List ChannelName → List ChannelName
push_others [] = []
push_others (channel ∷ rest) =
    if not (channel == ChannelName.headphones) && not (channel == ChannelName.line_out)
    then channel ∷ push_others rest
    else push_others rest

-- `volumes` are those before the load, and the profile has the new ones.
unfoldable pub get_load_volume_order : Profile → Option (ChannelName → ℕ) → List ChannelName
get_load_volume_order p none = channel_name_variants
get_load_volume_order p (some volumes) =
    let headphone_volume = get_channel_volume p ChannelName.headphones in
    let lineout_volume = get_channel_volume p ChannelName.line_out in
    push_if (ltb headphone_volume (volumes ChannelName.headphones)) ChannelName.headphones
    ++ (push_if (ltb lineout_volume (volumes ChannelName.line_out)) ChannelName.line_out
        ++ (push_others channel_name_variants
            ++ (push_if (leb (volumes ChannelName.headphones) headphone_volume)
                  ChannelName.headphones
                ++ push_if (leb (volumes ChannelName.line_out) lineout_volume)
                    ChannelName.line_out)))
