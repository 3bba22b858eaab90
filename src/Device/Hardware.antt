-- ===== src/Device/Hardware.antt =====
-- What the hardware has been told: the last request of each kind.
pub mod Quiet
use goxlr_utility.Base.{
  ℕ, Bool, ◌≡◌, ◌≢◌, ◌&&◌, ◌||◌, ◌==◌, ◌≟◌, Option, none, some, List, [], ◌∷◌, ite, if◌then◌else◌,
}
use goxlr_utility.Types.{ChannelName, FaderName, channel_name_enumeration}
use goxlr_utility.Usb.{Request, ChannelState}
use goxlr_utility.Profile.{Profile}
use goxlr_utility.Profile.Mute.{get_mute_button_state, mutes_all, mic_muted_by_cough}
use goxlr_utility.Profile.Faders.{get_fader_assignment}
use goxlr_utility.Device.State.{Device}

-- The state that a channel was last set to.
abbrev pub channel_state : ChannelName → List Request → Option ChannelState
channel_state c [] = none
channel_state c (Request.set_channel_state c' s ∷ rest) =
    ite (c ≟ c') (some s) (channel_state c rest)
channel_state c (_ ∷ rest) = channel_state c rest

-- The volume that a channel was last set to.
abbrev pub channel_volume : ChannelName → List Request → Option ℕ
channel_volume c [] = none
channel_volume c (Request.set_volume c' v ∷ rest) = ite (c ≟ c') (some v) (channel_volume c rest)
channel_volume c (_ ∷ rest) = channel_volume c rest

abbrev pub muted_if : Bool → ChannelState
muted_if b = if b then ChannelState.muted else ChannelState.unmuted

-- The state that a profile wants for the channel on a fader, and for one on none: a mute button
-- that mutes to all, and for the microphone the cough button too.
unfoldable pub wanted : Profile → FaderName → ChannelState
wanted p g = muted_if (
    mutes_all (get_mute_button_state p g)
    || ((get_fader_assignment p g == ChannelName.mic) && mic_muted_by_cough p))

unfoldable pub wanted_off_fader : Profile → ChannelName → ChannelState
wanted_off_fader p c = muted_if ((c == ChannelName.mic) && mic_muted_by_cough p)

-- The hardware has every channel in the state that the profile wants.
pub record Agrees (d : Device) : Type 0 where
  pub on_fader :
      (g : FaderName)
      → channel_state (get_fader_assignment d.profile g) d.sent ≡ some (wanted d.profile g)
  pub off_fader :
      (c : ChannelName)
      → ((g : FaderName) → get_fader_assignment d.profile g ≢ c)
      → channel_state c d.sent ≡ some (wanted_off_fader d.profile c)

-- No channel is on two faders.
abbrev pub IsDistinct : Profile → Type 0
IsDistinct p = (f g : FaderName) → get_fader_assignment p f ≡ get_fader_assignment p g → f ≡ g
