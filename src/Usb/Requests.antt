-- ===== src/Usb/Requests.antt =====
-- The requests of the trait GoXLRCommands, usb/src/device/base.rs, that the daemon makes.
use goxlr_utility.Base.{ℕ, List, Bool}
use goxlr_utility.Types.{
  ChannelName, EffectKey, EncoderName, FaderName, MicrophoneParamKey, Mix, SubMixChannelName,
}
use goxlr_utility.Usb.ButtonEnums.{ButtonStates}
use goxlr_utility.Usb.Routing.{InputDevice}

-- Whether a channel is heard, usb/src/channelstate.rs
pub data ChannelState : Type 0 where
  muted unmuted : ChannelState

abbrev pub state_id : ChannelState → ℕ
state_id ChannelState.muted = 0x01
state_id ChannelState.unmuted = 0x00

-- usb/src/animation.rs
pub data AnimationMode : Type 0 where
  retro_rainbow rainbow_dark rainbow_bright simple ripple none : AnimationMode

unfoldable pub animation_mode_index : AnimationMode → ℕ
animation_mode_index AnimationMode.retro_rainbow = 0
animation_mode_index AnimationMode.rainbow_dark = 1
animation_mode_index AnimationMode.rainbow_bright = 2
animation_mode_index AnimationMode.simple = 3
animation_mode_index AnimationMode.ripple = 4
animation_mode_index AnimationMode.none = 5

pub data WaterFallDir : Type 0 where
  down up off : WaterFallDir

unfoldable pub water_fall_dir_index : WaterFallDir → ℕ
water_fall_dir_index WaterFallDir.down = 0
water_fall_dir_index WaterFallDir.up = 1
water_fall_dir_index WaterFallDir.off = 2

-- A method of the trait with its arguments. Arrays are lists of bytes; an i32 is its bit pattern.
pub data Request : Type 0 where
  set_fader : FaderName → ChannelName → Request
  set_volume : ChannelName → ℕ → Request
  set_channel_state : ChannelName → ChannelState → Request
  set_button_states : List ButtonStates → Request
  set_button_colours : List ℕ → Request
  set_button_colours_1_3_40 : List ℕ → Request
  set_fader_display_mode : FaderName → Bool → Bool → Request
  set_fader_scribble : FaderName → List ℕ → Request
  set_routing : InputDevice → List ℕ → Request
  set_sub_volume : SubMixChannelName → ℕ → Request
  set_channel_mixes : List ℕ → Request
  set_monitored_mix : Mix → Request
  set_effect_values : List (EffectKey × ℕ) → Request
  set_encoder_value : EncoderName → ℕ → Request
  set_encoder_mode : EncoderName → ℕ → ℕ → Request
  set_mic_param : List (MicrophoneParamKey × List ℕ) → Request
  set_animation_mode : Bool → AnimationMode → ℕ → ℕ → WaterFallDir → Request
