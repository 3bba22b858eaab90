-- ===== src/Usb/Wire/Encoding.antt =====
-- The command and the body of each request, usb/src/device/base.rs.
pub mod ReadBack
use goxlr_utility.Base.{
  ℕ, Bool, true, false, ◌||◌, Option, none, some, List, [], ◌∷◌, ◌++◌, map, index, ltb,
  if◌then◌else◌,
}
use goxlr_utility.Types.{
  ChannelName, EffectKey, MicrophoneParamKey, MicrophoneType, channel_name_enumeration,
  effect_key_enumeration, microphone_param_key_enumeration, mix_enumeration, get_gain_param,
  has_phantom_power,
}
use goxlr_utility.Usb.{
  Request, ButtonStates, button_states_enumeration, state_id, AnimationMode, WaterFallDir,
  animation_mode_index, water_fall_dir_index,
}
use goxlr_utility.Usb.Command.{Command}
use goxlr_utility.Usb.Wire.{ByteOrder}

abbrev pub u8_from : Bool → ℕ
u8_from true = 1
u8_from false = 0

module _ (le : ByteOrder) where
  -- the loop of `set_effect_values`
  unfoldable pub effect_bytes : List (EffectKey × ℕ) → List ℕ
  effect_bytes [] = []
  effect_bytes ((key, value) ∷ rest) =
      le.write_u32 (index key) ++ (le.write_i32 value ++ effect_bytes rest)

  -- the loop of `set_mic_param`
  unfoldable pub param_bytes : List (MicrophoneParamKey × List ℕ) → List ℕ
  param_bytes [] = []
  param_bytes ((key, value) ∷ rest) = le.write_u32 (index key) ++ (value ++ param_bytes rest)

  -- the arguments of `request_data` in each method
  unfoldable pub encode : Request → Command × List ℕ
  unfolding effect_bytes param_bytes
  encode (Request.set_fader fader channel) =
      (Command.set_fader fader, index channel ∷ 0x00 ∷ 0x00 ∷ 0x00 ∷ [])
  encode (Request.set_volume channel volume) = (Command.set_channel_volume channel, volume ∷ [])
  encode (Request.set_channel_state channel state) =
      (Command.set_channel_state channel, state_id state ∷ [])
  encode (Request.set_button_states states) = (Command.set_button_states, map index states)
  encode (Request.set_button_colours bytes) = (Command.set_colour_map, bytes)
  encode (Request.set_button_colours_1_3_40 bytes) = (Command.set_colour_map, bytes)
  encode (Request.set_fader_display_mode fader gradient meter) =
      (Command.set_fader_display_mode fader, u8_from gradient ∷ u8_from meter ∷ [])
  encode (Request.set_fader_scribble fader bytes) = (Command.set_scribble fader, bytes)
  encode (Request.set_routing input bytes) = (Command.set_routing input, bytes)
  encode (Request.set_sub_volume channel volume) =
      (Command.set_sub_channel_volume channel, volume ∷ [])
  encode (Request.set_channel_mixes bytes) = (Command.set_channel_mixes, bytes)
  encode (Request.set_monitored_mix mix) = (Command.set_monitored_mix, index mix ∷ [])
  encode (Request.set_effect_values effects) = (Command.set_effect_parameters, effect_bytes effects)
  encode (Request.set_encoder_value encoder value) = (Command.set_encoder_value encoder, value ∷ [])
  encode (Request.set_encoder_mode encoder mode resolution) =
      (Command.set_encoder_mode encoder, mode ∷ resolution ∷ [])
  encode (Request.set_mic_param params) = (Command.set_microphone_parameters, param_bytes params)
  encode (Request.set_animation_mode enabled mode modifier1 modifier2 waterfall) = (
    Command.set_animation_mode,
    u8_from enabled
        ∷ animation_mode_index mode
        ∷ modifier1
        ∷ modifier2
        ∷ water_fall_dir_index waterfall
        ∷ [],
  )

  -- The parameters that `set_microphone_gain` sends: the gain stands in the high half.
  unfoldable pub set_microphone_gain : MicrophoneType → ℕ → Request
  set_microphone_gain microphone gain = Request.set_mic_param (
      (
        MicrophoneParamKey.mic_type,
        u8_from (has_phantom_power microphone) ∷ 0x00 ∷ 0x00 ∷ 0x00 ∷ [],
      )
      ∷ (get_gain_param microphone, 0x00 ∷ 0x00 ∷ le.write_u16 gain)
      ∷ [])

-- `none` is the `bail!`.
unfoldable pub set_animation_mode : Bool → AnimationMode → ℕ → ℕ → WaterFallDir → Option Request
set_animation_mode enabled mode modifier1 modifier2 waterfall =
    if ltb 100 modifier1 || ltb 100 modifier2
    then none
    else some (Request.set_animation_mode enabled mode modifier1 modifier2 waterfall)
