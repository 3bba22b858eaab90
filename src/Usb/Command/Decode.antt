-- ===== src/Usb/Command/Decode.antt =====
-- The number of a command read back.
use goxlr_utility.Base.{
  Bool, true, ◌&&◌, ltb, ◌<◌, ◌^◌, arith, ℕ, ◌≡◌, ap, refl, Option, none, some, List, [], ◌∷◌, ◌++◌,
  map, eqb, if◌then◌else◌,
}
use goxlr_utility.Types.{
  ChannelName, EncoderName, FaderName, SubMixChannelName, channel_name_variants,
  encoder_name_variants, fader_name_variants, sub_mix_channel_name_variants,
}
use goxlr_utility.Usb.Routing.{InputDevice}
use goxlr_utility.Usb.Command.{
  SystemInfoCommand, HardwareInfoCommand, FirmwareCommand, FirmwareAction, Command, command_id,
}

abbrev all_commands : List Command
all_commands =
    (Command.reset_command_index ∷ [])
    ++ map Command.system_info
        (SystemInfoCommand.firmware_version ∷ SystemInfoCommand.supports_dcp_category ∷ [])
    ++ map Command.set_channel_state channel_name_variants
    ++ map Command.set_channel_volume channel_name_variants
    ++ map Command.set_encoder_value encoder_name_variants
    ++ map Command.set_encoder_mode encoder_name_variants
    ++ map Command.set_fader fader_name_variants
    ++ map Command.set_routing (
        InputDevice.microphone_right ∷ InputDevice.microphone_left ∷ InputDevice.music_right
        ∷ InputDevice.music_left ∷ InputDevice.game_right ∷ InputDevice.game_left
        ∷ InputDevice.chat_right ∷ InputDevice.chat_left ∷ InputDevice.console_right
        ∷ InputDevice.console_left ∷ InputDevice.line_in_right ∷ InputDevice.line_in_left
        ∷ InputDevice.system_right ∷ InputDevice.system_left ∷ InputDevice.samples_right
        ∷ InputDevice.samples_left ∷ [])
    ++ (Command.set_button_states ∷ [])
    ++ (Command.set_effect_parameters ∷ [])
    ++ (Command.set_microphone_parameters ∷ [])
    ++ (Command.get_microphone_level ∷ [])
    ++ (Command.set_colour_map ∷ [])
    ++ map Command.set_fader_display_mode fader_name_variants
    ++ map Command.set_scribble fader_name_variants
    ++ (Command.get_button_states ∷ [])
    ++ map Command.get_hardware_info
        (HardwareInfoCommand.firmware_version ∷ HardwareInfoCommand.serial_number ∷ [])
    ++ (Command.set_animation_mode ∷ [])
    ++ map Command.set_sub_channel_volume sub_mix_channel_name_variants
    ++ (Command.set_channel_mixes ∷ [])
    ++ (Command.set_monitored_mix ∷ [])
    ++ map Command.execute_firmware_update_command (
        FirmwareCommand.start ∷ FirmwareCommand.verify ∷ FirmwareCommand.abort
        ∷ FirmwareCommand.finalise ∷ FirmwareCommand.reboot ∷ FirmwareCommand.poll ∷ [])
    ++ map Command.execute_firmware_update_action (
        FirmwareAction.erase ∷ FirmwareAction.poll ∷ FirmwareAction.send ∷ FirmwareAction.validate
        ∷ [])

all_pass : (Command → Bool) → List Command → Bool
all_pass test [] = true
all_pass test (c ∷ cs) = test c && all_pass test cs

find_command : ℕ → List Command → Option Command
find_command n [] = none
find_command n (c ∷ cs) = if eqb (command_id c) n then some c else find_command n cs

unfoldable pub decode : ℕ → Option Command
unfolding find_command
decode n = find_command n all_commands

-- Decoding the number of a command gives that command back, for each command of the protocol.
pub decode-command_id : (c : Command) → decode (command_id c) ≡ some c
unfolding decode command_id
decode-command_id Command.reset_command_index = refl
decode-command_id (Command.system_info SystemInfoCommand.firmware_version) = refl
decode-command_id (Command.system_info _) = refl
decode-command_id (Command.set_channel_state ChannelName.mic) = refl
decode-command_id (Command.set_channel_state _) = refl
decode-command_id (Command.set_channel_volume ChannelName.mic) = refl
decode-command_id (Command.set_channel_volume _) = refl
decode-command_id (Command.set_encoder_value EncoderName.pitch) = refl
decode-command_id (Command.set_encoder_value _) = refl
decode-command_id (Command.set_encoder_mode EncoderName.pitch) = refl
decode-command_id (Command.set_encoder_mode _) = refl
decode-command_id (Command.set_fader FaderName.a) = refl
decode-command_id (Command.set_fader _) = refl
decode-command_id (Command.set_routing InputDevice.microphone_right) = refl
decode-command_id (Command.set_routing _) = refl
decode-command_id Command.set_button_states = refl
decode-command_id Command.set_effect_parameters = refl
decode-command_id Command.set_microphone_parameters = refl
decode-command_id Command.get_microphone_level = refl
decode-command_id Command.set_colour_map = refl
decode-command_id (Command.set_fader_display_mode FaderName.a) = refl
decode-command_id (Command.set_fader_display_mode _) = refl
decode-command_id (Command.set_scribble FaderName.a) = refl
decode-command_id (Command.set_scribble _) = refl
decode-command_id Command.get_button_states = refl
decode-command_id (Command.get_hardware_info HardwareInfoCommand.firmware_version) = refl
decode-command_id (Command.get_hardware_info _) = refl
decode-command_id Command.set_animation_mode = refl
decode-command_id (Command.set_sub_channel_volume SubMixChannelName.mic) = refl
decode-command_id (Command.set_sub_channel_volume _) = refl
decode-command_id Command.set_channel_mixes = refl
decode-command_id Command.set_monitored_mix = refl
decode-command_id (Command.execute_firmware_update_command FirmwareCommand.start) = refl
decode-command_id (Command.execute_firmware_update_command _) = refl
decode-command_id (Command.execute_firmware_update_action FirmwareAction.erase) = refl
decode-command_id (Command.execute_firmware_update_action _) = refl

-- Two commands with the same number on the wire are the same command, sub-commands and the
-- channels, faders, encoders or inputs that they carry included.
pub command_id-injective : (c d : Command) → command_id c ≡ command_id d → c ≡ d
command_id-injective c d h = cc (decode-command_id c, decode-command_id d, ap decode h)

find_command_all :
    (test : Command → Bool) (n : ℕ) (cs : List Command) (c : Command)
    → all_pass test cs ≡ true
    → find_command n cs ≡ some c
    → test c ≡ true
unfolding find_command all_pass
find_command_all test n [] c h e = cc
find_command_all test n (d ∷ cs) c h e = ground (arith, e, h, find_command_all test n cs c)

all_small : all_pass (λ c. ltb (command_id c) (2 ^ 32)) all_commands ≡ true
unfolding command_id all_pass
all_small = refl

-- The number of a command fits the four bytes that it is sent in.
pub command_id-lt : (c : Command) → command_id c < 2 ^ 32
unfolding decode
command_id-lt c =
    let small : ltb (command_id c) (2 ^ 32) ≡ true =
      find_command_all (λ d. ltb (command_id d) (2 ^ 32)) (command_id c) all_commands c all_small
        (decode-command_id c) in
    ground (arith, small)
