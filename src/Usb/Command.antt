-- ===== src/Usb/Command.antt =====
-- usb/src/commands.rs: the commands and the number that each has on the wire.
pub mod Decode
use Prim.Native.Nat.{bit_or}
use goxlr_utility.Base.{ℕ, ◌+◌, ◌*◌, ◌^◌, index}
use goxlr_utility.Types.{
  ChannelName, EncoderName, FaderName, SubMixChannelName, channel_name_enumeration,
  encoder_name_enumeration, fader_name_enumeration, sub_mix_channel_name_enumeration,
  channel_name_index, encoder_name_index, fader_name_index, sub_mix_channel_name_index,
}
use goxlr_utility.Usb.Routing
use goxlr_utility.Usb.Routing.{InputDevice}

pub data SystemInfoCommand : Type 0 where
  firmware_version supports_dcp_category : SystemInfoCommand

unfoldable pub system_info_id : SystemInfoCommand → ℕ
system_info_id SystemInfoCommand.firmware_version = 2
system_info_id SystemInfoCommand.supports_dcp_category = 1

pub data HardwareInfoCommand : Type 0 where
  firmware_version serial_number : HardwareInfoCommand

unfoldable pub hardware_info_index : HardwareInfoCommand → ℕ
hardware_info_index HardwareInfoCommand.firmware_version = 0
hardware_info_index HardwareInfoCommand.serial_number = 1

pub data FirmwareCommand : Type 0 where
  start verify abort finalise reboot poll : FirmwareCommand

unfoldable pub firmware_command_index : FirmwareCommand → ℕ
firmware_command_index FirmwareCommand.start = 0
firmware_command_index FirmwareCommand.verify = 1
firmware_command_index FirmwareCommand.abort = 2
firmware_command_index FirmwareCommand.finalise = 3
firmware_command_index FirmwareCommand.reboot = 4
firmware_command_index FirmwareCommand.poll = 5

pub data FirmwareAction : Type 0 where
  erase poll send validate : FirmwareAction

unfoldable pub firmware_action_id : FirmwareAction → ℕ
firmware_action_id FirmwareAction.erase = 2
firmware_action_id FirmwareAction.poll = 3
firmware_action_id FirmwareAction.send = 4
firmware_action_id FirmwareAction.validate = 6

pub data Command : Type 0 where
  reset_command_index : Command
  system_info : SystemInfoCommand → Command
  set_channel_state : ChannelName → Command
  set_channel_volume : ChannelName → Command
  set_encoder_value : EncoderName → Command
  set_encoder_mode : EncoderName → Command
  set_fader : FaderName → Command
  set_routing : InputDevice → Command
  set_button_states : Command
  set_effect_parameters : Command
  set_microphone_parameters : Command
  get_microphone_level : Command
  set_colour_map : Command
  set_fader_display_mode : FaderName → Command
  set_scribble : FaderName → Command
  get_button_states : Command
  get_hardware_info : HardwareInfoCommand → Command
  set_animation_mode : Command
  set_sub_channel_volume : SubMixChannelName → Command
  set_channel_mixes : Command
  set_monitored_mix : Command
  execute_firmware_update_command : FirmwareCommand → Command
  execute_firmware_update_action : FirmwareAction → Command

-- `group << 12`
abbrev pub shifted : ℕ → ℕ
shifted group = group * 2 ^ 12

unfoldable pub command_id : Command → ℕ
unfolding system_info_id hardware_info_index firmware_command_index firmware_action_id Routing.id
    channel_name_index encoder_name_index fader_name_index sub_mix_channel_name_index
command_id Command.reset_command_index = 0
command_id (Command.system_info sub) = system_info_id sub
command_id (Command.set_channel_state channel) = bit_or (shifted 0x809) (index channel)
command_id (Command.set_channel_volume channel) = bit_or (shifted 0x806) (index channel)
command_id (Command.set_encoder_value encoder) = bit_or (shifted 0x80a) (index encoder)
command_id (Command.set_encoder_mode encoder) = bit_or (shifted 0x811) (index encoder)
command_id (Command.set_fader fader) = bit_or (shifted 0x805) (index fader)
command_id (Command.set_routing input_device) = bit_or (shifted 0x804) (Routing.id input_device)
command_id Command.set_colour_map = shifted 0x803
command_id Command.set_button_states = shifted 0x808
command_id (Command.set_fader_display_mode fader) = bit_or (shifted 0x814) (index fader)
command_id (Command.set_scribble fader) = bit_or (shifted 0x802) (index fader)
command_id Command.get_button_states = shifted 0x800
command_id (Command.get_hardware_info sub) = bit_or (shifted 0x80f) (hardware_info_index sub)
command_id Command.get_microphone_level = shifted 0x80c
command_id Command.set_microphone_parameters = shifted 0x80b
command_id Command.set_effect_parameters = shifted 0x801
command_id Command.set_animation_mode = shifted 0x816
command_id (Command.set_sub_channel_volume channel) = bit_or (shifted 0x806) (index channel + 16)
command_id Command.set_channel_mixes = shifted 0x817
command_id Command.set_monitored_mix = shifted 0x818
command_id (Command.execute_firmware_update_command sub) =
    bit_or (shifted 0x810) (firmware_command_index sub)
command_id (Command.execute_firmware_update_action sub) =
    bit_or (shifted 0x004) (firmware_action_id sub)
