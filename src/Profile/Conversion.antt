-- ===== src/Profile/Conversion.antt =====
-- The conversions of daemon/src/profile.rs between the standard names of types/src/lib.rs and the
-- names of the profile crate.
pub mod RoundTrip
use goxlr_utility.Base.{Option, none, some}
use goxlr_utility.Types

-- profile/src/components/mixer.rs
pub data InputChannels : Type 0 where
  mic chat music game console line_in system sample : InputChannels

pub data OutputChannels : Type 0 where
  headphones broadcast line_out chat_mic sampler : OutputChannels

pub data FullChannelList : Type 0 where
  mic chat music game console line_in system sample headphones mic_monitor line_out :
      FullChannelList

-- profile/src/components/mute.rs
pub data MuteFunction : Type 0 where
  all to_stream to_voice_chat to_phones to_line_out : MuteFunction

-- profile/src/profile.rs
pub data Faders : Type 0 where
  a b c d : Faders

-- profile/src/components/submix/mix_routing_tree.rs
pub data Mix : Type 0 where
  a b : Mix

unfoldable pub profile_to_standard_input : InputChannels → Types.InputDevice
profile_to_standard_input InputChannels.mic = Types.InputDevice.microphone
profile_to_standard_input InputChannels.chat = Types.InputDevice.chat
profile_to_standard_input InputChannels.music = Types.InputDevice.music
profile_to_standard_input InputChannels.game = Types.InputDevice.game
profile_to_standard_input InputChannels.console = Types.InputDevice.console
profile_to_standard_input InputChannels.line_in = Types.InputDevice.line_in
profile_to_standard_input InputChannels.system = Types.InputDevice.system
profile_to_standard_input InputChannels.sample = Types.InputDevice.samples

unfoldable pub standard_input_to_profile : Types.InputDevice → InputChannels
standard_input_to_profile Types.InputDevice.microphone = InputChannels.mic
standard_input_to_profile Types.InputDevice.chat = InputChannels.chat
standard_input_to_profile Types.InputDevice.music = InputChannels.music
standard_input_to_profile Types.InputDevice.game = InputChannels.game
standard_input_to_profile Types.InputDevice.console = InputChannels.console
standard_input_to_profile Types.InputDevice.line_in = InputChannels.line_in
standard_input_to_profile Types.InputDevice.system = InputChannels.system
standard_input_to_profile Types.InputDevice.samples = InputChannels.sample

unfoldable pub profile_to_standard_output : OutputChannels → Types.OutputDevice
profile_to_standard_output OutputChannels.headphones = Types.OutputDevice.headphones
profile_to_standard_output OutputChannels.broadcast = Types.OutputDevice.broadcast_mix
profile_to_standard_output OutputChannels.line_out = Types.OutputDevice.line_out
profile_to_standard_output OutputChannels.chat_mic = Types.OutputDevice.chat_mic
profile_to_standard_output OutputChannels.sampler = Types.OutputDevice.sampler

unfoldable pub standard_output_to_profile : Types.OutputDevice → OutputChannels
standard_output_to_profile Types.OutputDevice.headphones = OutputChannels.headphones
standard_output_to_profile Types.OutputDevice.broadcast_mix = OutputChannels.broadcast
standard_output_to_profile Types.OutputDevice.line_out = OutputChannels.line_out
standard_output_to_profile Types.OutputDevice.chat_mic = OutputChannels.chat_mic
standard_output_to_profile Types.OutputDevice.sampler = OutputChannels.sampler

unfoldable pub profile_to_standard_mute_function : MuteFunction → Types.MuteFunction
profile_to_standard_mute_function MuteFunction.all = Types.MuteFunction.all
profile_to_standard_mute_function MuteFunction.to_stream = Types.MuteFunction.to_stream
profile_to_standard_mute_function MuteFunction.to_voice_chat = Types.MuteFunction.to_voice_chat
profile_to_standard_mute_function MuteFunction.to_phones = Types.MuteFunction.to_phones
profile_to_standard_mute_function MuteFunction.to_line_out = Types.MuteFunction.to_line_out

unfoldable pub standard_to_profile_mute_function : Types.MuteFunction → MuteFunction
standard_to_profile_mute_function Types.MuteFunction.all = MuteFunction.all
standard_to_profile_mute_function Types.MuteFunction.to_stream = MuteFunction.to_stream
standard_to_profile_mute_function Types.MuteFunction.to_voice_chat = MuteFunction.to_voice_chat
standard_to_profile_mute_function Types.MuteFunction.to_phones = MuteFunction.to_phones
standard_to_profile_mute_function Types.MuteFunction.to_line_out = MuteFunction.to_line_out

unfoldable pub profile_to_standard_channel : FullChannelList → Types.ChannelName
profile_to_standard_channel FullChannelList.mic = Types.ChannelName.mic
profile_to_standard_channel FullChannelList.chat = Types.ChannelName.chat
profile_to_standard_channel FullChannelList.music = Types.ChannelName.music
profile_to_standard_channel FullChannelList.game = Types.ChannelName.game
profile_to_standard_channel FullChannelList.console = Types.ChannelName.console
profile_to_standard_channel FullChannelList.line_in = Types.ChannelName.line_in
profile_to_standard_channel FullChannelList.system = Types.ChannelName.system
profile_to_standard_channel FullChannelList.sample = Types.ChannelName.sample
profile_to_standard_channel FullChannelList.headphones = Types.ChannelName.headphones
profile_to_standard_channel FullChannelList.mic_monitor = Types.ChannelName.mic_monitor
profile_to_standard_channel FullChannelList.line_out = Types.ChannelName.line_out

unfoldable pub standard_to_profile_channel : Types.ChannelName → FullChannelList
standard_to_profile_channel Types.ChannelName.mic = FullChannelList.mic
standard_to_profile_channel Types.ChannelName.chat = FullChannelList.chat
standard_to_profile_channel Types.ChannelName.music = FullChannelList.music
standard_to_profile_channel Types.ChannelName.game = FullChannelList.game
standard_to_profile_channel Types.ChannelName.console = FullChannelList.console
standard_to_profile_channel Types.ChannelName.line_in = FullChannelList.line_in
standard_to_profile_channel Types.ChannelName.system = FullChannelList.system
standard_to_profile_channel Types.ChannelName.sample = FullChannelList.sample
standard_to_profile_channel Types.ChannelName.headphones = FullChannelList.headphones
standard_to_profile_channel Types.ChannelName.mic_monitor = FullChannelList.mic_monitor
standard_to_profile_channel Types.ChannelName.line_out = FullChannelList.line_out

unfoldable pub standard_to_profile_fader : Types.FaderName → Faders
standard_to_profile_fader Types.FaderName.a = Faders.a
standard_to_profile_fader Types.FaderName.b = Faders.b
standard_to_profile_fader Types.FaderName.c = Faders.c
standard_to_profile_fader Types.FaderName.d = Faders.d

unfoldable pub profile_to_standard_mix : Mix → Types.Mix
profile_to_standard_mix Mix.a = Types.Mix.a
profile_to_standard_mix Mix.b = Types.Mix.b

unfoldable pub standard_to_profile_mix : Types.Mix → Mix
standard_to_profile_mix Types.Mix.a = Mix.a
standard_to_profile_mix Types.Mix.b = Mix.b

unfoldable pub submix_standard_to_profile_input : Types.SubMixChannelName → InputChannels
submix_standard_to_profile_input Types.SubMixChannelName.mic = InputChannels.mic
submix_standard_to_profile_input Types.SubMixChannelName.line_in = InputChannels.line_in
submix_standard_to_profile_input Types.SubMixChannelName.console = InputChannels.console
submix_standard_to_profile_input Types.SubMixChannelName.system = InputChannels.system
submix_standard_to_profile_input Types.SubMixChannelName.game = InputChannels.game
submix_standard_to_profile_input Types.SubMixChannelName.chat = InputChannels.chat
submix_standard_to_profile_input Types.SubMixChannelName.sample = InputChannels.sample
submix_standard_to_profile_input Types.SubMixChannelName.music = InputChannels.music

unfoldable pub channel_name_to_submix : Types.ChannelName → Option Types.SubMixChannelName
channel_name_to_submix Types.ChannelName.mic = some Types.SubMixChannelName.mic
channel_name_to_submix Types.ChannelName.line_in = some Types.SubMixChannelName.line_in
channel_name_to_submix Types.ChannelName.console = some Types.SubMixChannelName.console
channel_name_to_submix Types.ChannelName.system = some Types.SubMixChannelName.system
channel_name_to_submix Types.ChannelName.game = some Types.SubMixChannelName.game
channel_name_to_submix Types.ChannelName.chat = some Types.SubMixChannelName.chat
channel_name_to_submix Types.ChannelName.sample = some Types.SubMixChannelName.sample
channel_name_to_submix Types.ChannelName.music = some Types.SubMixChannelName.music
channel_name_to_submix Types.ChannelName.headphones = none
channel_name_to_submix Types.ChannelName.mic_monitor = none
channel_name_to_submix Types.ChannelName.line_out = none
