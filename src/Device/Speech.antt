-- ===== src/Device/Speech.antt =====
-- The words of the messages that the handlers send to the events channel.
use Prim.Native.String.{String}
use goxlr_utility.Types.{ChannelName, MuteFunction}

-- strum's `Display` of a channel
unfoldable pub channel_display : ChannelName → String
channel_display ChannelName.mic = "Mic"
channel_display ChannelName.line_in = "LineIn"
channel_display ChannelName.console = "Console"
channel_display ChannelName.system = "System"
channel_display ChannelName.game = "Game"
channel_display ChannelName.chat = "Chat"
channel_display ChannelName.sample = "Sample"
channel_display ChannelName.music = "Music"
channel_display ChannelName.headphones = "Headphones"
channel_display ChannelName.mic_monitor = "MicMonitor"
channel_display ChannelName.line_out = "LineOut"

unfoldable pub tts_target : MuteFunction → String
tts_target MuteFunction.all = ""
tts_target MuteFunction.to_stream = " to Stream"
tts_target MuteFunction.to_voice_chat = " to Voice Chat"
tts_target MuteFunction.to_phones = " to Headphones"
tts_target MuteFunction.to_line_out = " to Line Out"
