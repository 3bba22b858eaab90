-- ===== src/Profile/Conversion/RoundTrip.antt =====
-- The conversions between the profile's names and the standard ones, both ways.
use goxlr_utility.Base.{◌≡◌, refl}
use goxlr_utility.Types
use goxlr_utility.Profile.Conversion.{
  InputChannels, OutputChannels, FullChannelList, MuteFunction, Mix, profile_to_standard_input,
  standard_input_to_profile, profile_to_standard_output, standard_output_to_profile,
  profile_to_standard_channel, standard_to_profile_channel, profile_to_standard_mute_function,
  standard_to_profile_mute_function, profile_to_standard_mix, standard_to_profile_mix,
}

-- Each of two conversions undoes the other.
abbrev pub AreInverse : {A B : Type 0} → (A → B) → (B → A) → Type 0
AreInverse {A} {B} f g = ((a : A) → g (f a) ≡ a) × ((b : B) → f (g b) ≡ b)

input_there : (a : InputChannels) → standard_input_to_profile (profile_to_standard_input a) ≡ a
unfolding profile_to_standard_input standard_input_to_profile
input_there InputChannels.mic = refl
input_there InputChannels.chat = refl
input_there InputChannels.music = refl
input_there InputChannels.game = refl
input_there InputChannels.console = refl
input_there InputChannels.line_in = refl
input_there InputChannels.system = refl
input_there InputChannels.sample = refl

input_back : (b : Types.InputDevice) → profile_to_standard_input (standard_input_to_profile b) ≡ b
unfolding profile_to_standard_input standard_input_to_profile
input_back Types.InputDevice.microphone = refl
input_back Types.InputDevice.chat = refl
input_back Types.InputDevice.music = refl
input_back Types.InputDevice.game = refl
input_back Types.InputDevice.console = refl
input_back Types.InputDevice.line_in = refl
input_back Types.InputDevice.system = refl
input_back Types.InputDevice.samples = refl

output_there : (a : OutputChannels) → standard_output_to_profile (profile_to_standard_output a) ≡ a
unfolding profile_to_standard_output standard_output_to_profile
output_there OutputChannels.headphones = refl
output_there OutputChannels.broadcast = refl
output_there OutputChannels.line_out = refl
output_there OutputChannels.chat_mic = refl
output_there OutputChannels.sampler = refl

output_back :
    (b : Types.OutputDevice) → profile_to_standard_output (standard_output_to_profile b) ≡ b
unfolding profile_to_standard_output standard_output_to_profile
output_back Types.OutputDevice.headphones = refl
output_back Types.OutputDevice.broadcast_mix = refl
output_back Types.OutputDevice.chat_mic = refl
output_back Types.OutputDevice.sampler = refl
output_back Types.OutputDevice.line_out = refl

channel_there :
    (a : FullChannelList) → standard_to_profile_channel (profile_to_standard_channel a) ≡ a
unfolding profile_to_standard_channel standard_to_profile_channel
channel_there FullChannelList.mic = refl
channel_there FullChannelList.chat = refl
channel_there FullChannelList.music = refl
channel_there FullChannelList.game = refl
channel_there FullChannelList.console = refl
channel_there FullChannelList.line_in = refl
channel_there FullChannelList.system = refl
channel_there FullChannelList.sample = refl
channel_there FullChannelList.headphones = refl
channel_there FullChannelList.mic_monitor = refl
channel_there FullChannelList.line_out = refl

channel_back :
    (b : Types.ChannelName) → profile_to_standard_channel (standard_to_profile_channel b) ≡ b
unfolding profile_to_standard_channel standard_to_profile_channel
channel_back Types.ChannelName.mic = refl
channel_back Types.ChannelName.line_in = refl
channel_back Types.ChannelName.console = refl
channel_back Types.ChannelName.system = refl
channel_back Types.ChannelName.game = refl
channel_back Types.ChannelName.chat = refl
channel_back Types.ChannelName.sample = refl
channel_back Types.ChannelName.music = refl
channel_back Types.ChannelName.headphones = refl
channel_back Types.ChannelName.mic_monitor = refl
channel_back Types.ChannelName.line_out = refl

mute_function_there :
    (a : MuteFunction) → standard_to_profile_mute_function (profile_to_standard_mute_function a) ≡ a
unfolding profile_to_standard_mute_function standard_to_profile_mute_function
mute_function_there MuteFunction.all = refl
mute_function_there MuteFunction.to_stream = refl
mute_function_there MuteFunction.to_voice_chat = refl
mute_function_there MuteFunction.to_phones = refl
mute_function_there MuteFunction.to_line_out = refl

mute_function_back :
    (b : Types.MuteFunction)
    → profile_to_standard_mute_function (standard_to_profile_mute_function b) ≡ b
unfolding profile_to_standard_mute_function standard_to_profile_mute_function
mute_function_back Types.MuteFunction.all = refl
mute_function_back Types.MuteFunction.to_stream = refl
mute_function_back Types.MuteFunction.to_voice_chat = refl
mute_function_back Types.MuteFunction.to_phones = refl
mute_function_back Types.MuteFunction.to_line_out = refl

mix_there : (a : Mix) → standard_to_profile_mix (profile_to_standard_mix a) ≡ a
unfolding profile_to_standard_mix standard_to_profile_mix
mix_there Mix.a = refl
mix_there Mix.b = refl

mix_back : (b : Types.Mix) → profile_to_standard_mix (standard_to_profile_mix b) ≡ b
unfolding profile_to_standard_mix standard_to_profile_mix
mix_back Types.Mix.a = refl
mix_back Types.Mix.b = refl

-- The conversions of inputs, outputs, channels, mute functions and mixes are each inverse to the
-- conversion back, both ways round.
pub conversions-AreInverse :
    AreInverse profile_to_standard_input standard_input_to_profile
    × AreInverse profile_to_standard_output standard_output_to_profile
    × AreInverse profile_to_standard_channel standard_to_profile_channel
    × AreInverse profile_to_standard_mute_function standard_to_profile_mute_function
    × AreInverse profile_to_standard_mix standard_to_profile_mix
conversions-AreInverse = (
  (input_there, input_back),
  (output_there, output_back),
  (channel_there, channel_back),
  (mute_function_there, mute_function_back),
  (mix_there, mix_back),
)
