-- ===== src/Usb/Routing.antt =====
-- usb/src/routing.rs: the stereo halves of the inputs and outputs, and their places on the wire.
use goxlr_utility.Base.{ℕ}
use goxlr_utility.Types

pub data InputDevice : Type 0 where
  microphone_right microphone_left music_right music_left game_right game_left : InputDevice
  chat_right chat_left console_right console_left line_in_right line_in_left : InputDevice
  system_right system_left samples_right samples_left : InputDevice

pub data OutputDevice : Type 0 where
  headphones_right headphones_left broadcast_mix_right broadcast_mix_left : OutputDevice
  chat_mic_right chat_mic_left sampler_right sampler_left line_out_right : OutputDevice
  line_out_left hard_tune : OutputDevice

unfoldable pub position : OutputDevice → ℕ
position OutputDevice.headphones_left = 1
position OutputDevice.headphones_right = 3
position OutputDevice.broadcast_mix_left = 5
position OutputDevice.broadcast_mix_right = 7
position OutputDevice.chat_mic_left = 9
position OutputDevice.chat_mic_right = 11
position OutputDevice.sampler_left = 13
position OutputDevice.sampler_right = 15
position OutputDevice.line_out_left = 17
position OutputDevice.line_out_right = 19
position OutputDevice.hard_tune = 21

-- The left half and the right half of an output.
unfoldable pub output_halves : Types.OutputDevice → OutputDevice × OutputDevice
output_halves Types.OutputDevice.headphones =
    (OutputDevice.headphones_left, OutputDevice.headphones_right)
output_halves Types.OutputDevice.broadcast_mix =
    (OutputDevice.broadcast_mix_left, OutputDevice.broadcast_mix_right)
output_halves Types.OutputDevice.chat_mic =
    (OutputDevice.chat_mic_left, OutputDevice.chat_mic_right)
output_halves Types.OutputDevice.sampler = (OutputDevice.sampler_left, OutputDevice.sampler_right)
output_halves Types.OutputDevice.line_out =
    (OutputDevice.line_out_left, OutputDevice.line_out_right)

unfoldable pub id : InputDevice → ℕ
id InputDevice.microphone_left = 0x02
id InputDevice.microphone_right = 0x03
id InputDevice.music_left = 0x0e
id InputDevice.music_right = 0x0f
id InputDevice.game_left = 0x0a
id InputDevice.game_right = 0x0b
id InputDevice.chat_left = 0x0c
id InputDevice.chat_right = 0x0d
id InputDevice.console_left = 0x06
id InputDevice.console_right = 0x07
id InputDevice.line_in_left = 0x04
id InputDevice.line_in_right = 0x05
id InputDevice.system_left = 0x08
id InputDevice.system_right = 0x09
id InputDevice.samples_left = 0x10
id InputDevice.samples_right = 0x11

-- The left half and the right half of an input.
unfoldable pub input_halves : Types.InputDevice → InputDevice × InputDevice
input_halves Types.InputDevice.microphone =
    (InputDevice.microphone_left, InputDevice.microphone_right)
input_halves Types.InputDevice.chat = (InputDevice.chat_left, InputDevice.chat_right)
input_halves Types.InputDevice.music = (InputDevice.music_left, InputDevice.music_right)
input_halves Types.InputDevice.game = (InputDevice.game_left, InputDevice.game_right)
input_halves Types.InputDevice.console = (InputDevice.console_left, InputDevice.console_right)
input_halves Types.InputDevice.line_in = (InputDevice.line_in_left, InputDevice.line_in_right)
input_halves Types.InputDevice.system = (InputDevice.system_left, InputDevice.system_right)
input_halves Types.InputDevice.samples = (InputDevice.samples_left, InputDevice.samples_right)
