-- ===== src/Types/Channels.antt =====
-- The channels, faders, encoders and devices of types/src/lib.rs.
use goxlr_utility.Base.{
  ℕ, ◌≡◌, refl, some, List, [], ◌∷◌, Enumeration, index, find_index, find_index-injective,
}

-- ChannelName, types/src/lib.rs:17-30
pub data ChannelName : Type 0 where
  mic line_in console system game chat sample music headphones mic_monitor : ChannelName
  line_out : ChannelName

unfoldable pub ChannelName-discrete : Discrete ChannelName
ChannelName-discrete = hlevel

unfoldable pub channel_name_index : ChannelName → ℕ
channel_name_index ChannelName.mic = 0
channel_name_index ChannelName.line_in = 1
channel_name_index ChannelName.console = 2
channel_name_index ChannelName.system = 3
channel_name_index ChannelName.game = 4
channel_name_index ChannelName.chat = 5
channel_name_index ChannelName.sample = 6
channel_name_index ChannelName.music = 7
channel_name_index ChannelName.headphones = 8
channel_name_index ChannelName.mic_monitor = 9
channel_name_index ChannelName.line_out = 10

abbrev pub channel_name_variants : List ChannelName
channel_name_variants =
    ChannelName.mic ∷ ChannelName.line_in ∷ ChannelName.console ∷ ChannelName.system
    ∷ ChannelName.game ∷ ChannelName.chat ∷ ChannelName.sample ∷ ChannelName.music
    ∷ ChannelName.headphones ∷ ChannelName.mic_monitor ∷ ChannelName.line_out ∷ []

instance abbrev pub channel_name_enumeration : Enumeration ChannelName
channel_name_enumeration = record {
  discriminant = channel_name_index;
  variants = channel_name_variants;
  discrete = ChannelName-discrete;
}

find_index-channel_name : (x : ChannelName) → find_index (index x) channel_name_variants ≡ some x
unfolding channel_name_index find_index
find_index-channel_name ChannelName.mic = refl
find_index-channel_name _ = refl

pub channel_name_index-injective : (x y : ChannelName) → index x ≡ index y → x ≡ y
channel_name_index-injective x y =
    find_index-injective channel_name_variants (find_index-channel_name x)
      (find_index-channel_name y)

-- Mix, types/src/lib.rs:35-39
pub data Mix : Type 0 where
  a b : Mix

unfoldable pub Mix-discrete : Discrete Mix
Mix-discrete = hlevel

unfoldable pub mix_index : Mix → ℕ
mix_index Mix.a = 0
mix_index Mix.b = 1

abbrev pub mix_variants : List Mix
mix_variants = Mix.a ∷ Mix.b ∷ []

instance abbrev pub mix_enumeration : Enumeration Mix
mix_enumeration = record {
  discriminant = mix_index;
  variants = mix_variants;
  discrete = Mix-discrete;
}

-- SubMixChannelName, types/src/lib.rs:44-53
pub data SubMixChannelName : Type 0 where
  mic line_in console system game chat sample music : SubMixChannelName

unfoldable pub SubMixChannelName-discrete : Discrete SubMixChannelName
SubMixChannelName-discrete = hlevel

unfoldable pub sub_mix_channel_name_index : SubMixChannelName → ℕ
sub_mix_channel_name_index SubMixChannelName.mic = 0
sub_mix_channel_name_index SubMixChannelName.line_in = 1
sub_mix_channel_name_index SubMixChannelName.console = 2
sub_mix_channel_name_index SubMixChannelName.system = 3
sub_mix_channel_name_index SubMixChannelName.game = 4
sub_mix_channel_name_index SubMixChannelName.chat = 5
sub_mix_channel_name_index SubMixChannelName.sample = 6
sub_mix_channel_name_index SubMixChannelName.music = 7

abbrev pub sub_mix_channel_name_variants : List SubMixChannelName
sub_mix_channel_name_variants =
    SubMixChannelName.mic ∷ SubMixChannelName.line_in ∷ SubMixChannelName.console
    ∷ SubMixChannelName.system ∷ SubMixChannelName.game ∷ SubMixChannelName.chat
    ∷ SubMixChannelName.sample ∷ SubMixChannelName.music ∷ []

instance abbrev pub sub_mix_channel_name_enumeration : Enumeration SubMixChannelName
sub_mix_channel_name_enumeration = record {
  discriminant = sub_mix_channel_name_index;
  variants = sub_mix_channel_name_variants;
  discrete = SubMixChannelName-discrete;
}

find_index-sub_mix_channel_name :
    (x : SubMixChannelName) → find_index (index x) sub_mix_channel_name_variants ≡ some x
unfolding sub_mix_channel_name_index find_index
find_index-sub_mix_channel_name SubMixChannelName.mic = refl
find_index-sub_mix_channel_name _ = refl

pub sub_mix_channel_name_index-injective : (x y : SubMixChannelName) → index x ≡ index y → x ≡ y
sub_mix_channel_name_index-injective x y =
    find_index-injective sub_mix_channel_name_variants (find_index-sub_mix_channel_name x)
      (find_index-sub_mix_channel_name y)

-- FaderName, types/src/lib.rs:58-63
pub data FaderName : Type 0 where
  a b c d : FaderName

unfoldable pub FaderName-discrete : Discrete FaderName
FaderName-discrete = hlevel

unfoldable pub fader_name_index : FaderName → ℕ
fader_name_index FaderName.a = 0
fader_name_index FaderName.b = 1
fader_name_index FaderName.c = 2
fader_name_index FaderName.d = 3

abbrev pub fader_name_variants : List FaderName
fader_name_variants = FaderName.a ∷ FaderName.b ∷ FaderName.c ∷ FaderName.d ∷ []

instance abbrev pub fader_name_enumeration : Enumeration FaderName
fader_name_enumeration = record {
  discriminant = fader_name_index;
  variants = fader_name_variants;
  discrete = FaderName-discrete;
}

find_index-fader_name : (x : FaderName) → find_index (index x) fader_name_variants ≡ some x
unfolding fader_name_index find_index
find_index-fader_name FaderName.a = refl
find_index-fader_name _ = refl

pub fader_name_index-injective : (x y : FaderName) → index x ≡ index y → x ≡ y
fader_name_index-injective x y =
    find_index-injective fader_name_variants (find_index-fader_name x) (find_index-fader_name y)

-- EncoderName, types/src/lib.rs:68-73
pub data EncoderName : Type 0 where
  pitch gender reverb echo : EncoderName

unfoldable pub EncoderName-discrete : Discrete EncoderName
EncoderName-discrete = hlevel

unfoldable pub encoder_name_index : EncoderName → ℕ
encoder_name_index EncoderName.pitch = 0x00
encoder_name_index EncoderName.gender = 0x01
encoder_name_index EncoderName.reverb = 0x02
encoder_name_index EncoderName.echo = 0x03

abbrev pub encoder_name_variants : List EncoderName
encoder_name_variants =
    EncoderName.pitch ∷ EncoderName.gender ∷ EncoderName.reverb ∷ EncoderName.echo ∷ []

instance abbrev pub encoder_name_enumeration : Enumeration EncoderName
encoder_name_enumeration = record {
  discriminant = encoder_name_index;
  variants = encoder_name_variants;
  discrete = EncoderName-discrete;
}

find_index-encoder_name : (x : EncoderName) → find_index (index x) encoder_name_variants ≡ some x
unfolding encoder_name_index find_index
find_index-encoder_name EncoderName.pitch = refl
find_index-encoder_name _ = refl

pub encoder_name_index-injective : (x y : EncoderName) → index x ≡ index y → x ≡ y
encoder_name_index-injective x y =
    find_index-injective encoder_name_variants (find_index-encoder_name x)
      (find_index-encoder_name y)

-- OutputDevice, types/src/lib.rs:104-110
pub data OutputDevice : Type 0 where
  headphones broadcast_mix chat_mic sampler line_out : OutputDevice

unfoldable pub OutputDevice-discrete : Discrete OutputDevice
OutputDevice-discrete = hlevel

unfoldable pub output_device_index : OutputDevice → ℕ
output_device_index OutputDevice.headphones = 0
output_device_index OutputDevice.broadcast_mix = 1
output_device_index OutputDevice.chat_mic = 2
output_device_index OutputDevice.sampler = 3
output_device_index OutputDevice.line_out = 4

abbrev pub output_device_variants : List OutputDevice
output_device_variants =
    OutputDevice.headphones ∷ OutputDevice.broadcast_mix ∷ OutputDevice.chat_mic
    ∷ OutputDevice.sampler ∷ OutputDevice.line_out ∷ []

instance abbrev pub output_device_enumeration : Enumeration OutputDevice
output_device_enumeration = record {
  discriminant = output_device_index;
  variants = output_device_variants;
  discrete = OutputDevice-discrete;
}

-- InputDevice, types/src/lib.rs:115-124
pub data InputDevice : Type 0 where
  microphone chat music game console line_in system samples : InputDevice

unfoldable pub InputDevice-discrete : Discrete InputDevice
InputDevice-discrete = hlevel

unfoldable pub input_device_index : InputDevice → ℕ
input_device_index InputDevice.microphone = 0
input_device_index InputDevice.chat = 1
input_device_index InputDevice.music = 2
input_device_index InputDevice.game = 3
input_device_index InputDevice.console = 4
input_device_index InputDevice.line_in = 5
input_device_index InputDevice.system = 6
input_device_index InputDevice.samples = 7

abbrev pub input_device_variants : List InputDevice
input_device_variants =
    InputDevice.microphone ∷ InputDevice.chat ∷ InputDevice.music ∷ InputDevice.game
    ∷ InputDevice.console ∷ InputDevice.line_in ∷ InputDevice.system ∷ InputDevice.samples ∷ []

instance abbrev pub input_device_enumeration : Enumeration InputDevice
input_device_enumeration = record {
  discriminant = input_device_index;
  variants = input_device_variants;
  discrete = InputDevice-discrete;
}
