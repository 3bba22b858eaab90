-- ===== src/Types/Settings.antt =====
-- Versions, mute functions and microphone types of types/src/lib.rs.
use goxlr_utility.Base.{ℕ, Bool, true, false}
use goxlr_utility.Types.MicKey.{MicrophoneParamKey}

-- VersionNumber, types/src/lib.rs:85-87
pub record VersionNumber : Type 0 where
  pub v0 : ℕ
  pub v1 : ℕ
  pub v2 : ℕ
  pub v3 : ℕ

-- MuteFunction, types/src/lib.rs:366-372
pub data MuteFunction : Type 0 where
  all to_stream to_voice_chat to_phones to_line_out : MuteFunction

unfoldable pub MuteFunction-discrete : Discrete MuteFunction
MuteFunction-discrete = hlevel

abbrev pub is_all : MuteFunction → Bool
is_all MuteFunction.all = true
is_all _ = false

-- MicrophoneType, types/src/lib.rs:377-381
pub data MicrophoneType : Type 0 where
  dynamic condenser jack : MicrophoneType

unfoldable pub get_gain_param : MicrophoneType → MicrophoneParamKey
get_gain_param MicrophoneType.dynamic = MicrophoneParamKey.dynamic_gain
get_gain_param MicrophoneType.condenser = MicrophoneParamKey.condenser_gain
get_gain_param MicrophoneType.jack = MicrophoneParamKey.jack_gain

unfoldable pub has_phantom_power : MicrophoneType → Bool
has_phantom_power MicrophoneType.condenser = true
has_phantom_power _ = false
