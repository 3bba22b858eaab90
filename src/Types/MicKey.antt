-- ===== src/Types/MicKey.antt =====
-- The keys of the microphone parameters, of types/src/lib.rs.
use goxlr_utility.Base.{
  ℕ, ◌≡◌, refl, some, List, [], ◌∷◌, Enumeration, index, find_index, find_index-injective,
}

-- MicrophoneParamKey, types/src/lib.rs:246-278
pub data MicrophoneParamKey : Type 0 where
  mic_type dynamic_gain condenser_gain jack_gain gate_threshold gate_attack : MicrophoneParamKey
  gate_release gate_attenuation compressor_threshold compressor_ratio : MicrophoneParamKey
  compressor_attack compressor_release compressor_make_up_gain bleep_level : MicrophoneParamKey
  equalizer90_hz_frequency equalizer90_hz_gain equalizer250_hz_frequency : MicrophoneParamKey
  equalizer250_hz_gain equalizer500_hz_frequency equalizer500_hz_gain : MicrophoneParamKey
  equalizer1_khz_frequency equalizer1_khz_gain equalizer3_khz_frequency : MicrophoneParamKey
  equalizer3_khz_gain equalizer8_khz_frequency equalizer8_khz_gain : MicrophoneParamKey

unfoldable pub MicrophoneParamKey-discrete : Discrete MicrophoneParamKey
MicrophoneParamKey-discrete = hlevel

unfoldable pub microphone_param_key_index : MicrophoneParamKey → ℕ
microphone_param_key_index MicrophoneParamKey.mic_type = 0x000
microphone_param_key_index MicrophoneParamKey.dynamic_gain = 0x001
microphone_param_key_index MicrophoneParamKey.condenser_gain = 0x002
microphone_param_key_index MicrophoneParamKey.jack_gain = 0x003
microphone_param_key_index MicrophoneParamKey.gate_threshold = 0x30200
microphone_param_key_index MicrophoneParamKey.gate_attack = 0x30400
microphone_param_key_index MicrophoneParamKey.gate_release = 0x30600
microphone_param_key_index MicrophoneParamKey.gate_attenuation = 0x30900
microphone_param_key_index MicrophoneParamKey.compressor_threshold = 0x60200
microphone_param_key_index MicrophoneParamKey.compressor_ratio = 0x60300
microphone_param_key_index MicrophoneParamKey.compressor_attack = 0x60400
microphone_param_key_index MicrophoneParamKey.compressor_release = 0x60600
microphone_param_key_index MicrophoneParamKey.compressor_make_up_gain = 0x60700
microphone_param_key_index MicrophoneParamKey.bleep_level = 0x70100
microphone_param_key_index MicrophoneParamKey.equalizer90_hz_frequency = 0x40000
microphone_param_key_index MicrophoneParamKey.equalizer90_hz_gain = 0x40001
microphone_param_key_index MicrophoneParamKey.equalizer250_hz_frequency = 0x40003
microphone_param_key_index MicrophoneParamKey.equalizer250_hz_gain = 0x40004
microphone_param_key_index MicrophoneParamKey.equalizer500_hz_frequency = 0x40006
microphone_param_key_index MicrophoneParamKey.equalizer500_hz_gain = 0x40007
microphone_param_key_index MicrophoneParamKey.equalizer1_khz_frequency = 0x50000
microphone_param_key_index MicrophoneParamKey.equalizer1_khz_gain = 0x50001
microphone_param_key_index MicrophoneParamKey.equalizer3_khz_frequency = 0x50003
microphone_param_key_index MicrophoneParamKey.equalizer3_khz_gain = 0x50004
microphone_param_key_index MicrophoneParamKey.equalizer8_khz_frequency = 0x50006
microphone_param_key_index MicrophoneParamKey.equalizer8_khz_gain = 0x50007

abbrev pub microphone_param_key_variants : List MicrophoneParamKey
microphone_param_key_variants =
    MicrophoneParamKey.mic_type ∷ MicrophoneParamKey.dynamic_gain
    ∷ MicrophoneParamKey.condenser_gain ∷ MicrophoneParamKey.jack_gain
    ∷ MicrophoneParamKey.gate_threshold ∷ MicrophoneParamKey.gate_attack
    ∷ MicrophoneParamKey.gate_release ∷ MicrophoneParamKey.gate_attenuation
    ∷ MicrophoneParamKey.compressor_threshold ∷ MicrophoneParamKey.compressor_ratio
    ∷ MicrophoneParamKey.compressor_attack ∷ MicrophoneParamKey.compressor_release
    ∷ MicrophoneParamKey.compressor_make_up_gain ∷ MicrophoneParamKey.bleep_level
    ∷ MicrophoneParamKey.equalizer90_hz_frequency ∷ MicrophoneParamKey.equalizer90_hz_gain
    ∷ MicrophoneParamKey.equalizer250_hz_frequency ∷ MicrophoneParamKey.equalizer250_hz_gain
    ∷ MicrophoneParamKey.equalizer500_hz_frequency ∷ MicrophoneParamKey.equalizer500_hz_gain
    ∷ MicrophoneParamKey.equalizer1_khz_frequency ∷ MicrophoneParamKey.equalizer1_khz_gain
    ∷ MicrophoneParamKey.equalizer3_khz_frequency ∷ MicrophoneParamKey.equalizer3_khz_gain
    ∷ MicrophoneParamKey.equalizer8_khz_frequency ∷ MicrophoneParamKey.equalizer8_khz_gain ∷ []

instance abbrev pub microphone_param_key_enumeration : Enumeration MicrophoneParamKey
microphone_param_key_enumeration = record {
  discriminant = microphone_param_key_index;
  variants = microphone_param_key_variants;
  discrete = MicrophoneParamKey-discrete;
}

find_index-microphone_param_key :
    (x : MicrophoneParamKey) → find_index (index x) microphone_param_key_variants ≡ some x
unfolding microphone_param_key_index find_index
find_index-microphone_param_key MicrophoneParamKey.mic_type = refl
find_index-microphone_param_key _ = refl

pub microphone_param_key_index-injective : (x y : MicrophoneParamKey) → index x ≡ index y → x ≡ y
microphone_param_key_index-injective x y =
    find_index-injective microphone_param_key_variants (find_index-microphone_param_key x)
      (find_index-microphone_param_key y)
