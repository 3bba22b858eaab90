-- ===== src/Mic/MiniEqualizer.antt =====
-- The equaliser of the Mini: profile/src/microphone/equalizer_mini.rs and the functions on it of
-- daemon/src/mic_profile.rs. The twelve fields of EqualizerMini are two maps over the bands.
pub mod Disjoint
use mathlib.Core.Option
use goxlr_utility.Base.{
  ℕ, Bool, true, false, not, ◌||◌, Option, none, some, List, [], ◌∷◌, Enumeration, update,
  if◌then◌else◌,
}
use goxlr_utility.Base.Int.{ℤ}
use goxlr_utility.Base.Float.{F32, literal, lt, contains}
use goxlr_utility.Types.{MicrophoneParamKey}
use goxlr_utility.Mic.Gain.{validate_gain}

-- types/src/lib.rs:435-442
pub data MiniEqFrequencies : Type 0 where
  equalizer90_hz equalizer250_hz equalizer500_hz equalizer1_khz equalizer3_khz : MiniEqFrequencies
  equalizer8_khz : MiniEqFrequencies

unfoldable pub MiniEqFrequencies-discrete : Discrete MiniEqFrequencies
MiniEqFrequencies-discrete = hlevel

unfoldable pub mini_eq_frequencies_index : MiniEqFrequencies → ℕ
mini_eq_frequencies_index MiniEqFrequencies.equalizer90_hz = 0
mini_eq_frequencies_index MiniEqFrequencies.equalizer250_hz = 1
mini_eq_frequencies_index MiniEqFrequencies.equalizer500_hz = 2
mini_eq_frequencies_index MiniEqFrequencies.equalizer1_khz = 3
mini_eq_frequencies_index MiniEqFrequencies.equalizer3_khz = 4
mini_eq_frequencies_index MiniEqFrequencies.equalizer8_khz = 5

abbrev pub mini_eq_frequencies_variants : List MiniEqFrequencies
mini_eq_frequencies_variants =
    MiniEqFrequencies.equalizer90_hz ∷ MiniEqFrequencies.equalizer250_hz
    ∷ MiniEqFrequencies.equalizer500_hz ∷ MiniEqFrequencies.equalizer1_khz
    ∷ MiniEqFrequencies.equalizer3_khz ∷ MiniEqFrequencies.equalizer8_khz ∷ []

instance abbrev pub mini_eq_frequencies_enumeration : Enumeration MiniEqFrequencies
mini_eq_frequencies_enumeration = record {
  discriminant = mini_eq_frequencies_index;
  variants = mini_eq_frequencies_variants;
  discrete = MiniEqFrequencies-discrete;
}

pub record EqualizerMini : Type 0 where
  pub eq_gain : MiniEqFrequencies → ℤ
  pub eq_freq : MiniEqFrequencies → F32

-- The ends of the range that the setter of a band's frequency accepts.
unfoldable pub lowest : MiniEqFrequencies → ℕ
lowest MiniEqFrequencies.equalizer90_hz = 30
lowest MiniEqFrequencies.equalizer250_hz = 100
lowest MiniEqFrequencies.equalizer500_hz = 310
lowest MiniEqFrequencies.equalizer1_khz = 800
lowest MiniEqFrequencies.equalizer3_khz = 2600
lowest MiniEqFrequencies.equalizer8_khz = 5100

unfoldable pub highest : MiniEqFrequencies → ℕ
highest MiniEqFrequencies.equalizer90_hz = 90
highest MiniEqFrequencies.equalizer250_hz = 300
highest MiniEqFrequencies.equalizer500_hz = 800
highest MiniEqFrequencies.equalizer1_khz = 2500
highest MiniEqFrequencies.equalizer3_khz = 5000
highest MiniEqFrequencies.equalizer8_khz = 18000

-- the setters of EqualizerMini, none for an error
unfoldable pub store_gain : MiniEqFrequencies → ℤ → EqualizerMini → Option EqualizerMini
store_gain band value eq =
    if validate_gain value
    then some (record eq { eq_gain = update eq.eq_gain band value })
    else none

unfoldable pub store_freq : MiniEqFrequencies → F32 → EqualizerMini → Option EqualizerMini
store_freq band value eq =
    if not (contains (literal (lowest band)) (literal (highest band)) value)
    then none
    else some (record eq { eq_freq = update eq.eq_freq band value })

-- The bands whose frequencies `set_mini_eq_freq` reads as `min` and `max`.
unfoldable pub band_min : MiniEqFrequencies → Option MiniEqFrequencies
band_min MiniEqFrequencies.equalizer90_hz = none
band_min MiniEqFrequencies.equalizer250_hz = some MiniEqFrequencies.equalizer90_hz
band_min MiniEqFrequencies.equalizer500_hz = some MiniEqFrequencies.equalizer250_hz
band_min MiniEqFrequencies.equalizer1_khz = some MiniEqFrequencies.equalizer500_hz
band_min MiniEqFrequencies.equalizer3_khz = some MiniEqFrequencies.equalizer1_khz
band_min MiniEqFrequencies.equalizer8_khz = some MiniEqFrequencies.equalizer250_hz

unfoldable pub band_max : MiniEqFrequencies → Option MiniEqFrequencies
band_max MiniEqFrequencies.equalizer90_hz = some MiniEqFrequencies.equalizer1_khz
band_max MiniEqFrequencies.equalizer250_hz = some MiniEqFrequencies.equalizer500_hz
band_max MiniEqFrequencies.equalizer500_hz = some MiniEqFrequencies.equalizer1_khz
band_max MiniEqFrequencies.equalizer1_khz = some MiniEqFrequencies.equalizer3_khz
band_max MiniEqFrequencies.equalizer3_khz = some MiniEqFrequencies.equalizer8_khz
band_max MiniEqFrequencies.equalizer8_khz = none

unfoldable pub gain_key : MiniEqFrequencies → MicrophoneParamKey
gain_key MiniEqFrequencies.equalizer90_hz = MicrophoneParamKey.equalizer90_hz_gain
gain_key MiniEqFrequencies.equalizer250_hz = MicrophoneParamKey.equalizer250_hz_gain
gain_key MiniEqFrequencies.equalizer500_hz = MicrophoneParamKey.equalizer500_hz_gain
gain_key MiniEqFrequencies.equalizer1_khz = MicrophoneParamKey.equalizer1_khz_gain
gain_key MiniEqFrequencies.equalizer3_khz = MicrophoneParamKey.equalizer3_khz_gain
gain_key MiniEqFrequencies.equalizer8_khz = MicrophoneParamKey.equalizer8_khz_gain

unfoldable pub freq_key : MiniEqFrequencies → MicrophoneParamKey
freq_key MiniEqFrequencies.equalizer90_hz = MicrophoneParamKey.equalizer90_hz_frequency
freq_key MiniEqFrequencies.equalizer250_hz = MicrophoneParamKey.equalizer250_hz_frequency
freq_key MiniEqFrequencies.equalizer500_hz = MicrophoneParamKey.equalizer500_hz_frequency
freq_key MiniEqFrequencies.equalizer1_khz = MicrophoneParamKey.equalizer1_khz_frequency
freq_key MiniEqFrequencies.equalizer3_khz = MicrophoneParamKey.equalizer3_khz_frequency
freq_key MiniEqFrequencies.equalizer8_khz = MicrophoneParamKey.equalizer8_khz_frequency

unfoldable pub exceeds : F32 → Option MiniEqFrequencies → EqualizerMini → Bool
exceeds value none eq = false
exceeds value (some band) eq = lt (eq.eq_freq band) value

unfoldable pub falls_short : F32 → Option MiniEqFrequencies → EqualizerMini → Bool
falls_short value none eq = false
falls_short value (some band) eq = lt value (eq.eq_freq band)

unfoldable pub set_mini_eq_gain :
    MiniEqFrequencies → ℤ → EqualizerMini → Option (MicrophoneParamKey × EqualizerMini)
set_mini_eq_gain band value eq = Option.map (λ e. (gain_key band, e)) (store_gain band value eq)

unfoldable pub set_mini_eq_freq :
    MiniEqFrequencies → F32 → EqualizerMini → Option (MicrophoneParamKey × EqualizerMini)
set_mini_eq_freq band value eq =
    if exceeds value (band_max band) eq || falls_short value (band_min band) eq
    then none
    else Option.map (λ e. (freq_key band, e)) (store_freq band value eq)

-- The frequencies of `EqualizerMini::new`.
unfoldable pub new_freq : MiniEqFrequencies → F32
new_freq MiniEqFrequencies.equalizer90_hz = literal 90
new_freq MiniEqFrequencies.equalizer250_hz = literal 160
new_freq MiniEqFrequencies.equalizer500_hz = literal 480
new_freq MiniEqFrequencies.equalizer1_khz = literal 1500
new_freq MiniEqFrequencies.equalizer3_khz = literal 4500
new_freq MiniEqFrequencies.equalizer8_khz = literal 7800

unfoldable pub new : EqualizerMini
new = record { eq_gain = λ _. ℤ.pos 0; eq_freq = new_freq }
