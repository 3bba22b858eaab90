-- ===== src/Mic/Equalizer.antt =====
-- The equaliser of the full device: profile/src/microphone/equalizer.rs and the functions on it of
-- daemon/src/mic_profile.rs. The twenty fields of Equalizer are two maps over the bands.
pub mod Order
pub mod Setting
use mathlib.Core.Option
use goxlr_utility.Base.{
  ℕ, Bool, true, false, not, ◌&&◌, ◌||◌, Option, none, some, List, [], ◌∷◌, Enumeration, update,
  if◌then◌else◌,
}
use goxlr_utility.Base.Int.{ℤ}
use goxlr_utility.Base.Float.{F32, literal, half_past, half, lt, contains, is_multiple}
use goxlr_utility.Types.{EffectKey}
use goxlr_utility.Mic.Gain.{validate_gain}

-- types/src/lib.rs:447-458
pub data EqFrequencies : Type 0 where
  equalizer31_hz equalizer63_hz equalizer125_hz equalizer250_hz equalizer500_hz : EqFrequencies
  equalizer1_khz equalizer2_khz equalizer4_khz equalizer8_khz equalizer16_khz : EqFrequencies

unfoldable pub EqFrequencies-discrete : Discrete EqFrequencies
EqFrequencies-discrete = hlevel

unfoldable pub eq_frequencies_index : EqFrequencies → ℕ
eq_frequencies_index EqFrequencies.equalizer31_hz = 0
eq_frequencies_index EqFrequencies.equalizer63_hz = 1
eq_frequencies_index EqFrequencies.equalizer125_hz = 2
eq_frequencies_index EqFrequencies.equalizer250_hz = 3
eq_frequencies_index EqFrequencies.equalizer500_hz = 4
eq_frequencies_index EqFrequencies.equalizer1_khz = 5
eq_frequencies_index EqFrequencies.equalizer2_khz = 6
eq_frequencies_index EqFrequencies.equalizer4_khz = 7
eq_frequencies_index EqFrequencies.equalizer8_khz = 8
eq_frequencies_index EqFrequencies.equalizer16_khz = 9

abbrev pub eq_frequencies_variants : List EqFrequencies
eq_frequencies_variants =
    EqFrequencies.equalizer31_hz ∷ EqFrequencies.equalizer63_hz ∷ EqFrequencies.equalizer125_hz
    ∷ EqFrequencies.equalizer250_hz ∷ EqFrequencies.equalizer500_hz ∷ EqFrequencies.equalizer1_khz
    ∷ EqFrequencies.equalizer2_khz ∷ EqFrequencies.equalizer4_khz ∷ EqFrequencies.equalizer8_khz
    ∷ EqFrequencies.equalizer16_khz ∷ []

instance abbrev pub eq_frequencies_enumeration : Enumeration EqFrequencies
eq_frequencies_enumeration = record {
  discriminant = eq_frequencies_index;
  variants = eq_frequencies_variants;
  discrete = EqFrequencies-discrete;
}

pub record Equalizer : Type 0 where
  pub eq_gain : EqFrequencies → ℤ
  pub eq_freq : EqFrequencies → F32

-- The ends of the range that the setter of a band's frequency accepts, and what it is a multiple of.
unfoldable pub lowest : EqFrequencies → ℕ
lowest EqFrequencies.equalizer31_hz = 30
lowest EqFrequencies.equalizer63_hz = 30
lowest EqFrequencies.equalizer125_hz = 30
lowest EqFrequencies.equalizer250_hz = 30
lowest EqFrequencies.equalizer500_hz = 300
lowest EqFrequencies.equalizer1_khz = 300
lowest EqFrequencies.equalizer2_khz = 300
lowest EqFrequencies.equalizer4_khz = 2000
lowest EqFrequencies.equalizer8_khz = 2000
lowest EqFrequencies.equalizer16_khz = 2000

unfoldable pub highest : EqFrequencies → ℕ
highest EqFrequencies.equalizer31_hz = 300
highest EqFrequencies.equalizer63_hz = 300
highest EqFrequencies.equalizer125_hz = 300
highest EqFrequencies.equalizer250_hz = 300
highest EqFrequencies.equalizer500_hz = 2000
highest EqFrequencies.equalizer1_khz = 2000
highest EqFrequencies.equalizer2_khz = 2000
highest EqFrequencies.equalizer4_khz = 18000
highest EqFrequencies.equalizer8_khz = 18000
highest EqFrequencies.equalizer16_khz = 18000

unfoldable pub step : EqFrequencies → F32
step EqFrequencies.equalizer31_hz = half
step EqFrequencies.equalizer63_hz = half
step EqFrequencies.equalizer125_hz = half
step EqFrequencies.equalizer250_hz = half
step EqFrequencies.equalizer500_hz = literal 100
step EqFrequencies.equalizer1_khz = literal 100
step EqFrequencies.equalizer2_khz = literal 100
step EqFrequencies.equalizer4_khz = literal 100
step EqFrequencies.equalizer8_khz = literal 100
step EqFrequencies.equalizer16_khz = literal 100

-- the setters of Equalizer, none for an error
unfoldable pub store_gain : EqFrequencies → ℤ → Equalizer → Option Equalizer
store_gain band value eq =
    if validate_gain value
    then some (record eq { eq_gain = update eq.eq_gain band value })
    else none

unfoldable pub store_freq : EqFrequencies → F32 → Equalizer → Option Equalizer
store_freq band value eq =
    if not (contains (literal (lowest band)) (literal (highest band)) value)
    then none
    else if not (is_multiple value (step band))
    then none
    else some (record eq { eq_freq = update eq.eq_freq band value })

-- The bands whose frequencies `set_eq_freq` reads as `min` and `max`.
unfoldable pub band_below : EqFrequencies → Option EqFrequencies
band_below EqFrequencies.equalizer31_hz = none
band_below EqFrequencies.equalizer63_hz = some EqFrequencies.equalizer31_hz
band_below EqFrequencies.equalizer125_hz = some EqFrequencies.equalizer63_hz
band_below EqFrequencies.equalizer250_hz = some EqFrequencies.equalizer125_hz
band_below EqFrequencies.equalizer500_hz = some EqFrequencies.equalizer250_hz
band_below EqFrequencies.equalizer1_khz = some EqFrequencies.equalizer500_hz
band_below EqFrequencies.equalizer2_khz = some EqFrequencies.equalizer1_khz
band_below EqFrequencies.equalizer4_khz = some EqFrequencies.equalizer2_khz
band_below EqFrequencies.equalizer8_khz = some EqFrequencies.equalizer4_khz
band_below EqFrequencies.equalizer16_khz = some EqFrequencies.equalizer8_khz

unfoldable pub band_above : EqFrequencies → Option EqFrequencies
band_above EqFrequencies.equalizer31_hz = some EqFrequencies.equalizer63_hz
band_above EqFrequencies.equalizer63_hz = some EqFrequencies.equalizer125_hz
band_above EqFrequencies.equalizer125_hz = some EqFrequencies.equalizer250_hz
band_above EqFrequencies.equalizer250_hz = some EqFrequencies.equalizer500_hz
band_above EqFrequencies.equalizer500_hz = some EqFrequencies.equalizer1_khz
band_above EqFrequencies.equalizer1_khz = some EqFrequencies.equalizer2_khz
band_above EqFrequencies.equalizer2_khz = some EqFrequencies.equalizer4_khz
band_above EqFrequencies.equalizer4_khz = some EqFrequencies.equalizer8_khz
band_above EqFrequencies.equalizer8_khz = some EqFrequencies.equalizer16_khz
band_above EqFrequencies.equalizer16_khz = none

unfoldable pub gain_key : EqFrequencies → EffectKey
gain_key EqFrequencies.equalizer31_hz = EffectKey.equalizer31_hz_gain
gain_key EqFrequencies.equalizer63_hz = EffectKey.equalizer63_hz_gain
gain_key EqFrequencies.equalizer125_hz = EffectKey.equalizer125_hz_gain
gain_key EqFrequencies.equalizer250_hz = EffectKey.equalizer250_hz_gain
gain_key EqFrequencies.equalizer500_hz = EffectKey.equalizer500_hz_gain
gain_key EqFrequencies.equalizer1_khz = EffectKey.equalizer1_khz_gain
gain_key EqFrequencies.equalizer2_khz = EffectKey.equalizer2_khz_gain
gain_key EqFrequencies.equalizer4_khz = EffectKey.equalizer4_khz_gain
gain_key EqFrequencies.equalizer8_khz = EffectKey.equalizer8_khz_gain
gain_key EqFrequencies.equalizer16_khz = EffectKey.equalizer16_khz_gain

unfoldable pub freq_key : EqFrequencies → EffectKey
freq_key EqFrequencies.equalizer31_hz = EffectKey.equalizer31_hz_frequency
freq_key EqFrequencies.equalizer63_hz = EffectKey.equalizer63_hz_frequency
freq_key EqFrequencies.equalizer125_hz = EffectKey.equalizer125_hz_frequency
freq_key EqFrequencies.equalizer250_hz = EffectKey.equalizer250_hz_frequency
freq_key EqFrequencies.equalizer500_hz = EffectKey.equalizer500_hz_frequency
freq_key EqFrequencies.equalizer1_khz = EffectKey.equalizer1_khz_frequency
freq_key EqFrequencies.equalizer2_khz = EffectKey.equalizer2_khz_frequency
freq_key EqFrequencies.equalizer4_khz = EffectKey.equalizer4_khz_frequency
freq_key EqFrequencies.equalizer8_khz = EffectKey.equalizer8_khz_frequency
freq_key EqFrequencies.equalizer16_khz = EffectKey.equalizer16_khz_frequency

unfoldable pub exceeds : F32 → Option EqFrequencies → Equalizer → Bool
exceeds value none eq = false
exceeds value (some band) eq = lt (eq.eq_freq band) value

unfoldable pub falls_short : F32 → Option EqFrequencies → Equalizer → Bool
falls_short value none eq = false
falls_short value (some band) eq = lt value (eq.eq_freq band)

unfoldable pub set_eq_gain : EqFrequencies → ℤ → Equalizer → Option (EffectKey × Equalizer)
set_eq_gain band value eq = Option.map (λ e. (gain_key band, e)) (store_gain band value eq)

unfoldable pub set_eq_freq : EqFrequencies → F32 → Equalizer → Option (EffectKey × Equalizer)
set_eq_freq band value eq =
    if exceeds value (band_above band) eq || falls_short value (band_below band) eq
    then none
    else Option.map (λ e. (freq_key band, e)) (store_freq band value eq)

-- The frequencies of `Equalizer::new`.
unfoldable pub new_freq : EqFrequencies → F32
new_freq EqFrequencies.equalizer31_hz = half_past 31
new_freq EqFrequencies.equalizer63_hz = literal 63
new_freq EqFrequencies.equalizer125_hz = literal 125
new_freq EqFrequencies.equalizer250_hz = literal 250
new_freq EqFrequencies.equalizer500_hz = literal 500
new_freq EqFrequencies.equalizer1_khz = literal 1000
new_freq EqFrequencies.equalizer2_khz = literal 2000
new_freq EqFrequencies.equalizer4_khz = literal 4000
new_freq EqFrequencies.equalizer8_khz = literal 8000
new_freq EqFrequencies.equalizer16_khz = literal 16000

unfoldable pub new : Equalizer
new = record { eq_gain = λ _. ℤ.pos 0; eq_freq = new_freq }
