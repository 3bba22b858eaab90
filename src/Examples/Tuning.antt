-- ===== src/Examples/Tuning.antt =====
-- The theorems on the microphone applied to the equalisers and the compressor of a new profile.
use mathlib.Core.Option
use mathlib.Core.Path.{subst}
use goxlr_utility.Base.{
  ◌≡◌, refl, ◌⊎◌, Bool, true, Option, none, some, List, [], ◌∷◌, update, arith,
}
use goxlr_utility.Base.Float.{F32, literal, half_past, half, half_units, le, is_multiple}
use goxlr_utility.Types.{EffectKey, MicrophoneParamKey}
use goxlr_utility.Mic.Equalizer
use goxlr_utility.Mic.Equalizer.{EqFrequencies, band_above, new_freq, set_eq_freq}
use goxlr_utility.Mic.Equalizer.Order.{IsTuned, IsAccepted, retune}
use goxlr_utility.Mic.Equalizer.Setting.{set_eq_freq-IsTuned}
use goxlr_utility.Base.Int.{pos, negsuc}
use goxlr_utility.Mic.Compressor
use goxlr_utility.Mic.Compressor.{CompressorCommand, CompressorStatus, compressor_ipc}
use goxlr_utility.Mic.Compressor.Settings.{
  CompressorRatio, CompressorAttackTime, CompressorReleaseTime, compressor_ratio_index,
  compressor_attack_time_index, compressor_release_time_index,
}
use goxlr_utility.Mic.Compressor.Shown.{Shows, run, run_shown, compressor_ipc-run}
use goxlr_utility.Mic.MiniEqualizer
use goxlr_utility.Mic.MiniEqualizer.{
  MiniEqFrequencies, mini_eq_frequencies_enumeration, mini_eq_frequencies_index, EqualizerMini,
  store_freq, set_mini_eq_freq,
}
use goxlr_utility.Mic.MiniEqualizer.Disjoint.{
  IsInRange, set_mini_eq_freq-store_freq, set_mini_eq_freq-ascending,
}

new-IsAccepted : (band : EqFrequencies) → IsAccepted band (Equalizer.new.eq_freq band)
unfolding Equalizer.new new_freq Equalizer.lowest Equalizer.highest Equalizer.step is_multiple
    literal half_past half half_units
new-IsAccepted EqFrequencies.equalizer31_hz = (refl, refl)
new-IsAccepted _ = (refl, refl)

at_most : F32 → Option EqFrequencies → Bool
at_most value none = true
at_most value (some above) = le value (new_freq above)

new-ascending : (band : EqFrequencies) → at_most (new_freq band) (band_above band) ≡ true
unfolding at_most new_freq band_above literal half_past half_units
new-ascending EqFrequencies.equalizer31_hz = refl
new-ascending _ = refl

new-IsTuned : IsTuned Equalizer.new
unfolding IsTuned Equalizer.new at_most
new-IsTuned = (
  new-IsAccepted,
  λ band above h. subst (λ o. at_most (new_freq band) o ≡ true) h (new-ascending band),
)

-- 60 Hz for the band of 63 Hz.
set_eq_freq-IsTuned_example :
    ((set_eq_freq EqFrequencies.equalizer63_hz (literal 60) Equalizer.new
        ≡ some (
          EffectKey.equalizer63_hz_frequency,
          retune EqFrequencies.equalizer63_hz (literal 60) Equalizer.new,
        ))
      × IsTuned (retune EqFrequencies.equalizer63_hz (literal 60) Equalizer.new))
    ⊎ ((set_eq_freq EqFrequencies.equalizer63_hz (literal 60) Equalizer.new ≡ none)
        × ¬ IsTuned (retune EqFrequencies.equalizer63_hz (literal 60) Equalizer.new))
unfolding Equalizer.freq_key
set_eq_freq-IsTuned_example =
    set_eq_freq-IsTuned EqFrequencies.equalizer63_hz (literal 60) Equalizer.new new-IsTuned

new-IsInRange : IsInRange MiniEqualizer.new
unfolding MiniEqualizer.new MiniEqualizer.new_freq MiniEqualizer.lowest MiniEqualizer.highest
    literal half_units
new-IsInRange MiniEqFrequencies.equalizer90_hz = refl
new-IsInRange _ = refl

set_mini_eq_freq-store_freq_example :
    set_mini_eq_freq MiniEqFrequencies.equalizer8_khz (literal 5100) MiniEqualizer.new
    ≡ Option.map
        (λ e. (MicrophoneParamKey.equalizer8_khz_frequency, e))
        (store_freq MiniEqFrequencies.equalizer8_khz (literal 5100) MiniEqualizer.new)
unfolding MiniEqualizer.freq_key
set_mini_eq_freq-store_freq_example =
    set_mini_eq_freq-store_freq MiniEqFrequencies.equalizer8_khz (literal 5100) MiniEqualizer.new
      new-IsInRange

-- the lowest frequency of the band of 8 kHz
lowered : EqualizerMini
unfolding MiniEqualizer.new
lowered = record MiniEqualizer.new {
  eq_freq = update MiniEqualizer.new.eq_freq MiniEqFrequencies.equalizer8_khz (literal 5100);
}

lowered-set :
    set_mini_eq_freq MiniEqFrequencies.equalizer8_khz (literal 5100) MiniEqualizer.new
    ≡ some (MicrophoneParamKey.equalizer8_khz_frequency, lowered)
unfolding lowered set_mini_eq_freq MiniEqualizer.exceeds MiniEqualizer.falls_short
    MiniEqualizer.band_min MiniEqualizer.band_max MiniEqualizer.new MiniEqualizer.new_freq
    MiniEqualizer.lowest MiniEqualizer.highest MiniEqualizer.freq_key store_freq literal half_units
lowered-set = refl

set_mini_eq_freq-ascending_example :
    IsInRange lowered
    × (le
          (lowered.eq_freq MiniEqFrequencies.equalizer3_khz)
          (lowered.eq_freq MiniEqFrequencies.equalizer8_khz)
        ≡ true)
unfolding mini_eq_frequencies_index
set_mini_eq_freq-ascending_example =
    set_mini_eq_freq-ascending MiniEqFrequencies.equalizer8_khz (literal 5100) MiniEqualizer.new
      MiniEqFrequencies.equalizer3_khz MiniEqFrequencies.equalizer8_khz new-IsInRange lowered-set
      (omega arith)

abbrev new_status : CompressorStatus
new_status = record {
  threshold = pos 0;
  ratio = CompressorRatio.ratio4_0;
  attack = CompressorAttackTime.comp2_ms;
  release = CompressorReleaseTime.comp100_ms;
  makeup_gain = pos 0;
}

new-Shows : Shows Compressor.new new_status
unfolding Compressor.new compressor_ratio_index compressor_attack_time_index
    compressor_release_time_index
new-Shows = record {
  threshold = refl;
  ratio = refl;
  attack = refl;
  release = refl;
  makeup_gain = refl;
}

-- The threshold of -50 is refused.
abbrev commands : List CompressorCommand
commands =
    CompressorCommand.set_compressor_threshold (negsuc 49)
    ∷ CompressorCommand.set_compressor_ratio CompressorRatio.ratio64_0
    ∷ CompressorCommand.set_compressor_makeup (pos 24)
    ∷ []

compressor_ipc-run_example :
    compressor_ipc (run commands Compressor.new) ≡ some (run_shown commands new_status)
compressor_ipc-run_example = compressor_ipc-run commands Compressor.new new_status new-Shows

run_shown-commands :
    run_shown commands new_status
    ≡ record new_status { ratio = CompressorRatio.ratio64_0; makeup_gain = pos 24 }
unfolding run_shown
run_shown-commands = refl
