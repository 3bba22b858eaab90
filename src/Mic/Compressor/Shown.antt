-- ===== src/Mic/Compressor/Shown.antt =====
-- The setters of the compressor and what `compressor_ipc` shows to the clients.
use goxlr_utility.Base.{
  ◌≡◌, refl, Bool, true, Option, none, some, Bool-cases, inl, inr, List, [], ◌∷◌, if◌then◌else◌,
}
use goxlr_utility.Mic.Compressor.{
  Compressor, CompressorCommand, CompressorStatus, between, set_compressor, compressor_ipc,
  set_threshold, set_ratio, set_attack, set_release, set_makeup_gain,
}
use goxlr_utility.Mic.Compressor.Settings.{
  compressor_ratio_index, compressor_attack_time_index, compressor_release_time_index,
}
use goxlr_utility.Mic.Compressor.Indices.{
  nth-compressor_ratio, ltb-compressor_ratio, ltb-compressor_attack_time,
  ltb-compressor_release_time, nth-compressor_attack_time, nth-compressor_release_time,
}

-- The decibels of a command are in their range; a ratio and a time always are.
abbrev pub allowed : CompressorCommand → Bool
allowed (CompressorCommand.set_compressor_threshold value) = between 40 0 value
allowed (CompressorCommand.set_compressor_makeup value) = between 6 24 value
allowed (CompressorCommand.set_compressor_ratio value) = true
allowed (CompressorCommand.set_compressor_attack value) = true
allowed (CompressorCommand.set_compressor_release value) = true

-- What a command does to what the clients see.
abbrev pub shown : CompressorCommand → CompressorStatus → CompressorStatus
shown (CompressorCommand.set_compressor_threshold value) v = record v { threshold = value }
shown (CompressorCommand.set_compressor_ratio value) v = record v { ratio = value }
shown (CompressorCommand.set_compressor_attack value) v = record v { attack = value }
shown (CompressorCommand.set_compressor_release value) v = record v { release = value }
shown (CompressorCommand.set_compressor_makeup value) v = record v { makeup_gain = value }

-- A compressor is shown as a status.
pub record Shows (c : Compressor) (v : CompressorStatus) : Type 0 where
  pub threshold : c.threshold ≡ v.threshold
  pub ratio : c.ratio ≡ compressor_ratio_index v.ratio
  pub attack : c.attack ≡ compressor_attack_time_index v.attack
  pub release : c.release ≡ compressor_release_time_index v.release
  pub makeup_gain : c.makeup_gain ≡ v.makeup_gain

compressor_ipc-Shows :
    (c : Compressor) (v : CompressorStatus) → Shows c v → compressor_ipc c ≡ some v
unfolding compressor_ipc
compressor_ipc-Shows c v s =
    rw
      (
        s.threshold,
        s.ratio,
        s.attack,
        s.release,
        s.makeup_gain,
        nth-compressor_ratio v.ratio,
        nth-compressor_attack_time v.attack,
        nth-compressor_release_time v.release,
      )
      refl

-- Setters called one after another: the one that is refused changes nothing.
abbrev kept : Compressor → Option Compressor → Compressor
kept c none = c
kept c (some d) = d

unfoldable pub run : List CompressorCommand → Compressor → Compressor
run [] c = c
run (x ∷ xs) c = run xs (kept c (set_compressor x c))

unfoldable pub run_shown : List CompressorCommand → CompressorStatus → CompressorStatus
run_shown [] v = v
run_shown (x ∷ xs) v = run_shown xs (if allowed x then shown x v else v)

set_compressor-Shows :
    (x : CompressorCommand) (c : Compressor) (v : CompressorStatus)
    → Shows c v
    → Shows (kept c (set_compressor x c)) (if allowed x then shown x v else v)
unfolding set_compressor set_threshold set_ratio set_attack set_release set_makeup_gain
set_compressor-Shows (CompressorCommand.set_compressor_threshold value) c v s =
    elim (Bool-cases (between 40 0 value)) [
      | inl e ↦ rw e (record {
        threshold = refl;
        ratio = s.ratio;
        attack = s.attack;
        release = s.release;
        makeup_gain = s.makeup_gain;
      })
      | inr e ↦ rw e s
    ]
set_compressor-Shows (CompressorCommand.set_compressor_makeup value) c v s =
    elim (Bool-cases (between 6 24 value)) [
      | inl e ↦ rw e (record {
        threshold = s.threshold;
        ratio = s.ratio;
        attack = s.attack;
        release = s.release;
        makeup_gain = refl;
      })
      | inr e ↦ rw e s
    ]
set_compressor-Shows (CompressorCommand.set_compressor_ratio value) c v s =
    rw (ltb-compressor_ratio value) (record {
      threshold = s.threshold;
      ratio = refl;
      attack = s.attack;
      release = s.release;
      makeup_gain = s.makeup_gain;
    })
set_compressor-Shows (CompressorCommand.set_compressor_attack value) c v s =
    rw (ltb-compressor_attack_time value) (record {
      threshold = s.threshold;
      ratio = s.ratio;
      attack = refl;
      release = s.release;
      makeup_gain = s.makeup_gain;
    })
set_compressor-Shows (CompressorCommand.set_compressor_release value) c v s =
    rw (ltb-compressor_release_time value) (record {
      threshold = s.threshold;
      ratio = s.ratio;
      attack = s.attack;
      release = refl;
      makeup_gain = s.makeup_gain;
    })

-- On a compressor that is shown as a status, after any calls of the setters the clients are shown
-- that status with the accepted values: an allowed value is stored and read back, another one is
-- refused and changes nothing, and no `unwrap` of `compressor_ipc` panics.
pub compressor_ipc-run :
    (xs : List CompressorCommand) (c : Compressor) (v : CompressorStatus)
    → Shows c v
    → compressor_ipc (run xs c) ≡ some (run_shown xs v)
unfolding run run_shown
compressor_ipc-run [] c v s = compressor_ipc-Shows c v s
compressor_ipc-run (x ∷ xs) c v s =
    compressor_ipc-run xs (kept c (set_compressor x c)) (if allowed x then shown x v else v)
      (set_compressor-Shows x c v s)
