-- ===== src/Mic/Compressor.antt =====
-- The compressor: profile/src/microphone/compressor.rs and the functions on it of
-- daemon/src/mic_profile.rs. An error is `none`, and so is the panic of an `unwrap`.
pub mod Settings
pub mod Indices
pub mod Shown
use mathlib.Core.Option
use goxlr_utility.Usb.Wire.Replies.{◌>>=◌}
use goxlr_utility.Base.{
  ℕ, suc, Bool, true, false, Option, none, some, leb, ltb, get_elem?, if◌then◌else◌,
}
use goxlr_utility.Base.Int.{ℤ, pos, negsuc}
use goxlr_utility.Mic.Compressor.Settings.{
  CompressorRatio, CompressorAttackTime, CompressorReleaseTime, compressor_ratio_index,
  compressor_attack_time_index, compressor_release_time_index, compressor_ratio_variants,
  compressor_attack_time_variants, compressor_release_time_variants,
}

pub record Compressor : Type 0 where
  pub threshold : ℤ
  pub ratio : ℕ
  pub attack : ℕ
  pub release : ℕ
  pub makeup_gain : ℤ

unfoldable pub new : Compressor
new = record { threshold = pos 0; ratio = 9; attack = 1; release = 9; makeup_gain = pos 0 }

-- `(-low..=high).contains(&z)`
abbrev pub between : ℕ → ℕ → ℤ → Bool
between low high (pos n) = leb n high
between low high (negsuc n) = leb (suc n) low

unfoldable pub set_threshold : ℤ → Compressor → Option Compressor
set_threshold threshold c =
    if between 40 0 threshold then some (record c { threshold = threshold }) else none

unfoldable pub set_ratio : ℕ → Compressor → Option Compressor
set_ratio ratio c = if ltb 14 ratio then none else some (record c { ratio = ratio })

unfoldable pub set_attack : ℕ → Compressor → Option Compressor
set_attack attack c = if ltb 19 attack then none else some (record c { attack = attack })

unfoldable pub set_release : ℕ → Compressor → Option Compressor
set_release release c = if ltb 19 release then none else some (record c { release = release })

unfoldable pub set_makeup_gain : ℤ → Compressor → Option Compressor
set_makeup_gain makeup_gain c =
    if between 6 24 makeup_gain then some (record c { makeup_gain = makeup_gain }) else none

-- The setters of the microphone's profile.
pub data CompressorCommand : Type 0 where
  set_compressor_threshold : ℤ → CompressorCommand
  set_compressor_ratio : CompressorRatio → CompressorCommand
  set_compressor_attack : CompressorAttackTime → CompressorCommand
  set_compressor_release : CompressorReleaseTime → CompressorCommand
  set_compressor_makeup : ℤ → CompressorCommand

unfoldable pub set_compressor : CompressorCommand → Compressor → Option Compressor
set_compressor (set_compressor_threshold value) c = set_threshold value c
set_compressor (set_compressor_ratio value) c = set_ratio (compressor_ratio_index value) c
set_compressor (set_compressor_attack value) c = set_attack (compressor_attack_time_index value) c
set_compressor (set_compressor_release value) c =
    set_release (compressor_release_time_index value) c
set_compressor (set_compressor_makeup value) c = set_makeup_gain value c

-- The `Compressor` of ipc/src/device.rs.
pub record CompressorStatus : Type 0 where
  pub threshold : ℤ
  pub ratio : CompressorRatio
  pub attack : CompressorAttackTime
  pub release : CompressorReleaseTime
  pub makeup_gain : ℤ

unfoldable pub compressor_ipc : Compressor → Option CompressorStatus
compressor_ipc c = do
  ratio ← get_elem? compressor_ratio_variants c.ratio
  attack ← get_elem? compressor_attack_time_variants c.attack
  release ← get_elem? compressor_release_time_variants c.release
  some (record {
    threshold = c.threshold;
    ratio = ratio;
    attack = attack;
    release = release;
    makeup_gain = c.makeup_gain;
  })
