-- ===== src/Mic/Compressor/Indices.antt =====
-- The settings of the compressor by their numbers: `EnumIter` finds a setting again at its discriminant.
use goxlr_utility.Base.{◌≡◌, refl, false, ltb, some, get_elem?}
use goxlr_utility.Mic.Compressor.Settings.{
  CompressorRatio, compressor_ratio_index, compressor_ratio_variants, CompressorAttackTime,
  compressor_attack_time_index, compressor_attack_time_variants, CompressorReleaseTime,
  compressor_release_time_index, compressor_release_time_variants,
}

pub nth-compressor_ratio :
    (x : CompressorRatio) → get_elem? compressor_ratio_variants (compressor_ratio_index x) ≡ some x
unfolding compressor_ratio_index
nth-compressor_ratio CompressorRatio.ratio1_0 = refl
nth-compressor_ratio CompressorRatio.ratio1_1 = refl
nth-compressor_ratio CompressorRatio.ratio1_2 = refl
nth-compressor_ratio CompressorRatio.ratio1_4 = refl
nth-compressor_ratio CompressorRatio.ratio1_6 = refl
nth-compressor_ratio CompressorRatio.ratio1_8 = refl
nth-compressor_ratio CompressorRatio.ratio2_0 = refl
nth-compressor_ratio CompressorRatio.ratio2_5 = refl
nth-compressor_ratio CompressorRatio.ratio3_2 = refl
nth-compressor_ratio CompressorRatio.ratio4_0 = refl
nth-compressor_ratio CompressorRatio.ratio5_6 = refl
nth-compressor_ratio CompressorRatio.ratio8_0 = refl
nth-compressor_ratio CompressorRatio.ratio16_0 = refl
nth-compressor_ratio CompressorRatio.ratio32_0 = refl
nth-compressor_ratio CompressorRatio.ratio64_0 = refl

pub ltb-compressor_ratio : (x : CompressorRatio) → ltb 14 (compressor_ratio_index x) ≡ false
unfolding compressor_ratio_index
ltb-compressor_ratio CompressorRatio.ratio1_0 = refl
ltb-compressor_ratio CompressorRatio.ratio1_1 = refl
ltb-compressor_ratio CompressorRatio.ratio1_2 = refl
ltb-compressor_ratio CompressorRatio.ratio1_4 = refl
ltb-compressor_ratio CompressorRatio.ratio1_6 = refl
ltb-compressor_ratio CompressorRatio.ratio1_8 = refl
ltb-compressor_ratio CompressorRatio.ratio2_0 = refl
ltb-compressor_ratio CompressorRatio.ratio2_5 = refl
ltb-compressor_ratio CompressorRatio.ratio3_2 = refl
ltb-compressor_ratio CompressorRatio.ratio4_0 = refl
ltb-compressor_ratio CompressorRatio.ratio5_6 = refl
ltb-compressor_ratio CompressorRatio.ratio8_0 = refl
ltb-compressor_ratio CompressorRatio.ratio16_0 = refl
ltb-compressor_ratio CompressorRatio.ratio32_0 = refl
ltb-compressor_ratio CompressorRatio.ratio64_0 = refl

pub nth-compressor_attack_time :
    (x : CompressorAttackTime)
    → get_elem? compressor_attack_time_variants (compressor_attack_time_index x) ≡ some x
unfolding compressor_attack_time_index
nth-compressor_attack_time CompressorAttackTime.comp0_ms = refl
nth-compressor_attack_time CompressorAttackTime.comp2_ms = refl
nth-compressor_attack_time CompressorAttackTime.comp3_ms = refl
nth-compressor_attack_time CompressorAttackTime.comp4_ms = refl
nth-compressor_attack_time CompressorAttackTime.comp5_ms = refl
nth-compressor_attack_time CompressorAttackTime.comp6_ms = refl
nth-compressor_attack_time CompressorAttackTime.comp7_ms = refl
nth-compressor_attack_time CompressorAttackTime.comp8_ms = refl
nth-compressor_attack_time CompressorAttackTime.comp9_ms = refl
nth-compressor_attack_time CompressorAttackTime.comp10_ms = refl
nth-compressor_attack_time CompressorAttackTime.comp12_ms = refl
nth-compressor_attack_time CompressorAttackTime.comp14_ms = refl
nth-compressor_attack_time CompressorAttackTime.comp16_ms = refl
nth-compressor_attack_time CompressorAttackTime.comp18_ms = refl
nth-compressor_attack_time CompressorAttackTime.comp20_ms = refl
nth-compressor_attack_time CompressorAttackTime.comp23_ms = refl
nth-compressor_attack_time CompressorAttackTime.comp26_ms = refl
nth-compressor_attack_time CompressorAttackTime.comp30_ms = refl
nth-compressor_attack_time CompressorAttackTime.comp35_ms = refl
nth-compressor_attack_time CompressorAttackTime.comp40_ms = refl

pub ltb-compressor_attack_time :
    (x : CompressorAttackTime) → ltb 19 (compressor_attack_time_index x) ≡ false
unfolding compressor_attack_time_index
ltb-compressor_attack_time CompressorAttackTime.comp0_ms = refl
ltb-compressor_attack_time CompressorAttackTime.comp2_ms = refl
ltb-compressor_attack_time CompressorAttackTime.comp3_ms = refl
ltb-compressor_attack_time CompressorAttackTime.comp4_ms = refl
ltb-compressor_attack_time CompressorAttackTime.comp5_ms = refl
ltb-compressor_attack_time CompressorAttackTime.comp6_ms = refl
ltb-compressor_attack_time CompressorAttackTime.comp7_ms = refl
ltb-compressor_attack_time CompressorAttackTime.comp8_ms = refl
ltb-compressor_attack_time CompressorAttackTime.comp9_ms = refl
ltb-compressor_attack_time CompressorAttackTime.comp10_ms = refl
ltb-compressor_attack_time CompressorAttackTime.comp12_ms = refl
ltb-compressor_attack_time CompressorAttackTime.comp14_ms = refl
ltb-compressor_attack_time CompressorAttackTime.comp16_ms = refl
ltb-compressor_attack_time CompressorAttackTime.comp18_ms = refl
ltb-compressor_attack_time CompressorAttackTime.comp20_ms = refl
ltb-compressor_attack_time CompressorAttackTime.comp23_ms = refl
ltb-compressor_attack_time CompressorAttackTime.comp26_ms = refl
ltb-compressor_attack_time CompressorAttackTime.comp30_ms = refl
ltb-compressor_attack_time CompressorAttackTime.comp35_ms = refl
ltb-compressor_attack_time CompressorAttackTime.comp40_ms = refl

pub nth-compressor_release_time :
    (x : CompressorReleaseTime)
    → get_elem? compressor_release_time_variants (compressor_release_time_index x) ≡ some x
unfolding compressor_release_time_index
nth-compressor_release_time CompressorReleaseTime.comp0_ms = refl
nth-compressor_release_time CompressorReleaseTime.comp15_ms = refl
nth-compressor_release_time CompressorReleaseTime.comp25_ms = refl
nth-compressor_release_time CompressorReleaseTime.comp35_ms = refl
nth-compressor_release_time CompressorReleaseTime.comp45_ms = refl
nth-compressor_release_time CompressorReleaseTime.comp55_ms = refl
nth-compressor_release_time CompressorReleaseTime.comp65_ms = refl
nth-compressor_release_time CompressorReleaseTime.comp75_ms = refl
nth-compressor_release_time CompressorReleaseTime.comp85_ms = refl
nth-compressor_release_time CompressorReleaseTime.comp100_ms = refl
nth-compressor_release_time CompressorReleaseTime.comp115_ms = refl
nth-compressor_release_time CompressorReleaseTime.comp140_ms = refl
nth-compressor_release_time CompressorReleaseTime.comp170_ms = refl
nth-compressor_release_time CompressorReleaseTime.comp230_ms = refl
nth-compressor_release_time CompressorReleaseTime.comp340_ms = refl
nth-compressor_release_time CompressorReleaseTime.comp680_ms = refl
nth-compressor_release_time CompressorReleaseTime.comp1000_ms = refl
nth-compressor_release_time CompressorReleaseTime.comp1500_ms = refl
nth-compressor_release_time CompressorReleaseTime.comp2000_ms = refl
nth-compressor_release_time CompressorReleaseTime.comp3000_ms = refl

pub ltb-compressor_release_time :
    (x : CompressorReleaseTime) → ltb 19 (compressor_release_time_index x) ≡ false
unfolding compressor_release_time_index
ltb-compressor_release_time CompressorReleaseTime.comp0_ms = refl
ltb-compressor_release_time CompressorReleaseTime.comp15_ms = refl
ltb-compressor_release_time CompressorReleaseTime.comp25_ms = refl
ltb-compressor_release_time CompressorReleaseTime.comp35_ms = refl
ltb-compressor_release_time CompressorReleaseTime.comp45_ms = refl
ltb-compressor_release_time CompressorReleaseTime.comp55_ms = refl
ltb-compressor_release_time CompressorReleaseTime.comp65_ms = refl
ltb-compressor_release_time CompressorReleaseTime.comp75_ms = refl
ltb-compressor_release_time CompressorReleaseTime.comp85_ms = refl
ltb-compressor_release_time CompressorReleaseTime.comp100_ms = refl
ltb-compressor_release_time CompressorReleaseTime.comp115_ms = refl
ltb-compressor_release_time CompressorReleaseTime.comp140_ms = refl
ltb-compressor_release_time CompressorReleaseTime.comp170_ms = refl
ltb-compressor_release_time CompressorReleaseTime.comp230_ms = refl
ltb-compressor_release_time CompressorReleaseTime.comp340_ms = refl
ltb-compressor_release_time CompressorReleaseTime.comp680_ms = refl
ltb-compressor_release_time CompressorReleaseTime.comp1000_ms = refl
ltb-compressor_release_time CompressorReleaseTime.comp1500_ms = refl
ltb-compressor_release_time CompressorReleaseTime.comp2000_ms = refl
ltb-compressor_release_time CompressorReleaseTime.comp3000_ms = refl
