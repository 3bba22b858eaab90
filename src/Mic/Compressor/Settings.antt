-- ===== src/Mic/Compressor/Settings.antt =====
-- The compressor's settings as the clients name them: types/src/lib.rs.
use goxlr_utility.Base.{ℕ, List, [], ◌∷◌, Enumeration}

pub data CompressorRatio : Type 0 where
  ratio1_0 ratio1_1 ratio1_2 ratio1_4 ratio1_6 ratio1_8 : CompressorRatio
  ratio2_0 ratio2_5 ratio3_2 ratio4_0 ratio5_6 ratio8_0 : CompressorRatio
  ratio16_0 ratio32_0 ratio64_0 : CompressorRatio

unfoldable pub CompressorRatio-discrete : Discrete CompressorRatio
CompressorRatio-discrete = hlevel

unfoldable pub compressor_ratio_index : CompressorRatio → ℕ
compressor_ratio_index CompressorRatio.ratio1_0 = 0
compressor_ratio_index CompressorRatio.ratio1_1 = 1
compressor_ratio_index CompressorRatio.ratio1_2 = 2
compressor_ratio_index CompressorRatio.ratio1_4 = 3
compressor_ratio_index CompressorRatio.ratio1_6 = 4
compressor_ratio_index CompressorRatio.ratio1_8 = 5
compressor_ratio_index CompressorRatio.ratio2_0 = 6
compressor_ratio_index CompressorRatio.ratio2_5 = 7
compressor_ratio_index CompressorRatio.ratio3_2 = 8
compressor_ratio_index CompressorRatio.ratio4_0 = 9
compressor_ratio_index CompressorRatio.ratio5_6 = 10
compressor_ratio_index CompressorRatio.ratio8_0 = 11
compressor_ratio_index CompressorRatio.ratio16_0 = 12
compressor_ratio_index CompressorRatio.ratio32_0 = 13
compressor_ratio_index CompressorRatio.ratio64_0 = 14

abbrev pub compressor_ratio_variants : List CompressorRatio
compressor_ratio_variants =
    CompressorRatio.ratio1_0 ∷ CompressorRatio.ratio1_1 ∷ CompressorRatio.ratio1_2
    ∷ CompressorRatio.ratio1_4 ∷ CompressorRatio.ratio1_6 ∷ CompressorRatio.ratio1_8
    ∷ CompressorRatio.ratio2_0 ∷ CompressorRatio.ratio2_5 ∷ CompressorRatio.ratio3_2
    ∷ CompressorRatio.ratio4_0 ∷ CompressorRatio.ratio5_6 ∷ CompressorRatio.ratio8_0
    ∷ CompressorRatio.ratio16_0 ∷ CompressorRatio.ratio32_0 ∷ CompressorRatio.ratio64_0 ∷ []

instance abbrev pub compressor_ratio_enumeration : Enumeration CompressorRatio
compressor_ratio_enumeration = record {
  discriminant = compressor_ratio_index;
  variants = compressor_ratio_variants;
  discrete = CompressorRatio-discrete;
}

pub data CompressorAttackTime : Type 0 where
  comp0_ms comp2_ms comp3_ms comp4_ms comp5_ms comp6_ms : CompressorAttackTime
  comp7_ms comp8_ms comp9_ms comp10_ms comp12_ms comp14_ms : CompressorAttackTime
  comp16_ms comp18_ms comp20_ms comp23_ms comp26_ms comp30_ms : CompressorAttackTime
  comp35_ms comp40_ms : CompressorAttackTime

unfoldable pub CompressorAttackTime-discrete : Discrete CompressorAttackTime
CompressorAttackTime-discrete = hlevel

unfoldable pub compressor_attack_time_index : CompressorAttackTime → ℕ
compressor_attack_time_index CompressorAttackTime.comp0_ms = 0
compressor_attack_time_index CompressorAttackTime.comp2_ms = 1
compressor_attack_time_index CompressorAttackTime.comp3_ms = 2
compressor_attack_time_index CompressorAttackTime.comp4_ms = 3
compressor_attack_time_index CompressorAttackTime.comp5_ms = 4
compressor_attack_time_index CompressorAttackTime.comp6_ms = 5
compressor_attack_time_index CompressorAttackTime.comp7_ms = 6
compressor_attack_time_index CompressorAttackTime.comp8_ms = 7
compressor_attack_time_index CompressorAttackTime.comp9_ms = 8
compressor_attack_time_index CompressorAttackTime.comp10_ms = 9
compressor_attack_time_index CompressorAttackTime.comp12_ms = 10
compressor_attack_time_index CompressorAttackTime.comp14_ms = 11
compressor_attack_time_index CompressorAttackTime.comp16_ms = 12
compressor_attack_time_index CompressorAttackTime.comp18_ms = 13
compressor_attack_time_index CompressorAttackTime.comp20_ms = 14
compressor_attack_time_index CompressorAttackTime.comp23_ms = 15
compressor_attack_time_index CompressorAttackTime.comp26_ms = 16
compressor_attack_time_index CompressorAttackTime.comp30_ms = 17
compressor_attack_time_index CompressorAttackTime.comp35_ms = 18
compressor_attack_time_index CompressorAttackTime.comp40_ms = 19

abbrev pub compressor_attack_time_variants : List CompressorAttackTime
compressor_attack_time_variants =
    CompressorAttackTime.comp0_ms ∷ CompressorAttackTime.comp2_ms ∷ CompressorAttackTime.comp3_ms
    ∷ CompressorAttackTime.comp4_ms ∷ CompressorAttackTime.comp5_ms ∷ CompressorAttackTime.comp6_ms
    ∷ CompressorAttackTime.comp7_ms ∷ CompressorAttackTime.comp8_ms ∷ CompressorAttackTime.comp9_ms
    ∷ CompressorAttackTime.comp10_ms ∷ CompressorAttackTime.comp12_ms
    ∷ CompressorAttackTime.comp14_ms ∷ CompressorAttackTime.comp16_ms
    ∷ CompressorAttackTime.comp18_ms ∷ CompressorAttackTime.comp20_ms
    ∷ CompressorAttackTime.comp23_ms ∷ CompressorAttackTime.comp26_ms
    ∷ CompressorAttackTime.comp30_ms ∷ CompressorAttackTime.comp35_ms
    ∷ CompressorAttackTime.comp40_ms ∷ []

instance abbrev pub compressor_attack_time_enumeration : Enumeration CompressorAttackTime
compressor_attack_time_enumeration = record {
  discriminant = compressor_attack_time_index;
  variants = compressor_attack_time_variants;
  discrete = CompressorAttackTime-discrete;
}

pub data CompressorReleaseTime : Type 0 where
  comp0_ms comp15_ms comp25_ms comp35_ms comp45_ms comp55_ms : CompressorReleaseTime
  comp65_ms comp75_ms comp85_ms comp100_ms comp115_ms comp140_ms : CompressorReleaseTime
  comp170_ms comp230_ms comp340_ms comp680_ms comp1000_ms comp1500_ms : CompressorReleaseTime
  comp2000_ms comp3000_ms : CompressorReleaseTime

unfoldable pub CompressorReleaseTime-discrete : Discrete CompressorReleaseTime
CompressorReleaseTime-discrete = hlevel

unfoldable pub compressor_release_time_index : CompressorReleaseTime → ℕ
compressor_release_time_index CompressorReleaseTime.comp0_ms = 0
compressor_release_time_index CompressorReleaseTime.comp15_ms = 1
compressor_release_time_index CompressorReleaseTime.comp25_ms = 2
compressor_release_time_index CompressorReleaseTime.comp35_ms = 3
compressor_release_time_index CompressorReleaseTime.comp45_ms = 4
compressor_release_time_index CompressorReleaseTime.comp55_ms = 5
compressor_release_time_index CompressorReleaseTime.comp65_ms = 6
compressor_release_time_index CompressorReleaseTime.comp75_ms = 7
compressor_release_time_index CompressorReleaseTime.comp85_ms = 8
compressor_release_time_index CompressorReleaseTime.comp100_ms = 9
compressor_release_time_index CompressorReleaseTime.comp115_ms = 10
compressor_release_time_index CompressorReleaseTime.comp140_ms = 11
compressor_release_time_index CompressorReleaseTime.comp170_ms = 12
compressor_release_time_index CompressorReleaseTime.comp230_ms = 13
compressor_release_time_index CompressorReleaseTime.comp340_ms = 14
compressor_release_time_index CompressorReleaseTime.comp680_ms = 15
compressor_release_time_index CompressorReleaseTime.comp1000_ms = 16
compressor_release_time_index CompressorReleaseTime.comp1500_ms = 17
compressor_release_time_index CompressorReleaseTime.comp2000_ms = 18
compressor_release_time_index CompressorReleaseTime.comp3000_ms = 19

abbrev pub compressor_release_time_variants : List CompressorReleaseTime
compressor_release_time_variants =
    CompressorReleaseTime.comp0_ms ∷ CompressorReleaseTime.comp15_ms
    ∷ CompressorReleaseTime.comp25_ms ∷ CompressorReleaseTime.comp35_ms
    ∷ CompressorReleaseTime.comp45_ms ∷ CompressorReleaseTime.comp55_ms
    ∷ CompressorReleaseTime.comp65_ms ∷ CompressorReleaseTime.comp75_ms
    ∷ CompressorReleaseTime.comp85_ms ∷ CompressorReleaseTime.comp100_ms
    ∷ CompressorReleaseTime.comp115_ms ∷ CompressorReleaseTime.comp140_ms
    ∷ CompressorReleaseTime.comp170_ms ∷ CompressorReleaseTime.comp230_ms
    ∷ CompressorReleaseTime.comp340_ms ∷ CompressorReleaseTime.comp680_ms
    ∷ CompressorReleaseTime.comp1000_ms ∷ CompressorReleaseTime.comp1500_ms
    ∷ CompressorReleaseTime.comp2000_ms ∷ CompressorReleaseTime.comp3000_ms ∷ []

instance abbrev pub compressor_release_time_enumeration : Enumeration CompressorReleaseTime
compressor_release_time_enumeration = record {
  discriminant = compressor_release_time_index;
  variants = compressor_release_time_variants;
  discrete = CompressorReleaseTime-discrete;
}
