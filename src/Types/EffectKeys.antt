-- ===== src/Types/EffectKeys.antt =====
-- The keys of the effect parameters, of types/src/lib.rs.
use goxlr_utility.Base.{
  ltb, true, ◌<◌, ◌^◌, arith, ℕ, ◌≡◌, refl, some, List, [], ◌∷◌, Enumeration, index, find_index,
  find_index-injective,
}

-- EffectKey, types/src/lib.rs:130-239
pub data EffectKey : Type 0 where
  mic_input_mute bleep_level gate_mode gate_threshold gate_enabled : EffectKey
  gate_attenuation gate_attack gate_release mic_comp_select : EffectKey
  equalizer31_hz_frequency equalizer31_hz_gain equalizer63_hz_frequency : EffectKey
  equalizer63_hz_gain equalizer125_hz_frequency equalizer125_hz_gain : EffectKey
  equalizer250_hz_frequency equalizer250_hz_gain equalizer500_hz_frequency : EffectKey
  equalizer500_hz_gain equalizer1_khz_frequency equalizer1_khz_gain : EffectKey
  equalizer2_khz_frequency equalizer2_khz_gain equalizer4_khz_frequency : EffectKey
  equalizer4_khz_gain equalizer8_khz_frequency equalizer8_khz_gain : EffectKey
  equalizer16_khz_frequency equalizer16_khz_gain compressor_threshold : EffectKey
  compressor_ratio compressor_attack compressor_release : EffectKey
  compressor_make_up_gain de_esser reverb_amount reverb_decay : EffectKey
  reverb_early_level reverb_tail_level reverb_predelay reverb_low_color : EffectKey
  reverb_high_color reverb_high_factor reverb_diffuse reverb_mod_speed : EffectKey
  reverb_mod_depth reverb_type echo_amount echo_feedback echo_tempo : EffectKey
  echo_delay_l echo_delay_r echo_feedback_l echo_feedback_r echo_xfblto_r : EffectKey
  echo_xfbrto_l echo_source echo_div_l echo_div_r echo_filter_style : EffectKey
  pitch_amount pitch_character pitch_threshold gender_amount : EffectKey
  megaphone_amount megaphone_post_gain megaphone_style megaphone_hp : EffectKey
  megaphone_lp megaphone_pre_gain megaphone_dist_type : EffectKey
  megaphone_presence_gain megaphone_presence_fc megaphone_presence_bw : EffectKey
  megaphone_beatbox_enable megaphone_filter_control megaphone_filter : EffectKey
  megaphone_drive_pot_gain_comp_mid megaphone_drive_pot_gain_comp_max : EffectKey
  robot_low_gain robot_low_freq robot_low_width robot_mid_gain : EffectKey
  robot_mid_freq robot_mid_width robot_hi_gain robot_hi_freq robot_hi_width : EffectKey
  robot_waveform robot_pulse_width robot_threshold robot_dry_mix : EffectKey
  robot_style hard_tune_key_source hard_tune_amount hard_tune_rate : EffectKey
  hard_tune_window hard_tune_scale hard_tune_pitch_amount robot_enabled : EffectKey
  megaphone_enabled hard_tune_enabled encoder1_enabled encoder2_enabled : EffectKey
  encoder3_enabled encoder4_enabled : EffectKey

unfoldable pub EffectKey-discrete : Discrete EffectKey
EffectKey-discrete = hlevel

unfoldable pub effect_key_index : EffectKey → ℕ
effect_key_index EffectKey.mic_input_mute = 0x0158
effect_key_index EffectKey.bleep_level = 0x0073
effect_key_index EffectKey.gate_mode = 0x0010
effect_key_index EffectKey.gate_threshold = 0x0011
effect_key_index EffectKey.gate_enabled = 0x0014
effect_key_index EffectKey.gate_attenuation = 0x0015
effect_key_index EffectKey.gate_attack = 0x0016
effect_key_index EffectKey.gate_release = 0x0017
effect_key_index EffectKey.mic_comp_select = 0x014b
effect_key_index EffectKey.equalizer31_hz_frequency = 0x0126
effect_key_index EffectKey.equalizer31_hz_gain = 0x0127
effect_key_index EffectKey.equalizer63_hz_frequency = 0x00f8
effect_key_index EffectKey.equalizer63_hz_gain = 0x00f9
effect_key_index EffectKey.equalizer125_hz_frequency = 0x0113
effect_key_index EffectKey.equalizer125_hz_gain = 0x0114
effect_key_index EffectKey.equalizer250_hz_frequency = 0x0129
effect_key_index EffectKey.equalizer250_hz_gain = 0x012a
effect_key_index EffectKey.equalizer500_hz_frequency = 0x0116
effect_key_index EffectKey.equalizer500_hz_gain = 0x0117
effect_key_index EffectKey.equalizer1_khz_frequency = 0x011d
effect_key_index EffectKey.equalizer1_khz_gain = 0x011e
effect_key_index EffectKey.equalizer2_khz_frequency = 0x012c
effect_key_index EffectKey.equalizer2_khz_gain = 0x012d
effect_key_index EffectKey.equalizer4_khz_frequency = 0x0120
effect_key_index EffectKey.equalizer4_khz_gain = 0x0121
effect_key_index EffectKey.equalizer8_khz_frequency = 0x0109
effect_key_index EffectKey.equalizer8_khz_gain = 0x010a
effect_key_index EffectKey.equalizer16_khz_frequency = 0x012f
effect_key_index EffectKey.equalizer16_khz_gain = 0x0130
effect_key_index EffectKey.compressor_threshold = 0x013d
effect_key_index EffectKey.compressor_ratio = 0x013c
effect_key_index EffectKey.compressor_attack = 0x013e
effect_key_index EffectKey.compressor_release = 0x013f
effect_key_index EffectKey.compressor_make_up_gain = 0x0140
effect_key_index EffectKey.de_esser = 0x000b
effect_key_index EffectKey.reverb_amount = 0x0076
effect_key_index EffectKey.reverb_decay = 0x002f
effect_key_index EffectKey.reverb_early_level = 0x0037
effect_key_index EffectKey.reverb_tail_level = 0x0039
effect_key_index EffectKey.reverb_predelay = 0x0030
effect_key_index EffectKey.reverb_low_color = 0x0032
effect_key_index EffectKey.reverb_high_color = 0x0033
effect_key_index EffectKey.reverb_high_factor = 0x0034
effect_key_index EffectKey.reverb_diffuse = 0x0031
effect_key_index EffectKey.reverb_mod_speed = 0x0035
effect_key_index EffectKey.reverb_mod_depth = 0x0036
effect_key_index EffectKey.reverb_type = 0x002e
effect_key_index EffectKey.echo_amount = 0x0075
effect_key_index EffectKey.echo_feedback = 0x0028
effect_key_index EffectKey.echo_tempo = 0x001f
effect_key_index EffectKey.echo_delay_l = 0x0022
effect_key_index EffectKey.echo_delay_r = 0x0023
effect_key_index EffectKey.echo_feedback_l = 0x0024
effect_key_index EffectKey.echo_feedback_r = 0x0025
effect_key_index EffectKey.echo_xfblto_r = 0x0026
effect_key_index EffectKey.echo_xfbrto_l = 0x0027
effect_key_index EffectKey.echo_source = 0x001e
effect_key_index EffectKey.echo_div_l = 0x0020
effect_key_index EffectKey.echo_div_r = 0x0021
effect_key_index EffectKey.echo_filter_style = 0x002a
effect_key_index EffectKey.pitch_amount = 0x005d
effect_key_index EffectKey.pitch_character = 0x0167
effect_key_index EffectKey.pitch_threshold = 0x0159
effect_key_index EffectKey.gender_amount = 0x0060
effect_key_index EffectKey.megaphone_amount = 0x003c
effect_key_index EffectKey.megaphone_post_gain = 0x0040
effect_key_index EffectKey.megaphone_style = 0x003a
effect_key_index EffectKey.megaphone_hp = 0x003d
effect_key_index EffectKey.megaphone_lp = 0x003e
effect_key_index EffectKey.megaphone_pre_gain = 0x003f
effect_key_index EffectKey.megaphone_dist_type = 0x0041
effect_key_index EffectKey.megaphone_presence_gain = 0x0042
effect_key_index EffectKey.megaphone_presence_fc = 0x0043
effect_key_index EffectKey.megaphone_presence_bw = 0x0044
effect_key_index EffectKey.megaphone_beatbox_enable = 0x0045
effect_key_index EffectKey.megaphone_filter_control = 0x0046
effect_key_index EffectKey.megaphone_filter = 0x0047
effect_key_index EffectKey.megaphone_drive_pot_gain_comp_mid = 0x0048
effect_key_index EffectKey.megaphone_drive_pot_gain_comp_max = 0x0049
effect_key_index EffectKey.robot_low_gain = 0x0134
effect_key_index EffectKey.robot_low_freq = 0x0133
effect_key_index EffectKey.robot_low_width = 0x0135
effect_key_index EffectKey.robot_mid_gain = 0x013a
effect_key_index EffectKey.robot_mid_freq = 0x0139
effect_key_index EffectKey.robot_mid_width = 0x013b
effect_key_index EffectKey.robot_hi_gain = 0x0137
effect_key_index EffectKey.robot_hi_freq = 0x0136
effect_key_index EffectKey.robot_hi_width = 0x0138
effect_key_index EffectKey.robot_waveform = 0x0147
effect_key_index EffectKey.robot_pulse_width = 0x0146
effect_key_index EffectKey.robot_threshold = 0x0157
effect_key_index EffectKey.robot_dry_mix = 0x014d
effect_key_index EffectKey.robot_style = 0x0000
effect_key_index EffectKey.hard_tune_key_source = 0x0059
effect_key_index EffectKey.hard_tune_amount = 0x005a
effect_key_index EffectKey.hard_tune_rate = 0x005c
effect_key_index EffectKey.hard_tune_window = 0x005b
effect_key_index EffectKey.hard_tune_scale = 0x005e
effect_key_index EffectKey.hard_tune_pitch_amount = 0x005f
effect_key_index EffectKey.robot_enabled = 0x014e
effect_key_index EffectKey.megaphone_enabled = 0x00d7
effect_key_index EffectKey.hard_tune_enabled = 0x00d8
effect_key_index EffectKey.encoder1_enabled = 0x00d5
effect_key_index EffectKey.encoder2_enabled = 0x00d6
effect_key_index EffectKey.encoder3_enabled = 0x0150
effect_key_index EffectKey.encoder4_enabled = 0x0151

abbrev pub effect_key_variants : List EffectKey
effect_key_variants =
    EffectKey.mic_input_mute ∷ EffectKey.bleep_level ∷ EffectKey.gate_mode
    ∷ EffectKey.gate_threshold ∷ EffectKey.gate_enabled ∷ EffectKey.gate_attenuation
    ∷ EffectKey.gate_attack ∷ EffectKey.gate_release ∷ EffectKey.mic_comp_select
    ∷ EffectKey.equalizer31_hz_frequency ∷ EffectKey.equalizer31_hz_gain
    ∷ EffectKey.equalizer63_hz_frequency ∷ EffectKey.equalizer63_hz_gain
    ∷ EffectKey.equalizer125_hz_frequency ∷ EffectKey.equalizer125_hz_gain
    ∷ EffectKey.equalizer250_hz_frequency ∷ EffectKey.equalizer250_hz_gain
    ∷ EffectKey.equalizer500_hz_frequency ∷ EffectKey.equalizer500_hz_gain
    ∷ EffectKey.equalizer1_khz_frequency ∷ EffectKey.equalizer1_khz_gain
    ∷ EffectKey.equalizer2_khz_frequency ∷ EffectKey.equalizer2_khz_gain
    ∷ EffectKey.equalizer4_khz_frequency ∷ EffectKey.equalizer4_khz_gain
    ∷ EffectKey.equalizer8_khz_frequency ∷ EffectKey.equalizer8_khz_gain
    ∷ EffectKey.equalizer16_khz_frequency ∷ EffectKey.equalizer16_khz_gain
    ∷ EffectKey.compressor_threshold ∷ EffectKey.compressor_ratio ∷ EffectKey.compressor_attack
    ∷ EffectKey.compressor_release ∷ EffectKey.compressor_make_up_gain ∷ EffectKey.de_esser
    ∷ EffectKey.reverb_amount ∷ EffectKey.reverb_decay ∷ EffectKey.reverb_early_level
    ∷ EffectKey.reverb_tail_level ∷ EffectKey.reverb_predelay ∷ EffectKey.reverb_low_color
    ∷ EffectKey.reverb_high_color ∷ EffectKey.reverb_high_factor ∷ EffectKey.reverb_diffuse
    ∷ EffectKey.reverb_mod_speed ∷ EffectKey.reverb_mod_depth ∷ EffectKey.reverb_type
    ∷ EffectKey.echo_amount ∷ EffectKey.echo_feedback ∷ EffectKey.echo_tempo
    ∷ EffectKey.echo_delay_l ∷ EffectKey.echo_delay_r ∷ EffectKey.echo_feedback_l
    ∷ EffectKey.echo_feedback_r ∷ EffectKey.echo_xfblto_r ∷ EffectKey.echo_xfbrto_l
    ∷ EffectKey.echo_source ∷ EffectKey.echo_div_l ∷ EffectKey.echo_div_r
    ∷ EffectKey.echo_filter_style ∷ EffectKey.pitch_amount ∷ EffectKey.pitch_character
    ∷ EffectKey.pitch_threshold ∷ EffectKey.gender_amount ∷ EffectKey.megaphone_amount
    ∷ EffectKey.megaphone_post_gain ∷ EffectKey.megaphone_style ∷ EffectKey.megaphone_hp
    ∷ EffectKey.megaphone_lp ∷ EffectKey.megaphone_pre_gain ∷ EffectKey.megaphone_dist_type
    ∷ EffectKey.megaphone_presence_gain ∷ EffectKey.megaphone_presence_fc
    ∷ EffectKey.megaphone_presence_bw ∷ EffectKey.megaphone_beatbox_enable
    ∷ EffectKey.megaphone_filter_control ∷ EffectKey.megaphone_filter
    ∷ EffectKey.megaphone_drive_pot_gain_comp_mid ∷ EffectKey.megaphone_drive_pot_gain_comp_max
    ∷ EffectKey.robot_low_gain ∷ EffectKey.robot_low_freq ∷ EffectKey.robot_low_width
    ∷ EffectKey.robot_mid_gain ∷ EffectKey.robot_mid_freq ∷ EffectKey.robot_mid_width
    ∷ EffectKey.robot_hi_gain ∷ EffectKey.robot_hi_freq ∷ EffectKey.robot_hi_width
    ∷ EffectKey.robot_waveform ∷ EffectKey.robot_pulse_width ∷ EffectKey.robot_threshold
    ∷ EffectKey.robot_dry_mix ∷ EffectKey.robot_style ∷ EffectKey.hard_tune_key_source
    ∷ EffectKey.hard_tune_amount ∷ EffectKey.hard_tune_rate ∷ EffectKey.hard_tune_window
    ∷ EffectKey.hard_tune_scale ∷ EffectKey.hard_tune_pitch_amount ∷ EffectKey.robot_enabled
    ∷ EffectKey.megaphone_enabled ∷ EffectKey.hard_tune_enabled ∷ EffectKey.encoder1_enabled
    ∷ EffectKey.encoder2_enabled ∷ EffectKey.encoder3_enabled ∷ EffectKey.encoder4_enabled ∷ []

instance abbrev pub effect_key_enumeration : Enumeration EffectKey
effect_key_enumeration = record {
  discriminant = effect_key_index;
  variants = effect_key_variants;
  discrete = EffectKey-discrete;
}

pub find_index-effect_key : (x : EffectKey) → find_index (index x) effect_key_variants ≡ some x
unfolding effect_key_index find_index
find_index-effect_key EffectKey.mic_input_mute = refl
find_index-effect_key _ = refl

pub effect_key_index-injective : (x y : EffectKey) → index x ≡ index y → x ≡ y
effect_key_index-injective x y =
    find_index-injective effect_key_variants (find_index-effect_key x) (find_index-effect_key y)

small_key : (x : EffectKey) → ltb (index x) (2 ^ 32) ≡ true
unfolding effect_key_index
small_key EffectKey.mic_input_mute = refl
small_key _ = refl

-- A key fits the four bytes that it is sent in.
pub effect_key_index-lt : (x : EffectKey) → index x < 2 ^ 32
effect_key_index-lt x = ground (arith, small_key x)
