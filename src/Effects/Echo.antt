-- ===== src/Effects/Echo.antt =====
-- profile/src/components/echo.rs: `EchoEncoder` and the presets of its styles. `none` is the error of
-- a method that changes the encoder.
pub mod Ranges
use goxlr_utility.Base.{
  ℕ, ◌+◌, ◌*◌, ◌/◌, ◌==◌, eqb, Bool, true, false, not, ◌&&◌, ◌||◌, Option, none, some, ltb, leb,
  if◌then◌else◌,
}
use goxlr_utility.Base.Int.{ℤ, pos, negsuc, neg, ◌+ℤ◌, scale, quot, i8}
use goxlr_utility.Usb.Wire.Replies.{◌>>=◌}

pub data EchoStyle : Type 0 where
  quarter eighth triplet ping_pong classic_slap multi_tap : EchoStyle

pub record EchoEncoder : Type 0 where
  pub knob_position : ℤ
  pub style : EchoStyle
  pub source : ℕ
  pub div_l : ℕ
  pub div_r : ℕ
  pub feedback_left : ℕ
  pub feedback_right : ℕ
  pub feedback_control : ℕ
  pub xfb_l_to_r : ℕ
  pub xfb_r_to_l : ℕ
  pub filter_style : ℕ
  pub time_left : ℕ
  pub time_right : ℕ
  pub tempo : ℕ

pub record EchoPreset : Type 0 where
  pub source : ℕ
  pub div_l : ℕ
  pub div_r : ℕ
  pub feedback_left : ℕ
  pub feedback_right : ℕ
  pub feedback_control : ℕ
  pub xfb_l_to_r : ℕ
  pub xfb_r_to_l : ℕ
  pub filter_style : ℕ
  pub time_left : Option ℕ
  pub time_right : Option ℕ

abbrev pub is_slap : EchoStyle → Bool
is_slap EchoStyle.classic_slap = true
is_slap _ = false

unfoldable pub get_preset : EchoStyle → EchoPreset
get_preset EchoStyle.quarter = record {
  source = 1;
  div_l = 9;
  div_r = 9;
  feedback_left = 50;
  feedback_right = 50;
  feedback_control = 30;
  xfb_l_to_r = 0;
  xfb_r_to_l = 0;
  filter_style = 0;
  time_left = none;
  time_right = none;
}
get_preset EchoStyle.eighth = record {
  source = 1;
  div_l = 12;
  div_r = 12;
  feedback_left = 50;
  feedback_right = 50;
  feedback_control = 30;
  xfb_l_to_r = 0;
  xfb_r_to_l = 0;
  filter_style = 0;
  time_left = none;
  time_right = none;
}
get_preset EchoStyle.triplet = record {
  source = 1;
  div_l = 13;
  div_r = 13;
  feedback_left = 50;
  feedback_right = 50;
  feedback_control = 30;
  xfb_l_to_r = 0;
  xfb_r_to_l = 0;
  filter_style = 0;
  time_left = none;
  time_right = none;
}
get_preset EchoStyle.ping_pong = record {
  source = 1;
  div_l = 10;
  div_r = 13;
  feedback_left = 50;
  feedback_right = 0;
  feedback_control = 30;
  xfb_l_to_r = 100;
  xfb_r_to_l = 0;
  filter_style = 0;
  time_left = none;
  time_right = none;
}
get_preset EchoStyle.classic_slap = record {
  source = 0;
  div_l = 18;
  div_r = 18;
  feedback_left = 50;
  feedback_right = 50;
  feedback_control = 0;
  xfb_l_to_r = 0;
  xfb_r_to_l = 0;
  filter_style = 0;
  time_left = some 110;
  time_right = some 110;
}
get_preset EchoStyle.multi_tap = record {
  source = 1;
  div_l = 9;
  div_r = 11;
  feedback_left = 25;
  feedback_right = 50;
  feedback_control = 30;
  xfb_l_to_r = 0;
  xfb_r_to_l = 0;
  filter_style = 0;
  time_left = none;
  time_right = none;
}

-- `amount`, computed in i32
unfoldable pub amount : EchoEncoder → ℤ
amount e = i8 (quot (scale 36 e.knob_position) 24 +ℤ neg 36)

unfoldable pub set_knob_position : ℤ → EchoEncoder → Option EchoEncoder
set_knob_position (pos n) e = if leb n 24 then some (record e { knob_position = pos n }) else none
set_knob_position (negsuc n) e = none

unfoldable pub set_percentage_value : ℕ → EchoEncoder → Option EchoEncoder
set_percentage_value percentage e =
    if ltb 100 percentage then none else set_knob_position (i8 (pos (percentage * 24 / 100))) e

unfoldable pub set_feedback_left : ℕ → EchoEncoder → Option EchoEncoder
set_feedback_left value e =
    if ltb 100 value then none else some (record e { feedback_left = value })

unfoldable pub set_feedback_right : ℕ → EchoEncoder → Option EchoEncoder
set_feedback_right value e =
    if ltb 100 value then none else some (record e { feedback_right = value })

unfoldable pub set_feedback : ℕ → EchoEncoder → Option EchoEncoder
set_feedback value e = if ltb 100 value then none else some (record e { feedback_control = value })

unfoldable pub set_xfb_l_to_r : ℕ → EchoEncoder → Option EchoEncoder
set_xfb_l_to_r value e = if ltb 100 value then none else some (record e { xfb_l_to_r = value })

unfoldable pub set_xfb_r_to_l : ℕ → EchoEncoder → Option EchoEncoder
set_xfb_r_to_l value e = if ltb 100 value then none else some (record e { xfb_r_to_l = value })

unfoldable pub set_time_left : ℕ → EchoEncoder → Option EchoEncoder
set_time_left value e =
    if ltb 2500 value || not (is_slap e.style) then none else some (record e { time_left = value })

unfoldable pub set_time_right : ℕ → EchoEncoder → Option EchoEncoder
set_time_right value e =
    if ltb 2500 value || not (is_slap e.style) then none else some (record e { time_right = value })

unfoldable pub set_tempo : ℕ → EchoEncoder → Option EchoEncoder
set_tempo value e =
    if not (leb 45 value && leb value 300) || is_slap e.style
    then none
    else some (record e { tempo = value })

-- `if let Some(time) = preset.time { self.set_time(time)?; }`
abbrev pub set_if_some :
    (ℕ → EchoEncoder → Option EchoEncoder) → Option ℕ → EchoEncoder → Option EchoEncoder
set_if_some set none e = some e
set_if_some set (some value) e = set value e

-- The style and the fields that cannot be refused.
abbrev pub load_plain : EchoStyle → EchoEncoder → EchoEncoder
load_plain style e = record e {
  style = style;
  source = (get_preset style).source;
  div_l = (get_preset style).div_l;
  div_r = (get_preset style).div_r;
}

unfoldable pub set_style : EchoStyle → EchoEncoder → Option EchoEncoder
set_style style e =
    let preset = get_preset style in
    (do
      a ← set_feedback_left preset.feedback_left (load_plain style e)
      b ← set_feedback_right preset.feedback_right a
      c ← set_feedback preset.feedback_control b
      d ← set_xfb_l_to_r preset.xfb_l_to_r c
      f ← set_xfb_r_to_l preset.xfb_r_to_l d
      g ←
          set_if_some set_time_left preset.time_left
            (record f { filter_style = preset.filter_style })
      set_if_some set_time_right preset.time_right g)
