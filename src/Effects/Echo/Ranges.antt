-- ===== src/Effects/Echo/Ranges.antt =====
-- The ranges of an echo, and the styles.
use mathlib.Core.Path.{subst}
use goxlr_utility.Base.{
  ℕ, leb→le, unless, ◌≤◌, ◌≡◌, refl, ◌-◌, ◌*◌, ◌/◌, false, not, ◌&&◌, ◌||◌, Option, none, some,
  some_if, none_if, ltb, leb, arith,
}
use goxlr_utility.Base.Int.{ℤ, pos, negsuc, neg, i8, scale, quot, ◌+ℤ◌}
use goxlr_utility.Effects.Echo.{
  EchoStyle, EchoEncoder, get_preset, amount, set_knob_position, set_percentage_value,
  set_feedback_left, set_feedback_right, set_feedback, set_xfb_l_to_r, set_xfb_r_to_l,
  set_time_left, set_time_right, set_tempo, is_slap, set_style,
}

-- What the encoder has once a style's preset is loaded: the times of the classic slap, and those of
-- before in the other styles.
abbrev pub preset_loaded : EchoStyle → EchoEncoder → EchoEncoder
preset_loaded style e =
    let p = get_preset style in
    record e {
      style = style;
      source = p.source;
      div_l = p.div_l;
      div_r = p.div_r;
      feedback_left = p.feedback_left;
      feedback_right = p.feedback_right;
      feedback_control = p.feedback_control;
      xfb_l_to_r = p.xfb_l_to_r;
      xfb_r_to_l = p.xfb_r_to_l;
      filter_style = p.filter_style;
      time_left = elim p.time_left [ none ↦ e.time_left | some t ↦ t ];
      time_right = elim p.time_right [ none ↦ e.time_right | some t ↦ t ];
    }

-- A style is never refused, whatever the encoder was, and its preset is loaded.
pub set_style-preset_loaded :
    (style : EchoStyle) (e : EchoEncoder) → set_style style e ≡ some (preset_loaded style e)
unfolding set_style get_preset set_feedback_left set_feedback_right set_feedback set_xfb_l_to_r
    set_xfb_r_to_l set_time_left set_time_right
set_style-preset_loaded EchoStyle.quarter e = refl
set_style-preset_loaded EchoStyle.classic_slap e = refl
set_style-preset_loaded _ e = refl

-- The public methods that change the encoder.
pub data Change : Type 0 where
  knob : ℤ → Change
  percentage feedback_left feedback_right feedback xfb_l_to_r xfb_r_to_l : ℕ → Change
  time_left time_right tempo : ℕ → Change
  style : EchoStyle → Change

unfoldable pub change : Change → EchoEncoder → Option EchoEncoder
change (knob k) e = set_knob_position k e
change (percentage v) e = set_percentage_value v e
change (feedback_left v) e = set_feedback_left v e
change (feedback_right v) e = set_feedback_right v e
change (feedback v) e = set_feedback v e
change (xfb_l_to_r v) e = set_xfb_l_to_r v e
change (xfb_r_to_l v) e = set_xfb_r_to_l v e
change (time_left v) e = set_time_left v e
change (time_right v) e = set_time_right v e
change (tempo v) e = set_tempo v e
change (style s) e = set_style s e

abbrev IsKnob : ℤ → Type 0
IsKnob (pos n) = n ≤ 24
IsKnob (negsuc n) = ⊥

-- The knob; the feedbacks and the crossfeeds; the times; the tempo.
abbrev pub IsInRange : EchoEncoder → Type 0
IsInRange e =
    IsKnob e.knob_position
    × (e.feedback_left ≤ 100)
    × (e.feedback_right ≤ 100)
    × (e.feedback_control ≤ 100)
    × (e.xfb_l_to_r ≤ 100)
    × (e.xfb_r_to_l ≤ 100)
    × (e.time_left ≤ 2500)
    × (e.time_right ≤ 2500)
    × (e.tempo ≤ 300)

knob_set : (k : ℤ) (e f : EchoEncoder) → IsInRange e → set_knob_position k e ≡ some f → IsInRange f
unfolding set_knob_position
knob_set (pos n) e f h p =
    let q = some_if (leb n 24) p in
    subst IsInRange q.1 (leb→le n 24 q.0, h.1, h.2, h.3, h.4, h.5, h.6, h.7, h.8)
knob_set (negsuc n) e f h p = absurd (cc p)

style_set : (s : EchoStyle) (e : EchoEncoder) → IsInRange e → IsInRange (preset_loaded s e)
unfolding get_preset
style_set s e h = (
  h.0,
  ground arith,
  ground arith,
  ground arith,
  ground arith,
  ground arith,
  ground (arith, h.6),
  ground (arith, h.7),
  h.8,
)

not_above : (m v : ℕ) → ltb m v ≡ false → v ≤ m
not_above m v h = ground arith

-- Every change that the encoder accepts keeps the knob from 0 to 24, the feedbacks and the
-- crossfeeds at most 100, the times at most 2500 and the tempo at most 300.
pub change-IsInRange :
    (c : Change) (e f : EchoEncoder) → IsInRange e → change c e ≡ some f → IsInRange f
unfolding change set_percentage_value set_feedback_left set_feedback_right set_feedback
    set_xfb_l_to_r set_xfb_r_to_l set_time_left set_time_right set_tempo
change-IsInRange (knob k) e f h p = knob_set k e f h p
change-IsInRange (percentage v) e f h p = knob_set _ e f h (unless (ltb 100 v) p)
change-IsInRange (feedback_left v) e f h p =
    let q = none_if (ltb 100 v) p in
    subst IsInRange q.1 (h.0, not_above 100 v q.0, h.2, h.3, h.4, h.5, h.6, h.7, h.8)
change-IsInRange (feedback_right v) e f h p =
    let q = none_if (ltb 100 v) p in
    subst IsInRange q.1 (h.0, h.1, not_above 100 v q.0, h.3, h.4, h.5, h.6, h.7, h.8)
change-IsInRange (feedback v) e f h p =
    let q = none_if (ltb 100 v) p in
    subst IsInRange q.1 (h.0, h.1, h.2, not_above 100 v q.0, h.4, h.5, h.6, h.7, h.8)
change-IsInRange (xfb_l_to_r v) e f h p =
    let q = none_if (ltb 100 v) p in
    subst IsInRange q.1 (h.0, h.1, h.2, h.3, not_above 100 v q.0, h.5, h.6, h.7, h.8)
change-IsInRange (xfb_r_to_l v) e f h p =
    let q = none_if (ltb 100 v) p in
    subst IsInRange q.1 (h.0, h.1, h.2, h.3, h.4, not_above 100 v q.0, h.6, h.7, h.8)
change-IsInRange (time_left v) e f h p =
    let q = none_if (ltb 2500 v || not (is_slap e.style)) p in
    subst IsInRange q.1 (h.0, h.1, h.2, h.3, h.4, h.5, ground (arith, q.0), h.7, h.8)
change-IsInRange (time_right v) e f h p =
    let q = none_if (ltb 2500 v || not (is_slap e.style)) p in
    subst IsInRange q.1 (h.0, h.1, h.2, h.3, h.4, h.5, h.6, ground (arith, q.0), h.8)
change-IsInRange (tempo v) e f h p =
    let q = none_if (not (leb 45 v && leb v 300) || is_slap e.style) p in
    subst IsInRange q.1 (h.0, h.1, h.2, h.3, h.4, h.5, h.6, h.7, ground (arith, q.0))
change-IsInRange (style s) e f h p =
    let loaded : preset_loaded s e ≡ f = cc (p, set_style-preset_loaded s e) in
    subst IsInRange loaded (style_set s e h)

amount_of_knob :
    (k : ℤ) → IsKnob k → (m : ℕ) × (m ≤ 36) × (i8 (quot (scale 36 k) 24 +ℤ neg 36) ≡ neg m)
amount_of_knob (pos n) h = (36 - 36 * n / 24, omega arith, ground (arith, h))
amount_of_knob (negsuc n) h = absurd h

-- In range, the amount of an echo is from -36 to 0.
pub amount-neg : (e : EchoEncoder) → IsInRange e → (m : ℕ) × (m ≤ 36) × (amount e ≡ neg m)
unfolding amount
amount-neg e h = amount_of_knob e.knob_position h.0
