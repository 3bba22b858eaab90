-- ===== src/Effects/Pitch/Fitting.antt =====
-- The range of a pitch, and the knob that it was set with.
use goxlr_utility.Base.{
  ℕ, ◌≤◌, ◌*◌, ◌∙◌, sym, ap, ltb, some_if, none_if, ◌≡◌, refl, Bool, true, false, Option, some,
  arith,
}
use goxlr_utility.Base.Int.{ℤ, pos, negsuc, magnitude, within, i8, scale, quot}
use goxlr_utility.Effects.Pitch.{
  PitchStyle, PitchEncoder, knob_position, set_knob_position, calculate_encoder_value, set_style,
  set_inst_ratio, change_style, position_of, hardtune_limit, knob_of, rounded,
}
use mathlib.Core.Path.{subst}

-- An octave up and down in the narrow style, and two in the wide one.
abbrev pub octaves : PitchStyle → ℕ
octaves PitchStyle.narrow = 12
octaves PitchStyle.wide = 24

pub record IsFitting (e : PitchEncoder) : Type 0 where
  pub position : magnitude e.position ≤ octaves e.style

-- The changes that the encoder allows.
pub data Change : Type 0 where
  knob : ℤ → Bool → Change
  style : PitchStyle → Change
  ratio : ℕ → Change

unfoldable pub change : Change → PitchEncoder → Option PitchEncoder
change (knob k hardtune) e = set_knob_position k hardtune e
change (style s) e = some (set_style s e)
change (ratio v) e = set_inst_ratio v e

halved : (z : ℤ) → magnitude z ≤ 24 → magnitude (quot z 2) ≤ 12
halved (pos n) h = omega arith
halved (negsuc n) h = ground arith

doubled : (z : ℤ) → magnitude z ≤ 12 → magnitude (i8 (scale 2 z)) ≤ 24
doubled (pos n) h = ground arith
doubled (negsuc n) h = ground arith

twelvefold : (k z : _) → magnitude z ≤ k → k ≤ 2 → magnitude (i8 (scale 12 z)) ≤ 12 * k
twelvefold k (pos n) h p = ground arith
twelvefold k (negsuc n) h p = ground arith

within→le : (m : ℕ) (z : ℤ) → within m z ≡ true → magnitude z ≤ m
within→le m z h = ground arith

change_style-IsFitting :
    (s t : PitchStyle) (e : PitchEncoder)
    → magnitude e.position ≤ octaves s
    → e.style ≡ s
    → IsFitting (change_style s t e)
change_style-IsFitting PitchStyle.narrow PitchStyle.narrow e h p = record { position = rw p h }
change_style-IsFitting PitchStyle.wide PitchStyle.wide e h p = record { position = rw p h }
change_style-IsFitting PitchStyle.wide PitchStyle.narrow e h p = record {
  position = halved e.position h;
}
change_style-IsFitting PitchStyle.narrow PitchStyle.wide e h p = record {
  position = doubled e.position h;
}

set_knob-IsFitting :
    (s : PitchStyle) (k : ℤ) → magnitude k ≤ 24 → magnitude (position_of s k) ≤ octaves s
set_knob-IsFitting PitchStyle.narrow k h = halved k h
set_knob-IsFitting PitchStyle.wide k h = h

set_hardtune-IsFitting :
    (s : PitchStyle) (k : ℤ)
    → magnitude k ≤ hardtune_limit s
    → magnitude (i8 (scale 12 k)) ≤ octaves s
set_hardtune-IsFitting PitchStyle.narrow k h = twelvefold 1 k h (omega arith)
set_hardtune-IsFitting PitchStyle.wide k h = twelvefold 2 k h (omega arith)

-- Every change that the encoder accepts keeps the pitch within an octave in the narrow style and
-- within two in the wide one.
pub change-IsFitting :
    (c : Change) (e f : PitchEncoder) → IsFitting e → change c e ≡ some f → IsFitting f
unfolding change set_knob_position set_style set_inst_ratio
change-IsFitting (knob k true) e f h p =
    let q = some_if (within (hardtune_limit e.style) k) p in
    subst IsFitting q.1 (record {
      position = set_hardtune-IsFitting e.style k (within→le (hardtune_limit e.style) k q.0);
    })
change-IsFitting (knob k false) e f h p =
    let q = some_if (within 24 k) p in
    subst IsFitting q.1 (record { position = set_knob-IsFitting e.style k (within→le 24 k q.0) })
change-IsFitting (style s) e f h p =
    subst IsFitting (cc p) (change_style-IsFitting e.style s e h.position refl)
change-IsFitting (ratio v) e f h p =
    subst IsFitting (none_if (ltb 100 v) p).1 (record { position = h.position })

twelfth : (s : PitchStyle) (k : ℤ) → magnitude k ≤ hardtune_limit s → quot (i8 (scale 12 k)) 12 ≡ k
twelfth PitchStyle.narrow (pos n) h = ground arith
twelfth PitchStyle.narrow (negsuc n) h = ground arith
twelfth PitchStyle.wide (pos n) h = ground arith
twelfth PitchStyle.wide (negsuc n) h = ground arith

by_style : (s : PitchStyle) (k : ℤ) → knob_of s (position_of s k) ≡ rounded s k
by_style PitchStyle.narrow k = refl
by_style PitchStyle.wide k = refl

-- A knob that the encoder accepts is read back as the rounded value that it is given.
pub knob_position-set_knob_position :
    (k : ℤ) (hardtune : Bool) (e f : PitchEncoder)
    → set_knob_position k hardtune e ≡ some f
    → knob_position hardtune f ≡ calculate_encoder_value k hardtune e
unfolding set_knob_position knob_position calculate_encoder_value
knob_position-set_knob_position k true e f p =
    let q = some_if (within (hardtune_limit e.style) k) p in
    ap (λ g. quot g.position 12) (sym q.1)
    ∙ twelfth e.style k (within→le (hardtune_limit e.style) k q.0)
knob_position-set_knob_position k false e f p =
    ap (λ g. knob_of g.style g.position) (sym (some_if (within 24 k) p).1) ∙ by_style e.style k

twice_back :
    (s : PitchStyle) (z : ℤ)
    → magnitude z ≤ octaves s
    → (within 24 (knob_of s z) ≡ true) × (position_of s (knob_of s z) ≡ z)
twice_back PitchStyle.narrow (pos n) h = (ground arith, ground arith)
twice_back PitchStyle.narrow (negsuc n) h = (ground arith, ground arith)
twice_back PitchStyle.wide z h = (ground arith, refl)

-- Without hardtune, setting the knob to where it is read leaves a fitting encoder as it is.
pub set_knob_position-knob_position :
    (e : PitchEncoder) → IsFitting e → set_knob_position (knob_position false e) false e ≡ some e
unfolding set_knob_position knob_position
set_knob_position-knob_position e h =
    let t = twice_back e.style e.position h.position in rw (t.0, t.1) refl
