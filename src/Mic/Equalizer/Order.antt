-- ===== src/Mic/Equalizer/Order.antt =====
-- The frequencies of the equaliser in the order of its bands.
use mathlib.Core.Path.{subst, subst₂}
use goxlr_utility.Base.{
  ◌≡◌, refl, sym, ap, ◌∙◌, ◌≢◌, true, false, Option, none, some, arith, update, update_self,
  update_ne, update_all, ◌≟◌,
}
use goxlr_utility.Base.Float.{
  F32, literal, le, contains, is_multiple, le-real, le_unless_lt, lt_unless_le,
}
use goxlr_utility.Mic.Equalizer.{
  EqFrequencies, eq_frequencies_enumeration, Equalizer, lowest, highest, step, band_below,
  band_above, exceeds, falls_short,
}

abbrev pub IsAccepted : EqFrequencies → F32 → Type 0
IsAccepted band value =
    (contains (literal (lowest band)) (literal (highest band)) value ≡ true)
    × (is_multiple value (step band) ≡ true)

-- each band's own range and step, and no frequency above that of the next band
unfoldable pub IsTuned : Equalizer → Type 0
IsTuned eq =
    ((band : EqFrequencies) → IsAccepted band (eq.eq_freq band))
    × ((band above : EqFrequencies)
        → band_above band ≡ some above
        → le (eq.eq_freq band) (eq.eq_freq above) ≡ true)

-- the equaliser with the frequency of one band replaced
unfoldable pub retune : EqFrequencies → F32 → Equalizer → Equalizer
retune band value eq = record eq { eq_freq = update eq.eq_freq band value }

pub contains-real : (low high value : F32) → contains low high value ≡ true → le value value ≡ true
contains-real low high value h = ground (arith, le-real low value, le-real value high)

band_below-above :
    (band above : EqFrequencies) → band_above band ≡ some above → band_below above ≡ some band
unfolding band_above band_below
band_below-above EqFrequencies.equalizer31_hz above h = cc h
band_below-above _ above h = cc h

band_above-below :
    (band below : EqFrequencies) → band_below band ≡ some below → band_above below ≡ some band
unfolding band_above band_below
band_above-below EqFrequencies.equalizer31_hz below h = cc h
band_above-below _ below h = cc h

band_above-ne : (band above : EqFrequencies) → band_above band ≡ some above → above ≢ band
unfolding band_above
band_above-ne EqFrequencies.equalizer31_hz above h e = absurd (cc (h, e))
band_above-ne _ above h e = absurd (cc (h, e))

-- What replacing the frequency of a band does to the places of the order.
module _ (band : EqFrequencies) (value : F32) (eq : Equalizer) where
  pub retune_self : (retune band value eq).eq_freq band ≡ value
  unfolding retune
  retune_self = update_self eq.eq_freq band value

  pub retune-ne :
      (other : EqFrequencies)
      → other ≢ band
      → (retune band value eq).eq_freq other ≡ eq.eq_freq other
  unfolding retune
  retune-ne other h = update_ne eq.eq_freq band other value h

  exceeds-le :
      (above : EqFrequencies)
      → IsTuned eq
      → IsAccepted band value
      → exceeds value (some above) eq ≡ false
      → le value (eq.eq_freq above) ≡ true
  unfolding IsTuned exceeds
  exceeds-le above t a e =
      le_unless_lt value (eq.eq_freq above) (contains-real _ _ value a.0)
        (contains-real _ _ (eq.eq_freq above) (t.0 above).0) e

  falls_short-le :
      (below : EqFrequencies)
      → IsTuned eq
      → IsAccepted band value
      → falls_short value (some below) eq ≡ false
      → le (eq.eq_freq below) value ≡ true
  unfolding IsTuned falls_short
  falls_short-le below t a e =
      le_unless_lt (eq.eq_freq below) value (contains-real _ _ (eq.eq_freq below) (t.0 below).0)
        (contains-real _ _ value a.0) e

  retune-IsAccepted :
      IsTuned eq
      → IsAccepted band value
      → (other : EqFrequencies) → IsAccepted other ((retune band value eq).eq_freq other)
  unfolding IsTuned retune
  retune-IsAccepted t a = update_all IsAccepted eq.eq_freq band value a t.0

  -- an edge of the order, whose ends are the replaced band, a neighbour of it or neither
  retune-edge :
      IsTuned eq
      → IsAccepted band value
      → exceeds value (band_above band) eq ≡ false
      → falls_short value (band_below band) eq ≡ false
      → (other above : EqFrequencies) → band_above other ≡ some above
      → le ((retune band value eq).eq_freq other) ((retune band value eq).eq_freq above) ≡ true
  unfolding IsTuned
  retune-edge t a high low other above h = elim (other ≟ band) [
    | yes e ↦
        subst (λ f. le f ((retune band value eq).eq_freq above) ≡ true)
          (sym (ap (retune band value eq).eq_freq e ∙ retune_self))
          (subst (λ f. le value f ≡ true)
            (sym (retune-ne above λ q. band_above-ne other above h (q ∙ sym e)))
            (exceeds-le above t a (cc (high, h, e))))
    | no n ↦ elim (above ≟ band) [
      | yes e ↦
          subst (λ f. le ((retune band value eq).eq_freq other) f ≡ true)
            (sym (ap (retune band value eq).eq_freq e ∙ retune_self))
            (subst (λ f. le f value ≡ true) (sym (retune-ne other n))
              (falls_short-le other t a (cc (low, band_below-above other above h, e))))
      | no m ↦
          subst₂ (λ f g. le f g ≡ true) (sym (retune-ne other n)) (sym (retune-ne above m))
            (t.1 other above h)
    ]
  ]

  pub retune-IsTuned :
      IsTuned eq
      → IsAccepted band value
      → exceeds value (band_above band) eq ≡ false
      → falls_short value (band_below band) eq ≡ false
      → IsTuned (retune band value eq)
  unfolding IsTuned
  retune-IsTuned t a high low = (retune-IsAccepted t a, retune-edge t a high low)

  pub IsTuned-IsAccepted : IsTuned (retune band value eq) → IsAccepted band value
  unfolding IsTuned
  IsTuned-IsAccepted t = subst (IsAccepted band) retune_self (t.0 band)

  -- the tests of `set_eq_freq` on an equaliser that would stay in order
  pub IsTuned-exceeds :
      (above : Option EqFrequencies)
      → band_above band ≡ above
      → IsTuned (retune band value eq)
      → exceeds value above eq ≡ false
  unfolding IsTuned exceeds
  IsTuned-exceeds none h t = refl
  IsTuned-exceeds (some above) h t = lt_unless_le value (eq.eq_freq above) (
      subst₂ (λ f g. le f g ≡ true) retune_self (retune-ne above (band_above-ne band above h))
        (t.1 band above h))

  pub IsTuned-falls_short :
      (below : Option EqFrequencies)
      → band_below band ≡ below
      → IsTuned (retune band value eq)
      → falls_short value below eq ≡ false
  unfolding IsTuned falls_short
  IsTuned-falls_short none h t = refl
  IsTuned-falls_short (some below) h t = lt_unless_le (eq.eq_freq below) value (
      subst₂ (λ f g. le f g ≡ true)
        (retune-ne below λ q. band_above-ne below band (band_above-below band below h) (sym q))
        retune_self (t.1 below band (band_above-below band below h)))
