-- ===== src/Mic/Equalizer/Setting.antt =====
-- `set_eq_freq` against the order of the bands.
use goxlr_utility.Base.{◌≡◌, refl, ◌⊎◌, inl, inr, false, none, some, Bool-cases}
use goxlr_utility.Base.Float.{F32, literal, contains, is_multiple}
use goxlr_utility.Mic.Equalizer.{
  EqFrequencies, Equalizer, lowest, highest, step, store_freq, band_below, band_above, freq_key,
  exceeds, falls_short, set_eq_freq,
}
use goxlr_utility.Mic.Equalizer.Order.{
  IsAccepted, IsTuned, retune, retune-IsTuned, IsTuned-IsAccepted, IsTuned-exceeds,
  IsTuned-falls_short,
}

module _ (band : EqFrequencies) (value : F32) (eq : Equalizer) where
  store_freq-accepted :
      IsAccepted band value → store_freq band value eq ≡ some (retune band value eq)
  unfolding store_freq retune
  store_freq-accepted a = rw (a.0, a.1)

  store_freq-out_of_range :
      contains (literal (lowest band)) (literal (highest band)) value ≡ false
      → store_freq band value eq ≡ none
  unfolding store_freq
  store_freq-out_of_range h = rw h

  store_freq-uneven : is_multiple value (step band) ≡ false → store_freq band value eq ≡ none
  unfolding store_freq
  store_freq-uneven h =
      elim (Bool-cases (contains (literal (lowest band)) (literal (highest band)) value)) [
        | inl e ↦ rw (e, h)
        | inr e ↦ rw e
      ]

  set_eq_freq-neighbours :
      IsTuned eq
      → exceeds value (band_above band) eq ≡ false
      → falls_short value (band_below band) eq ≡ false
      → ((set_eq_freq band value eq ≡ some (freq_key band, retune band value eq))
          × IsTuned (retune band value eq))
        ⊎ ((set_eq_freq band value eq ≡ none) × ¬ IsTuned (retune band value eq))
  unfolding set_eq_freq
  set_eq_freq-neighbours t high low =
      elim (Bool-cases (contains (literal (lowest band)) (literal (highest band)) value)) [
        | inr e ↦ inr (
          rw (high, low, store_freq-out_of_range e),
          λ u. cc (e, (IsTuned-IsAccepted band value eq u).0),
        )
        | inl e ↦ elim (Bool-cases (is_multiple value (step band))) [
          | inr f ↦ inr (
            rw (high, low, store_freq-uneven f),
            λ u. cc (f, (IsTuned-IsAccepted band value eq u).1),
          )
          | inl f ↦ inl (
            rw (high, low, store_freq-accepted (e, f)),
            retune-IsTuned band value eq t (e, f) high low,
          )
        ]
      ]

  -- On an equaliser whose frequencies are in their ranges, on their steps and in the order of the
  -- bands, set_eq_freq stores a value and answers the band's key exactly when the equaliser is
  -- still so with that value; it is an error when it would not be.
  pub set_eq_freq-IsTuned :
      IsTuned eq
      → ((set_eq_freq band value eq ≡ some (freq_key band, retune band value eq))
          × IsTuned (retune band value eq))
        ⊎ ((set_eq_freq band value eq ≡ none) × ¬ IsTuned (retune band value eq))
  unfolding set_eq_freq
  set_eq_freq-IsTuned t = elim (Bool-cases (exceeds value (band_above band) eq)) [
    | inl e ↦ inr (rw e, λ u. cc (e, IsTuned-exceeds band value eq (band_above band) refl u))
    | inr e ↦ elim (Bool-cases (falls_short value (band_below band) eq)) [
      | inl f ↦
          inr (rw (e, f), λ u. cc (f, IsTuned-falls_short band value eq (band_below band) refl u))
      | inr f ↦ set_eq_freq-neighbours t e f
    ]
  ]
