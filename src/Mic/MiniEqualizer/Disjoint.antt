-- ===== src/Mic/MiniEqualizer/Disjoint.antt =====
-- The ranges of the Mini's bands, which do not overlap.
use mathlib.Core.Option
use mathlib.Core.Path.{subst}
use goxlr_utility.Base.{
  ◌≡◌, refl, sym, ap, ◌∙◌, ◌≤◌, ◌<◌, Bool, true, false, not, ◌||◌, Option, none, some, arith, index,
  update_all, inl, inr, Bool-cases, none_if,
}
use goxlr_utility.Base.Float.{F32, literal, le, contains, le_trans, lt_unless_le, literal_mono}
use goxlr_utility.Types.{MicrophoneParamKey}
use goxlr_utility.Mic.MiniEqualizer.{
  MiniEqFrequencies, mini_eq_frequencies_enumeration, mini_eq_frequencies_index, EqualizerMini,
  lowest, highest, store_freq, band_min, band_max, freq_key, exceeds, falls_short, set_mini_eq_freq,
}

abbrev pub IsInRange : EqualizerMini → Type 0
IsInRange eq =
    (band : MiniEqFrequencies)
    → contains (literal (lowest band)) (literal (highest band)) (eq.eq_freq band) ≡ true

highest-lowest : (i j : MiniEqFrequencies) → index i < index j → highest i ≤ lowest j
unfolding mini_eq_frequencies_index highest lowest
highest-lowest MiniEqFrequencies.equalizer90_hz MiniEqFrequencies.equalizer90_hz h = ground arith
highest-lowest _ _ h = ground arith

band_max-index :
    (band other : MiniEqFrequencies) → band_max band ≡ some other → index band < index other
unfolding mini_eq_frequencies_index band_max
band_max-index MiniEqFrequencies.equalizer90_hz MiniEqFrequencies.equalizer90_hz h = ground arith
band_max-index _ _ h = ground arith

band_min-index :
    (band other : MiniEqFrequencies) → band_min band ≡ some other → index other < index band
unfolding mini_eq_frequencies_index band_min
band_min-index MiniEqFrequencies.equalizer90_hz MiniEqFrequencies.equalizer90_hz h = ground arith
band_min-index _ _ h = ground arith

contains-lower : (low high value : F32) → contains low high value ≡ true → le low value ≡ true
contains-lower low high value h = ground arith

contains-upper : (low high value : F32) → contains low high value ≡ true → le value high ≡ true
contains-upper low high value h = ground arith

-- Frequencies that their own bands accept are in the order of the bands.
ranges-ordered :
    (i j : MiniEqFrequencies) (x y : F32)
    → index i < index j
    → contains (literal (lowest i)) (literal (highest i)) x ≡ true
    → contains (literal (lowest j)) (literal (highest j)) y ≡ true
    → le x y ≡ true
ranges-ordered i j x y h p q = le_trans x (literal (highest i)) y (contains-upper _ _ x p) (
    le_trans (literal (highest i)) (literal (lowest j)) y
      (literal_mono (highest i) (lowest j) (highest-lowest i j h)) (contains-lower _ _ y q))

not-false : (b : Bool) → not b ≡ false → b ≡ true
not-false b h = ground arith

module _ (band : MiniEqFrequencies) (value : F32) (eq : EqualizerMini) where
  store_freq-rejects :
      contains (literal (lowest band)) (literal (highest band)) value ≡ false
      → store_freq band value eq ≡ none
  unfolding store_freq
  store_freq-rejects h = rw h

  store_freq-IsInRange :
      {eq' : EqualizerMini} → IsInRange eq → store_freq band value eq ≡ some eq' → IsInRange eq'
  unfolding store_freq
  store_freq-IsInRange r p =
      let (accepted, q) =
        none_if (not (contains (literal (lowest band)) (literal (highest band)) value)) p in
      subst IsInRange q (
        update_all (λ b v. contains (literal (lowest b)) (literal (highest b)) v ≡ true) eq.eq_freq
          band value (not-false _ accepted) r)

  -- The comparisons with other bands are of values that the ranges already order.
  exceeds-false :
      (other : Option MiniEqFrequencies)
      → band_max band ≡ other
      → IsInRange eq
      → contains (literal (lowest band)) (literal (highest band)) value ≡ true
      → exceeds value other eq ≡ false
  unfolding exceeds
  exceeds-false none h r p = refl
  exceeds-false (some other) h r p =
      lt_unless_le value (eq.eq_freq other) (
        ranges-ordered band other value (eq.eq_freq other) (band_max-index band other h) p
          (r other))

  falls_short-false :
      (other : Option MiniEqFrequencies)
      → band_min band ≡ other
      → IsInRange eq
      → contains (literal (lowest band)) (literal (highest band)) value ≡ true
      → falls_short value other eq ≡ false
  unfolding falls_short
  falls_short-false none h r p = refl
  falls_short-false (some other) h r p =
      lt_unless_le (eq.eq_freq other) value (
        ranges-ordered other band (eq.eq_freq other) value (band_min-index band other h) (r other)
          p)

  -- On an equaliser whose frequencies are in their bands' ranges, the comparisons of
  -- set_mini_eq_freq with the frequencies of other bands reject nothing: it answers as the setter of
  -- the band's own range does, with the band's key.
  pub set_mini_eq_freq-store_freq :
      IsInRange eq
      → set_mini_eq_freq band value eq
        ≡ Option.map (λ e. (freq_key band, e)) (store_freq band value eq)
  unfolding set_mini_eq_freq
  set_mini_eq_freq-store_freq r =
      elim (Bool-cases (contains (literal (lowest band)) (literal (highest band)) value)) [
        | inl e ↦
            rw (exceeds-false (band_max band) refl r e, falls_short-false (band_min band) refl r e)
        | inr e ↦
            elim (Bool-cases
              (exceeds value (band_max band) eq || falls_short value (band_min band) eq)) [
                | inl f ↦ rw (f, store_freq-rejects e)
                | inr f ↦ rw f
              ]
      ]

  set_mini_eq_freq-IsInRange :
      {key : MicrophoneParamKey} {eq' : EqualizerMini}
      → IsInRange eq
      → set_mini_eq_freq band value eq ≡ some (key, eq')
      → IsInRange eq'
  set_mini_eq_freq-IsInRange r p =
      let (e, q, h) = (Option.map-eq-some_iff _ _).0 (sym (set_mini_eq_freq-store_freq r) ∙ p) in
      subst IsInRange (ap (λ a. a.1) h) (store_freq-IsInRange r q)

  -- On an equaliser whose frequencies are in their bands' ranges, a frequency that set_mini_eq_freq
  -- accepts leaves every band in its own range, and the frequencies in the order of the bands,
  -- though 90Hz is only compared with 1KHz, and 8KHz with 250Hz.
  pub set_mini_eq_freq-ascending :
      {key : MicrophoneParamKey} {eq' : EqualizerMini} (i j : MiniEqFrequencies)
      → IsInRange eq
      → set_mini_eq_freq band value eq ≡ some (key, eq')
      → index i < index j
      → IsInRange eq' × (le (eq'.eq_freq i) (eq'.eq_freq j) ≡ true)
  set_mini_eq_freq-ascending {key} {eq'} i j r p h =
      let r' = set_mini_eq_freq-IsInRange r p in
      (r', ranges-ordered i j (eq'.eq_freq i) (eq'.eq_freq j) h (r' i) (r' j))
