-- ===== src/Usb/Wire/Encoding/ReadBack.antt =====
-- The bodies of `set_effect_values` read back.
use goxlr_utility.Base.{
  ℕ, zero, suc, ◌≡◌, ◌<◌, ◌^◌, refl, Option, none, some, List, [], ◌∷◌, ◌++◌, length, index,
  find_index,
}
use goxlr_utility.Types.{
  EffectKey, effect_key_variants, effect_key_enumeration, find_index-effect_key,
  effect_key_index-lt,
}
use goxlr_utility.Usb.Wire.{ByteOrder, IsByteOrder}
use goxlr_utility.Usb.Wire.Encoding.{effect_bytes}

module _ (le : ByteOrder) where
  -- The device's side: pairs of a key and a value, until the bytes end.
  pub read_effects : ℕ → List ℕ → Option (List (EffectKey × ℕ))
  read_effects zero [] = some []
  read_effects zero (b ∷ bytes) = none
  read_effects (suc n) bytes = elim (le.read_u32 bytes) [
    | none ↦ none
    | some (k, after) ↦ elim (find_index k effect_key_variants) [
      | none ↦ none
      | some key ↦ elim (le.read_u32 after) [
        | none ↦ none
        | some (value, rest) ↦ elim (read_effects n rest) [
          | none ↦ none
          | some effects ↦ some ((key, value) ∷ effects)
        ]
      ]
    ]
  ]

  -- The values are bit patterns of 32 bits.
  abbrev pub AllU32 : List (EffectKey × ℕ) → Type 0
  AllU32 [] = Unit {0}
  AllU32 ((key, value) ∷ rest) = (value < 2 ^ 32) × AllU32 rest

  -- The device reads back the effects that `set_effect_values` writes, in their order, and nothing
  -- of a body is left over.
  pub read_effects-effect_bytes :
      IsByteOrder le
      → (effects : List (EffectKey × ℕ)) → AllU32 effects
      → read_effects (length effects) (effect_bytes le effects) ≡ some effects
  unfolding read_effects effect_bytes
  read_effects-effect_bytes o [] h = refl
  read_effects-effect_bytes o ((key, value) ∷ rest) h =
      rw
        (
          o.reads_u32 (index key) (le.write_i32 value ++ effect_bytes le rest)
              (effect_key_index-lt key),
          find_index-effect_key key,
          o.reads_i32 value (effect_bytes le rest) h.0,
          read_effects-effect_bytes o rest h.1,
        )
        refl
