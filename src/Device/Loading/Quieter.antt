-- ===== src/Device/Loading/Quieter.antt =====
-- Where the headphones and the line out come in the order of loading.
use goxlr_utility.Base.{
  ℕ, zero, suc, ◌≡◌, ◌<◌, ◌⊎◌, inl, inr, refl, Bool, true, false, not, ltb, leb, ◌==◌, some, List,
  [], ◌∷◌, ◌++◌, if◌then◌else◌, arith,
}
use goxlr_utility.Types.{
  ChannelName, ChannelName-discrete, channel_name_variants, channel_name_enumeration,
}
use goxlr_utility.Profile.{Profile}
use goxlr_utility.Profile.Faders.{get_channel_volume}
use goxlr_utility.Device.Loading.{push_if, push_others, get_load_volume_order}

abbrev pub count : ChannelName → List ChannelName → ℕ
count c [] = zero
count c (x ∷ rest) = if x == c then suc (count c rest) else count c rest

-- The place of the first.
abbrev pub place_of : ChannelName → List ChannelName → ℕ
place_of c [] = zero
place_of c (x ∷ rest) = if x == c then zero else suc (place_of c rest)

-- The channels that a listener hears the others through.
abbrev pub is_output : ChannelName → Bool
is_output ChannelName.headphones = true
is_output ChannelName.line_out = true
is_output _ = false

-- The order, by whether the headphones and the line out get quieter.
abbrev arranged : Bool → Bool → List ChannelName
arranged h l =
    push_if h ChannelName.headphones
    ++ (push_if l ChannelName.line_out
        ++ (push_others channel_name_variants
            ++ (push_if (not h) ChannelName.headphones ++ push_if (not l) ChannelName.line_out)))

leb-not-ltb : (a b : ℕ) → leb a b ≡ not (ltb b a)
leb-not-ltb a b = ground arith

-- Whether the load makes a channel quieter.
unfoldable pub quieter : Profile → (ChannelName → ℕ) → ChannelName → Bool
quieter p volumes c = ltb (get_channel_volume p c) (volumes c)

order-arranged :
    (p : Profile) (volumes : ChannelName → ℕ)
    → get_load_volume_order p (some volumes)
      ≡ arranged (quieter p volumes ChannelName.headphones) (quieter p volumes ChannelName.line_out)
unfolding get_load_volume_order quieter
order-arranged p volumes =
    rw
      (
        leb-not-ltb (volumes ChannelName.headphones) (get_channel_volume p ChannelName.headphones),
        leb-not-ltb (volumes ChannelName.line_out) (get_channel_volume p ChannelName.line_out),
      )
      refl

arranged-once : (h l : Bool) (c : ChannelName) → count c (arranged h l) ≡ 1
unfolding push_others ChannelName-discrete
arranged-once true true ChannelName.mic = refl
arranged-once true false ChannelName.mic = refl
arranged-once false true ChannelName.mic = refl
arranged-once false false ChannelName.mic = refl
arranged-once _ _ _ = refl

-- Whether an output comes first or last among the channels that are none.
unfoldable pub IsPlaced : List ChannelName → Bool → ChannelName → ChannelName → Type 0
IsPlaced order true output c = place_of output order < place_of c order
IsPlaced order false output c = place_of c order < place_of output order

headphones-IsPlaced :
    (h l : Bool) (c : ChannelName)
    → is_output c ≡ false
    → IsPlaced (arranged h l) h ChannelName.headphones c
unfolding IsPlaced push_others ChannelName-discrete
headphones-IsPlaced true true ChannelName.mic e = omega arith
headphones-IsPlaced _ _ _ e = ground (arith, e)

line_out-IsPlaced :
    (h l : Bool) (c : ChannelName)
    → is_output c ≡ false
    → IsPlaced (arranged h l) l ChannelName.line_out c
unfolding IsPlaced push_others ChannelName-discrete
line_out-IsPlaced true true ChannelName.mic e = omega arith
line_out-IsPlaced _ _ _ e = ground (arith, e)

is_output-cases :
    (o : ChannelName)
    → is_output o ≡ true
    → (o ≡ ChannelName.headphones) ⊎ (o ≡ ChannelName.line_out)
is_output-cases o e = ground (arith, e)

module _ (p : Profile) (volumes : ChannelName → ℕ) where
  order-IsPlaced :
      (o c : ChannelName)
      → is_output o ≡ true
      → is_output c ≡ false
      → IsPlaced (get_load_volume_order p (some volumes)) (quieter p volumes o) o c
  order-IsPlaced o c e f = elim (is_output-cases o e) [
    | inl q ↦
        rw (q, order-arranged p volumes)
          (headphones-IsPlaced (quieter p volumes ChannelName.headphones)
            (quieter p volumes ChannelName.line_out) c f)
    | inr q ↦
        rw (q, order-arranged p volumes)
          (line_out-IsPlaced (quieter p volumes ChannelName.headphones)
            (quieter p volumes ChannelName.line_out) c f)
  ]

-- The order of loading has every channel once, and the headphones and the line out stand before all the
-- other channels when the load makes them quieter, and after all the others when it does not.
pub get_load_volume_order-quieter :
    (p : Profile) (volumes : ChannelName → ℕ) (o c : ChannelName)
    → is_output o ≡ true
    → is_output c ≡ false
    → (count o (get_load_volume_order p (some volumes)) ≡ 1)
      × (count c (get_load_volume_order p (some volumes)) ≡ 1)
      × IsPlaced (get_load_volume_order p (some volumes)) (quieter p volumes o) o c
get_load_volume_order-quieter p volumes o c e f = (
  rw (order-arranged p volumes) (arranged-once _ _ o),
  rw (order-arranged p volumes) (arranged-once _ _ c),
  order-IsPlaced p volumes o c e f,
)
