-- ===== src/Device/Faders/Search.antt =====
-- The search of `set_fader` for another fader that has the channel.
use goxlr_utility.Base.{
  ◌≡◌, ◌≢◌, refl, Bool, true, false, not, ◌&&◌, Option, none, some, List, [], ◌∷◌, ◌==◌, arith,
  if◌then◌else◌,
}
use goxlr_utility.Types.{
  ChannelName, FaderName, fader_name_variants, fader_name_enumeration, channel_name_enumeration,
}
use goxlr_utility.Profile.{Profile}
use goxlr_utility.Profile.Faders.{get_fader_assignment}
use goxlr_utility.Device.Faders.{fader_to_switch}

-- What the search for another fader with the channel finds.
unfoldable pub Found : Profile → FaderName → ChannelName → Option FaderName → Type 0
Found p f c none = Unit {0}
Found p f c (some g) = (g ≢ f) × (get_fader_assignment p g ≡ c)

Found-if :
    (p : Profile) (f : FaderName) (c : ChannelName) (g : FaderName) (test : Bool)
    (found : Option FaderName)
    → (test ≡ true → (g ≢ f) × (get_fader_assignment p g ≡ c))
    → Found p f c found
    → Found p f c (if test then some g else found)
unfolding Found
Found-if p f c g true found t h = t refl
Found-if p f c g false found t h = h

Found-step :
    (p : Profile) (f : FaderName) (c : ChannelName) (g : FaderName) (found : Option FaderName)
    → Found p f c found
    → Found p f c (if not (g == f) && (get_fader_assignment p g == c) then some g else found)
Found-step p f c g found h =
    Found-if p f c g (not (g == f) && (get_fader_assignment p g == c)) found
      (λ e. ((λ q. ground arith), ground arith)) h

pub Found-all :
    (p : Profile) (f : FaderName) (c : ChannelName) (gs : List FaderName) (found : Option FaderName)
    → Found p f c found
    → Found p f c (fader_to_switch p f c gs found)
unfolding fader_to_switch
Found-all p f c [] found h = h
Found-all p f c (g ∷ gs) found h = Found-all p f c gs _ (Found-step p f c g found h)

-- A search that finds none: no other fader has the channel.
pub none_found :
    (p : Profile) (f : FaderName) (c : ChannelName)
    → fader_to_switch p f c fader_name_variants none ≡ none
    → (g : FaderName) → g ≢ f
    → get_fader_assignment p g ≢ c
unfolding fader_to_switch
none_found p f c h FaderName.a n q = ground (arith, n, q, h)
none_found p f c h FaderName.b n q = ground (arith, n, q, h)
none_found p f c h FaderName.c n q = ground (arith, n, q, h)
none_found p f c h FaderName.d n q = ground (arith, n, q, h)
