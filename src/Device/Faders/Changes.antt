-- ===== src/Device/Faders/Changes.antt =====
-- The changes that `set_fader` makes to a profile, and what a profile wants.
use goxlr_utility.Base.{◌≡◌, ap, ◌≢◌, refl, ◌∙◌, sym, false, some, ite, ◌≟◌, arith}
use goxlr_utility.Types.{ChannelName, FaderName, fader_name_enumeration, channel_name_enumeration}
use goxlr_utility.Profile.{Profile, is_on}
use goxlr_utility.Profile.Faders.{
  get_fader_assignment, set_fader_assignment, switch_fader_assignment,
}
use goxlr_utility.Profile.Mute.{
  set_mic_fader, clear_mic_fader, get_mute_button_state, mic_muted_by_cough,
}
use goxlr_utility.Device.State.{Device}
use goxlr_utility.Device.Hardware.{channel_state, wanted, wanted_off_fader}
use goxlr_utility.Device.Mute.Effect.{IsSound}

-- The fader that the cough button has for the microphone is no part of what is wanted.
pub IsSound-set_mic_fader :
    (f : FaderName) (d : Device)
    → IsSound d
    → IsSound (record d { profile = set_mic_fader f d.profile })
unfolding set_mic_fader wanted wanted_off_fader get_fader_assignment get_mute_button_state
    mic_muted_by_cough
IsSound-set_mic_fader f d h = record {
  link = h.link;
  distinct = h.distinct;
  lit = h.lit;
  agrees = record { on_fader = h.agrees.on_fader; off_fader = h.agrees.off_fader };
}

pub IsSound-clear_mic_fader :
    (d : Device) → IsSound d → IsSound (record d { profile = clear_mic_fader d.profile })
unfolding clear_mic_fader wanted wanted_off_fader get_fader_assignment get_mute_button_state
    mic_muted_by_cough
IsSound-clear_mic_fader d h = record {
  link = h.link;
  distinct = h.distinct;
  lit = h.lit;
  agrees = record { on_fader = h.agrees.on_fader; off_fader = h.agrees.off_fader };
}

module _ (d : Device) (h : IsSound d) (f g : FaderName) (n : g ≢ f) where
  abbrev switched : Profile
  switched = switch_fader_assignment f g d.profile

  -- The old fader of what is on `k` after the exchange.
  abbrev from : FaderName → FaderName
  from k = ite (k ≟ g) f (ite (k ≟ f) g k)

  from-injective : (j k : FaderName) → from j ≡ from k → j ≡ k
  from-injective j k q = ground (arith, n, q)

  switched_channel :
      (k : FaderName) → get_fader_assignment switched k ≡ get_fader_assignment d.profile (from k)
  unfolding switch_fader_assignment get_fader_assignment
  switched_channel k = ground arith

  switched_button : (k : FaderName) → switched.mute_buttons k ≡ d.profile.mute_buttons (from k)
  unfolding switch_fader_assignment
  switched_button k = ground arith

  from_from : (k : FaderName) → from (from k) ≡ k
  from_from k = ground (arith, n)

  pub IsSound-switched : IsSound (record d { profile = switched })
  unfolding wanted wanted_off_fader get_mute_button_state mic_muted_by_cough switch_fader_assignment
  IsSound-switched = record {
    link = h.link;
    distinct = λ j k q.
        from-injective j k (h.distinct _ _ (sym (switched_channel j) ∙ q ∙ switched_channel k));
    lit = λ k. rw (switched_button k) (h.lit (from k));
    agrees = record {
      on_fader = λ k. rw (switched_channel k, switched_button k) (h.agrees.on_fader (from k));
      off_fader = λ c o.
          h.agrees.off_fader c (λ k q. o (from k) (switched_channel (from k) ∙ rw (from_from k) q));
    };
  }

-- A channel that no fader has comes to a fader whose mute button is dark.
module _ (d : Device) (h : IsSound d) (f : FaderName) (c : ChannelName)
    (off : is_on (d.profile.mute_buttons f).colour_map.state ≡ false)
    (still : is_on (d.profile.mute_buttons f).colour_map.blink ≡ false)
    (free : (g : FaderName) → get_fader_assignment d.profile g ≢ c) where
  abbrev assigned : Profile
  assigned = set_fader_assignment f c d.profile

  assigned_here : get_fader_assignment assigned f ≡ c
  unfolding set_fader_assignment get_fader_assignment
  assigned_here = ground arith

  assigned_elsewhere :
      (k : FaderName) → k ≢ f → get_fader_assignment assigned k ≡ get_fader_assignment d.profile k
  unfolding set_fader_assignment get_fader_assignment
  assigned_elsewhere k n = ground arith

  -- With a dark button a channel is wanted as it is off the faders.
  dark :
      (p : Profile)
      → p.mute_buttons ≡ d.profile.mute_buttons
      → wanted p f ≡ wanted_off_fader p (get_fader_assignment p f)
  unfolding wanted wanted_off_fader get_mute_button_state
  dark p q = rw (q, off, still) refl

  assigned_distinct :
      (j k : FaderName) → get_fader_assignment assigned j ≡ get_fader_assignment assigned k → j ≡ k
  assigned_distinct j k q = elim (j ≟ f) [
    | yes a ↦ elim (k ≟ f) [
      | yes b ↦ a ∙ sym b
      | no b ↦ absurd (free k (sym (assigned_elsewhere k b) ∙ sym q ∙ rw a assigned_here))
    ]
    | no a ↦ elim (k ≟ f) [
      | yes b ↦ absurd (free j (sym (assigned_elsewhere j a) ∙ q ∙ rw b assigned_here))
      | no b ↦ h.distinct j k (sym (assigned_elsewhere j a) ∙ q ∙ assigned_elsewhere k b)
    ]
  ]

  assigned_on :
      (k : FaderName)
      → channel_state (get_fader_assignment assigned k) d.sent ≡ some (wanted assigned k)
  unfolding wanted wanted_off_fader get_mute_button_state mic_muted_by_cough set_fader_assignment
  assigned_on k = elim (k ≟ f) [
    | yes q ↦ rw (q, dark assigned refl, assigned_here) (h.agrees.off_fader c free)
    | no n ↦ rw (assigned_elsewhere k n) (h.agrees.on_fader k)
  ]

  assigned_off :
      (o : ChannelName)
      → ((k : FaderName) → get_fader_assignment assigned k ≢ o)
      → channel_state o d.sent ≡ some (wanted_off_fader assigned o)
  unfolding wanted_off_fader mic_muted_by_cough set_fader_assignment
  assigned_off o n = elim (get_fader_assignment d.profile f ≟ o) [
    | yes q ↦ rw (← q) (h.agrees.on_fader f ∙ ap some (dark d.profile refl))
    | no m ↦
        h.agrees.off_fader o
          (λ k q. elim (k ≟ f) [ yes e ↦ m (rw (← e) q) | no e ↦ n k (assigned_elsewhere k e ∙ q) ])
  ]

  pub IsSound-assigned : IsSound (record d { profile = assigned })
  unfolding set_fader_assignment get_mute_button_state
  IsSound-assigned = record {
    link = h.link;
    distinct = assigned_distinct;
    lit = h.lit;
    agrees = record { on_fader = assigned_on; off_fader = assigned_off };
  }
