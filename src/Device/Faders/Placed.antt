-- ===== src/Device/Faders/Placed.antt =====
-- The steps of `set_fader`: where they put the faders' channels and the microphone's fader.
use goxlr_utility.Base.{ℕ, ◌≡◌, ap, refl, ◌∙◌, Bool, true, false, update, if◌then◌else◌}
use goxlr_utility.Types.{
  ChannelName, FaderName, fader_name_index, fader_name_enumeration, channel_name_enumeration,
}
use goxlr_utility.Profile.{Fader}
use goxlr_utility.Profile.Faders.{swap, set_fader_assignment, switch_fader_assignment}
use goxlr_utility.Profile.Mute.{set_mic_fader, clear_mic_fader, get_mute_chat_button_state}
use goxlr_utility.Device.State.{Device, Link, Action, Done, when, modify_profile}
use goxlr_utility.Device.Hardware.Quiet.{Quiet, Succeeds}
use goxlr_utility.Device.Cough.Effect.{KnowsMic}
use goxlr_utility.Device.Faders.Knowing.{Knows, KnowsMic-Knows}

-- The faders are `m` and the microphone's fader is `i`; the cough button is as in `d`.
pub record Placed (d : Device) (m : FaderName → Fader) (i : ℕ) (e : Device) : Type 0 where
  pub link : e.link ≡ Link.reliable
  pub faders : e.profile.faders ≡ m
  pub fader : e.profile.mute_chat.mic_fader_id ≡ i
  pub blink : e.profile.mute_chat.blink ≡ d.profile.mute_chat.blink
  pub behaviour : e.profile.mute_chat.cough_behaviour ≡ d.profile.mute_chat.cough_behaviour

module _ (d : Device) where
  pub Placed-Quiet :
      (k : Action Done) (m : FaderName → Fader) (i : ℕ) (e : Device)
      → Quiet k
      → Placed d m i e
      → Succeeds (Placed d m i) k e
  Placed-Quiet k m i e q p =
      let s = q.same e p.link in
      record {
        done = q.succeeds e p.link;
        post = record {
          link = s.link ∙ p.link;
          faders = s.faders ∙ p.faders;
          fader = ap (λ c. c.mic_fader_id) s.mute_chat ∙ p.fader;
          blink = ap (λ c. c.blink) s.mute_chat ∙ p.blink;
          behaviour = ap (λ c. c.cough_behaviour) s.mute_chat ∙ p.behaviour;
        };
      }

  pub Placed-set_mic :
      (test : Bool) (f : FaderName) (m : FaderName → Fader) (i : ℕ) (e : Device)
      → Placed d m i e
      → Succeeds
          (Placed d m (if test then fader_name_index f else i))
          (when test (modify_profile (set_mic_fader f)))
          e
  unfolding set_mic_fader
  Placed-set_mic true f m i e p = record {
    done = refl;
    post = record {
      link = p.link;
      faders = p.faders;
      fader = refl;
      blink = p.blink;
      behaviour = p.behaviour;
    };
  }
  Placed-set_mic false f m i e p = record { done = refl; post = p }

  pub Placed-clear :
      (test : Bool) (m : FaderName → Fader) (i : ℕ) (e : Device)
      → Placed d m i e
      → Succeeds (Placed d m (if test then 4 else i)) (when test (modify_profile clear_mic_fader)) e
  unfolding clear_mic_fader
  Placed-clear true m i e p = record {
    done = refl;
    post = record {
      link = p.link;
      faders = p.faders;
      fader = refl;
      blink = p.blink;
      behaviour = p.behaviour;
    };
  }
  Placed-clear false m i e p = record { done = refl; post = p }

  pub Placed-assign :
      (f : FaderName) (c : ChannelName) (m : FaderName → Fader) (i : ℕ) (e : Device)
      → Placed d m i e
      → Succeeds
          (Placed d (update m f (record (m f) { channel = c })) i)
          (modify_profile (set_fader_assignment f c))
          e
  unfolding set_fader_assignment
  Placed-assign f c m i e p = record {
    done = refl;
    post = record {
      link = p.link;
      faders = ap (λ n. update n f (record (n f) { channel = c })) p.faders;
      fader = p.fader;
      blink = p.blink;
      behaviour = p.behaviour;
    };
  }

  pub Placed-switch :
      (f g : FaderName) (m : FaderName → Fader) (i : ℕ) (e : Device)
      → Placed d m i e
      → Succeeds (Placed d (swap m f g) i) (modify_profile (switch_fader_assignment f g)) e
  unfolding switch_fader_assignment
  Placed-switch f g m i e p = record {
    done = refl;
    post = record {
      link = p.link;
      faders = ap (λ n. swap n f g) p.faders;
      fader = p.fader;
      blink = p.blink;
      behaviour = p.behaviour;
    };
  }

  pub Placed-KnowsMic :
      (m : FaderName → Fader) (i : ℕ) (e : Device)
      → KnowsMic d.profile
      → Placed d m i e
      → Knows m i
      → KnowsMic e.profile
  unfolding get_mute_chat_button_state
  Placed-KnowsMic m i e known p k =
      KnowsMic-Knows (rw (p.faders, p.fader) k) (rw (p.blink, p.behaviour) known.still)
