-- ===== src/Device/Faders/Forgotten.antt =====
-- The microphone given to a fader while no other fader has it.
use goxlr_utility.Base.{◌≡◌, ◌≢◌, refl, ◌∙◌, ap, Bool, true, false, Option, none, ◌==◌, arith}
use goxlr_utility.Types.{
  ChannelName, FaderName, fader_name_variants, fader_name_enumeration, channel_name_enumeration,
}
use goxlr_utility.Profile.Faders.{get_fader_assignment, set_fader_assignment}
use goxlr_utility.Profile.Mute.{is_mic_on_fader, clear_mic_fader}
use goxlr_utility.Device.State.{Device, Link, ◌>>◌, when, modify_profile}
use goxlr_utility.Device.Hardware.Quiet.{Succeeds, Succeeds-bind, Succeeds-if}
use goxlr_utility.Device.Mute.{unmute_fader}
use goxlr_utility.Device.Mute.Effect.{IsSound}
use goxlr_utility.Device.Mute.Opening.{unmute_fader-IsOpened}
use goxlr_utility.Device.Faders.{
  replace_channel, change_channel, set_fader, fader_to_switch, is_mic,
}
use goxlr_utility.Device.Faders.Tails.{replace_tail, replace_tail-Quiet}

-- The cough button's settings name no fader.
record IsUnknown (e : Device) : Type 0 where
  link : e.link ≡ Link.reliable
  unknown : is_mic_on_fader e.profile ≡ false

-- Nor when the fader `f` has the microphone.
pub record IsForgotten (f : FaderName) (e : Device) : Type 0 where
  pub assigned : get_fader_assignment e.profile f ≡ ChannelName.mic
  pub unknown : is_mic_on_fader e.profile ≡ false

clear-IsUnknown :
    (test : Bool) (e : Device)
    → IsUnknown e
    → Succeeds IsUnknown (when test (modify_profile clear_mic_fader)) e
unfolding clear_mic_fader is_mic_on_fader
clear-IsUnknown true e u = record { done = refl; post = record { link = u.link; unknown = refl } }
clear-IsUnknown false e u = record { done = refl; post = u }

module _ (f : FaderName) (d : Device) (h : IsSound d) (u : is_mic_on_fader d.profile ≡ false) where
  abbrev existing : ChannelName
  existing = get_fader_assignment d.profile f

  opened : Succeeds IsUnknown (unmute_fader f) d
  unfolding is_mic_on_fader
  opened =
      let s = unmute_fader-IsOpened f d h in
      record {
        done = s.done;
        post = record { link = s.post.sound.link; unknown = rw s.post.mute_chat u };
      }

  tail-IsForgotten :
      (e : Device)
      → IsUnknown e
      → Succeeds
          (IsForgotten f)
          (do
            modify_profile (set_fader_assignment f ChannelName.mic)
            replace_tail f existing ChannelName.mic)
          e
  unfolding set_fader_assignment get_fader_assignment is_mic_on_fader
  tail-IsForgotten e k =
      let q = replace_tail-Quiet f existing ChannelName.mic in
      let a = record e { profile = set_fader_assignment f ChannelName.mic e.profile } in
      record {
        done = q.succeeds a k.link;
        post = record {
          assigned = ap (λ m. (m f).channel) (q.same a k.link).faders ∙ ground arith;
          unknown = rw (q.same a k.link).mute_chat k.unknown;
        };
      }

  replace-IsForgotten : Succeeds (IsForgotten f) (replace_channel f existing ChannelName.mic) d
  unfolding replace_channel replace_tail
  replace-IsForgotten =
      Succeeds-bind IsUnknown (unmute_fader f)
        (do
          when (is_mic existing) (modify_profile clear_mic_fader)
          modify_profile (set_fader_assignment f ChannelName.mic)
          replace_tail f existing ChannelName.mic)
        opened
        λ d1 k1.
          Succeeds-bind IsUnknown (when (is_mic existing) (modify_profile clear_mic_fader))
            (do
              modify_profile (set_fader_assignment f ChannelName.mic)
              replace_tail f existing ChannelName.mic)
            (clear-IsUnknown (is_mic existing) d1 k1) tail-IsForgotten

-- In a sound device where no fader has the microphone, by the faders and by the cough button's
-- settings, a fader that is given the microphone has it, but the settings go on to know no fader.
pub set_fader-IsForgotten :
    (f : FaderName) (d : Device)
    → IsSound d
    → is_mic_on_fader d.profile ≡ false
    → get_fader_assignment d.profile f ≢ ChannelName.mic
    → fader_to_switch d.profile f ChannelName.mic fader_name_variants none ≡ none
    → IsForgotten f (set_fader f ChannelName.mic d).1
unfolding set_fader change_channel
set_fader-IsForgotten f d h u n e =
    (Succeeds-if {Q = IsForgotten f} (ChannelName.mic == get_fader_assignment d.profile f) {d = d}
      (λ q. absurd (n (ground (arith, q))))
      (λ _. changed (fader_to_switch d.profile f ChannelName.mic fader_name_variants none) e)).post
  where
    changed :
        (found : Option FaderName)
        → found ≡ none
        → Succeeds (IsForgotten f) (change_channel f (existing f d h u) ChannelName.mic found) d
    changed found q = rw q (replace-IsForgotten f d h u)
