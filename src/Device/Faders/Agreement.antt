-- ===== src/Device/Faders/Agreement.antt =====
-- `set_fader` and the mute state of the channels.
use goxlr_utility.Base.{
  ◌≡◌, ap, ◌≢◌, refl, ◌∙◌, sym, Bool, true, false, not, Option, none, some, ◌==◌, ◌≟◌, arith,
}
use goxlr_utility.Types.{
  ChannelName, FaderName, fader_name_variants, fader_name_enumeration, channel_name_enumeration,
}
use goxlr_utility.Usb.{Request}
use goxlr_utility.Profile.{is_on}
use goxlr_utility.Profile.Faders.{
  get_fader_assignment, set_fader_assignment, switch_fader_assignment,
}
use goxlr_utility.Profile.Mute.{set_mic_fader, clear_mic_fader}
use goxlr_utility.Device.State.{Device, Action, Done, ok, ◌>>◌, when, modify_profile, request}
use goxlr_utility.Device.Hardware.Quiet.{Quiet, Succeeds, Succeeds-bind, Succeeds-if}
use goxlr_utility.Device.Mute.{unmute_fader, is_headphones_or_line_out}
use goxlr_utility.Device.Mute.Effect.{IsSound, IsSound-Same}
use goxlr_utility.Device.Mute.Opening.{IsOpened, unmute_fader-IsOpened}
use goxlr_utility.Device.Faders.{
  fader_to_switch, keep_channel, replace_channel, exchange_faders, change_channel, set_fader,
  is_mic,
}
use goxlr_utility.Device.Faders.Search.{Found, Found-all, none_found}
use goxlr_utility.Device.Faders.Changes.{
  IsSound-set_mic_fader, IsSound-clear_mic_fader, IsSound-switched, IsSound-assigned,
}
use goxlr_utility.Device.Faders.Tails.{
  fader_rules, replace_tail, replace_tail-Quiet, exchange_tail, exchange_tail-Quiet,
}

quietly : (m : Action Done) (d : Device) → Quiet m → IsSound d → Succeeds IsSound m d
quietly m d q h = record { done = q.succeeds d h.link; post = IsSound-Same (q.same d h.link) h }

mic_fader-IsSound :
    (test : Bool) (f : FaderName) (d : Device)
    → IsSound d
    → Succeeds IsSound (when test (modify_profile (set_mic_fader f))) d
mic_fader-IsSound true f d h = record { done = refl; post = IsSound-set_mic_fader f d h }
mic_fader-IsSound false f d h = record { done = refl; post = h }

-- A sound device where `f` is dark and `c` is on no fader.
record IsVacant (f : FaderName) (c : ChannelName) (e : Device) : Type 0 where
  sound : IsSound e
  state : is_on (e.profile.mute_buttons f).colour_map.state ≡ false
  blink : is_on (e.profile.mute_buttons f).colour_map.blink ≡ false
  free : (g : FaderName) → get_fader_assignment e.profile g ≢ c

clear-IsVacant :
    (test : Bool) (f : FaderName) (c : ChannelName) (e : Device)
    → IsVacant f c e
    → Succeeds (IsVacant f c) (when test (modify_profile clear_mic_fader)) e
unfolding clear_mic_fader get_fader_assignment
clear-IsVacant true f c e v = record {
  done = refl;
  post = record {
    sound = IsSound-clear_mic_fader e v.sound;
    state = v.state;
    blink = v.blink;
    free = v.free;
  };
}
clear-IsVacant false f c e v = record { done = refl; post = v }

module _ (f : FaderName) (c : ChannelName) (d : Device) (h : IsSound d) where
  abbrev existing : ChannelName
  existing = get_fader_assignment d.profile f

  replace-IsSound :
      ((g : FaderName) → get_fader_assignment d.profile g ≢ c)
      → Succeeds IsSound (replace_channel f existing c) d
  unfolding replace_channel replace_tail get_fader_assignment
  replace-IsSound free =
      Succeeds-bind (IsVacant f c) (unmute_fader f)
        (do
          when (is_mic existing) (modify_profile clear_mic_fader)
          modify_profile (set_fader_assignment f c)
          replace_tail f existing c)
        (vacant (unmute_fader-IsOpened f d h))
        λ d1 v1.
          Succeeds-bind (IsVacant f c) (when (is_mic existing) (modify_profile clear_mic_fader))
            (do modify_profile (set_fader_assignment f c); replace_tail f existing c)
            (clear-IsVacant (is_mic existing) f c d1 v1)
            λ d2 v2.
              Succeeds-bind IsSound (modify_profile (set_fader_assignment f c))
                (replace_tail f existing c)
                (record {
                  done = refl;
                  post = IsSound-assigned d2 v2.sound f c v2.state v2.blink v2.free;
                })
                λ d3 h3. quietly (replace_tail f existing c) d3 (replace_tail-Quiet f existing c) h3
    where
      opened_free :
          (e : Device) → IsOpened f d e → (g : FaderName) → get_fader_assignment e.profile g ≢ c
      opened_free e o g = rw o.faders (free g)

      vacant :
          Succeeds (IsOpened f d) (unmute_fader f) d → Succeeds (IsVacant f c) (unmute_fader f) d
      vacant s = record {
        done = s.done;
        post = record {
          sound = s.post.sound;
          state = s.post.state;
          blink = s.post.blink;
          free = opened_free _ s.post;
        };
      }

  exchange-IsSound : (g : FaderName) → g ≢ f → Succeeds IsSound (exchange_faders f g existing c) d
  unfolding exchange_faders exchange_tail
  exchange-IsSound g n =
      Succeeds-bind IsSound (modify_profile (switch_fader_assignment f g))
        (do
          when (is_mic c) (modify_profile (set_mic_fader f))
          when (is_mic existing) (modify_profile (set_mic_fader g))
          exchange_tail f g existing c)
        (record { done = refl; post = IsSound-switched d h f g n })
        λ d1 h1.
          Succeeds-bind IsSound (when (is_mic c) (modify_profile (set_mic_fader f)))
            (do
              when (is_mic existing) (modify_profile (set_mic_fader g))
              exchange_tail f g existing c)
            (mic_fader-IsSound (is_mic c) f d1 h1)
            λ d2 h2.
              Succeeds-bind IsSound (when (is_mic existing) (modify_profile (set_mic_fader g)))
                (exchange_tail f g existing c) (mic_fader-IsSound (is_mic existing) g d2 h2)
                λ d3 h3.
                  quietly (exchange_tail f g existing c) d3 (exchange_tail-Quiet f g existing c) h3

  keep-IsSound : Succeeds IsSound (keep_channel f c) d
  unfolding keep_channel
  keep-IsSound =
      Succeeds-bind IsSound (when (is_mic c) (modify_profile (set_mic_fader f)))
        (when (not (is_headphones_or_line_out c)) (request (Request.set_fader f c)))
        (mic_fader-IsSound (is_mic c) f d h) λ d1 h1. quietly _ d1 (search fader_rules depth 6) h1

  change-IsSound :
      (found : Option FaderName)
      → fader_to_switch d.profile f c fader_name_variants none ≡ found
      → c ≢ existing
      → Succeeds IsSound (change_channel f existing c found) d
  unfolding change_channel Found
  change-IsSound none e n = replace-IsSound (λ g q. elim (g ≟ f) [
    | yes p ↦ n (sym q ∙ ap (get_fader_assignment d.profile) p)
    | no p ↦ none_found d.profile f c e g p q
  ])
  change-IsSound (some g) e n = exchange-IsSound g (found_other g e)
    where
      found_other :
          (g : FaderName) → fader_to_switch d.profile f c fader_name_variants none ≡ some g → g ≢ f
      found_other g e = (rw e at (Found-all d.profile f c fader_name_variants none tt)).0

-- A fader given a channel: `set_fader` succeeds in every sound device and leaves it sound, whether
-- the channel comes from another fader, from none or is there already: still no channel is on two
-- faders, and each channel of the hardware is muted or not as the profile now wants it.
pub set_fader-IsSound :
    (f : FaderName) (c : ChannelName) (d : Device)
    → IsSound d
    → ((set_fader f c d).0 ≡ ok tt) × IsSound (set_fader f c d).1
unfolding set_fader
set_fader-IsSound f c d h =
    let s =
      Succeeds-if {Q = IsSound} (c == get_fader_assignment d.profile f) {d = d}
        (λ _. keep-IsSound f c d h)
        (λ e.
          change-IsSound f c d h (fader_to_switch d.profile f c fader_name_variants none) refl
            (λ q. ground (arith, e, q))) in
    (s.done, s.post)
