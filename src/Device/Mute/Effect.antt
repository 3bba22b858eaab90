-- ===== src/Device/Mute/Effect.antt =====
-- What a mute handler does to a device, as far as the mute state of its channels goes: it gives one
-- button a new state, and its channel a new one.
use goxlr_utility.Base.{◌≡◌, ◌≢◌, ◌∙◌, sym, Bool, true, ◌&&◌, ◌||◌, ◌==◌, Option, some, ◌≟◌}
use goxlr_utility.Types.{
  FaderName, ChannelName, is_all, fader_name_enumeration, channel_name_enumeration,
}
use goxlr_utility.Usb.{ChannelState}
use goxlr_utility.Profile.{is_on}
use goxlr_utility.Profile.Mute.{get_mute_button_state, mic_muted_by_cough}
use goxlr_utility.Profile.Faders.{get_fader_assignment}
use goxlr_utility.Device.State.{Device, Link, Action, Done}
use goxlr_utility.Device.Hardware.{
  channel_state, muted_if, wanted, wanted_off_fader, Agrees, IsDistinct,
}
use goxlr_utility.Device.Hardware.Quiet.{Same, Quiet, Succeeds}

-- A device between two events: the link answers, no channel is on two faders, a button that
-- blinks is lit, and the hardware agrees with the profile.
pub record IsSound (d : Device) : Type 0 where
  pub link : d.link ≡ Link.reliable
  pub distinct : IsDistinct d.profile
  pub lit :
      (g : FaderName)
      → (get_mute_button_state d.profile g).muted_to_all ≡ true
      → (get_mute_button_state d.profile g).muted_to_x ≡ true
  pub agrees : Agrees d

pub IsSound-Same : {d e : Device} → Same d e → IsSound d → IsSound e
unfolding wanted wanted_off_fader get_fader_assignment get_mute_button_state mic_muted_by_cough
IsSound-Same s h = record {
  link = s.link ∙ h.link;
  distinct = rw s.faders h.distinct;
  lit = rw s.mute_buttons h.lit;
  agrees = record {
    on_fader = λ g. rw (s.mute_buttons, s.mute_chat, s.faders, s.states) (h.agrees.on_fader g);
    off_fader = λ c n. rw (s.mute_chat, s.states) (h.agrees.off_fader c (rw s.faders at n));
  };
}

-- From `d` to `e` the button of `f` came to `x` and `all`, and its channel to the state `s`.
pub record Effect (f : FaderName) (x all : Bool) (s : Option ChannelState) (d e : Device)
    : Type 0 where
  pub link : e.link ≡ d.link
  pub mute_chat : e.profile.mute_chat ≡ d.profile.mute_chat
  pub faders : e.profile.faders ≡ d.profile.faders
  pub others : (g : FaderName) → g ≢ f → e.profile.mute_buttons g ≡ d.profile.mute_buttons g
  pub state : is_on (e.profile.mute_buttons f).colour_map.state ≡ x
  pub blink : is_on (e.profile.mute_buttons f).colour_map.blink ≡ all
  pub function : (e.profile.mute_buttons f).mute_function ≡ (d.profile.mute_buttons f).mute_function
  pub here : channel_state (d.profile.faders f).channel e.sent ≡ s
  pub elsewhere :
      (c : ChannelName)
      → c ≢ (d.profile.faders f).channel
      → channel_state c e.sent ≡ channel_state c d.sent

pub Effect-Same :
    (f : FaderName) {x all : Bool} {s : Option ChannelState} {c d e : Device}
    → Effect f x all s c d
    → Same d e
    → Effect f x all s c e
Effect-Same f h k = record {
  link = k.link ∙ h.link;
  mute_chat = k.mute_chat ∙ h.mute_chat;
  faders = k.faders ∙ h.faders;
  others = λ g n. rw k.mute_buttons (h.others g n);
  state = rw k.mute_buttons h.state;
  blink = rw k.mute_buttons h.blink;
  function = rw k.mute_buttons h.function;
  here = k.states _ ∙ h.here;
  elsewhere = λ c n. k.states c ∙ h.elsewhere c n;
}

-- The state that the profile wants for the channel of a fader whose button is at `x` and `all`.
abbrev pub target : Device → FaderName → Bool → Bool → ChannelState
target d f x all = muted_if (
    (all || (x && is_all (d.profile.mute_buttons f).mute_function))
    || (((d.profile.faders f).channel == ChannelName.mic) && mic_muted_by_cough d.profile))

module _ (f : FaderName) (x all : Bool) {d e : Device} where
  Effect-on_fader :
      Effect f x all (some (target d f x all)) d e
      → IsSound d
      → (g : FaderName)
      → channel_state (get_fader_assignment e.profile g) e.sent ≡ some (wanted e.profile g)
  unfolding wanted get_mute_button_state get_fader_assignment mic_muted_by_cough
  Effect-on_fader k h g = elim (g ≟ f) [
    | yes q ↦ rw (q, k.faders, k.mute_chat, k.state, k.blink, k.function) k.here
    | no n ↦
        rw (k.others g n, k.faders, k.mute_chat)
          (k.elsewhere _ (λ q. n (h.distinct g f q)) ∙ h.agrees.on_fader g)
  ]

  Effect-lit :
      Effect f x all (some (target d f x all)) d e
      → (all ≡ true → x ≡ true)
      → IsSound d
      → (g : FaderName) → is_on (e.profile.mute_buttons g).colour_map.blink ≡ true
      → is_on (e.profile.mute_buttons g).colour_map.state ≡ true
  unfolding get_mute_button_state
  Effect-lit k w h g b = elim (g ≟ f) [
    | yes q ↦ rw (q, k.state) (w (sym k.blink ∙ (rw q at b)))
    | no n ↦ rw (k.others g n) (h.lit g (rw (k.others g n) at b))
  ]

  -- A handler that leaves the channel as its button now wants it keeps the device sound.
  pub IsSound-Effect :
      Effect f x all (some (target d f x all)) d e → (all ≡ true → x ≡ true) → IsSound d → IsSound e
  unfolding get_mute_button_state get_fader_assignment wanted_off_fader mic_muted_by_cough
  IsSound-Effect k w h = record {
    link = k.link ∙ h.link;
    distinct = rw k.faders h.distinct;
    lit = Effect-lit k w h;
    agrees = record {
      on_fader = Effect-on_fader k h;
      off_fader = λ c n. rw k.mute_chat (
          k.elsewhere c (λ q. (rw k.faders at n) f (sym q))
          ∙ h.agrees.off_fader c (rw k.faders at n));
    };
  }

-- The quiet end of a handler, after such an effect.
pub Succeeds-end :
    (f : FaderName) (x all : Bool) (s : ChannelState) {m : Action Done} {d : Device} (e : Device)
    → Quiet m
    → Effect f x all (some s) d e
    → s ≡ target d f x all
    → (all ≡ true → x ≡ true)
    → IsSound d
    → Succeeds IsSound m e
Succeeds-end f x all s e q k t w h = record {
  done = q.succeeds e (k.link ∙ h.link);
  post = IsSound-Same (q.same e (k.link ∙ h.link)) (IsSound-Effect f x all (rw t at k) w h);
}
