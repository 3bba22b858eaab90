-- ===== src/Device/Cough/Effect.antt =====
-- What the cough button does to a device, as far as the mute state of its channels goes.
use goxlr_utility.Base.{
  ◌≡◌, ◌≢◌, ◌∙◌, Bool, true, false, ◌&&◌, ◌||◌, Option, some, arith, ◌≟◌, inl, inr, Bool-cases,
}
use goxlr_utility.Types.{
  FaderName, ChannelName, is_all, fader_name_enumeration, channel_name_enumeration,
}
use goxlr_utility.Usb.{ChannelState}
use goxlr_utility.Profile.{Profile, is_on}
use goxlr_utility.Profile.Mute.{
  get_mute_button_state, mic_muted_by_cough, mic_muted_by_fader, is_mic_on_fader, get_mic_fader,
  get_mute_chat_button_state,
}
use goxlr_utility.Profile.Faders.{get_fader_assignment}
use goxlr_utility.Device.State.{Device}
use goxlr_utility.Device.Hardware.{channel_state, muted_if, wanted, wanted_off_fader}
use goxlr_utility.Device.Hardware.Quiet.{Same}
use goxlr_utility.Device.Mute.Effect.{IsSound}

-- The cough button's settings know which fader has the microphone, if one has; and without toggle
-- the button does not blink.
pub record KnowsMic (p : Profile) : Type 0 where
  pub on_fader :
      (g : FaderName)
      → get_fader_assignment p g ≡ ChannelName.mic
      → (is_mic_on_fader p ≡ true) × (get_mic_fader p ≡ g)
  pub located :
      is_mic_on_fader p ≡ true → get_fader_assignment p (get_mic_fader p) ≡ ChannelName.mic
  pub still :
      (get_mute_chat_button_state p).mute_toggle ≡ false
      → (get_mute_chat_button_state p).muted_to_all ≡ false

pub KnowsMic-off_fader :
    {p : Profile}
    → KnowsMic p
    → ((g : FaderName) → get_fader_assignment p g ≢ ChannelName.mic)
    → is_mic_on_fader p ≡ false
KnowsMic-off_fader {p} m n = elim (Bool-cases (is_mic_on_fader p)) [
  | inl e ↦ absurd (n (get_mic_fader p) (m.located e))
  | inr e ↦ e
]

pub record CoughEffect (x all : Bool) (s : Option ChannelState) (d e : Device) : Type 0 where
  pub link : e.link ≡ d.link
  pub mute_buttons : e.profile.mute_buttons ≡ d.profile.mute_buttons
  pub faders : e.profile.faders ≡ d.profile.faders
  pub state : e.profile.mute_chat.cough_button_on ≡ x
  pub blink : is_on e.profile.mute_chat.blink ≡ all
  pub function : e.profile.mute_chat.cough_mute_source ≡ d.profile.mute_chat.cough_mute_source
  pub behaviour : e.profile.mute_chat.cough_behaviour ≡ d.profile.mute_chat.cough_behaviour
  pub mic_fader : e.profile.mute_chat.mic_fader_id ≡ d.profile.mute_chat.mic_fader_id
  pub here : channel_state ChannelName.mic e.sent ≡ s
  pub elsewhere :
      (c : ChannelName) → c ≢ ChannelName.mic → channel_state c e.sent ≡ channel_state c d.sent

pub CoughEffect-Same :
    {x all : Bool} {s : Option ChannelState} {c d e : Device}
    → CoughEffect x all s c d
    → Same d e
    → CoughEffect x all s c e
CoughEffect-Same h k = record {
  link = k.link ∙ h.link;
  mute_buttons = k.mute_buttons ∙ h.mute_buttons;
  faders = k.faders ∙ h.faders;
  state = rw k.mute_chat h.state;
  blink = rw k.mute_chat h.blink;
  function = rw k.mute_chat h.function;
  behaviour = rw k.mute_chat h.behaviour;
  mic_fader = rw k.mute_chat h.mic_fader;
  here = k.states _ ∙ h.here;
  elsewhere = λ c n. k.states c ∙ h.elsewhere c n;
}

-- The state that the microphone should have with the cough button at `x` and `all`.
abbrev pub mic_target : Device → Bool → Bool → ChannelState
mic_target d x all =
    muted_if
      ((all || (x && is_all d.profile.mute_chat.cough_mute_source)) || mic_muted_by_fader d.profile)

module _ (x all : Bool) {d e : Device} (k : CoughEffect x all (some (mic_target d x all)) d e)
    (h : IsSound d) (m : KnowsMic d.profile) where
  cough_on_fader :
      (g : FaderName)
      → channel_state (get_fader_assignment e.profile g) e.sent ≡ some (wanted e.profile g)
  unfolding wanted get_mute_button_state get_fader_assignment mic_muted_by_cough mic_muted_by_fader
  cough_on_fader g = elim ((d.profile.faders g).channel ≟ ChannelName.mic) [
    | yes q ↦
        rw (k.faders, k.mute_buttons)
          (ground (arith, q, k.here, k.state, k.blink, k.function, m.on_fader g q))
    | no n ↦
        rw (k.faders, k.mute_buttons)
          (ground (arith, n, k.elsewhere (d.profile.faders g).channel n, h.agrees.on_fader g))
  ]

  cough_off_fader :
      (c : ChannelName)
      → ((g : FaderName) → get_fader_assignment e.profile g ≢ c)
      → channel_state c e.sent ≡ some (wanted_off_fader e.profile c)
  unfolding wanted_off_fader get_fader_assignment mic_muted_by_cough mic_muted_by_fader
  cough_off_fader c n = elim (c ≟ ChannelName.mic) [
    | yes q ↦ rw q (
        ground (
          arith,
          q,
          k.here,
          k.state,
          k.blink,
          k.function,
          KnowsMic-off_fader m (rw (k.faders, q) at n),
        ))
    | no o ↦ ground (arith, k.elsewhere c o, h.agrees.off_fader c (rw k.faders at n))
  ]

  pub IsSound-CoughEffect : IsSound e
  unfolding get_mute_button_state get_fader_assignment
  IsSound-CoughEffect = record {
    link = k.link ∙ h.link;
    distinct = rw k.faders h.distinct;
    lit = rw k.mute_buttons h.lit;
    agrees = record { on_fader = cough_on_fader; off_fader = cough_off_fader };
  }

  pub KnowsMic-CoughEffect :
      ((get_mute_chat_button_state d.profile).mute_toggle ≡ false → all ≡ false)
      → KnowsMic e.profile
  unfolding get_mute_chat_button_state get_fader_assignment is_mic_on_fader get_mic_fader
  KnowsMic-CoughEffect t = record {
    on_fader = rw (k.faders, k.mic_fader) m.on_fader;
    located = rw (k.faders, k.mic_fader) m.located;
    still = rw (k.behaviour, k.blink) t;
  }
