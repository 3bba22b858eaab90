-- ===== src/Device/Cough/Agreement.antt =====
-- The steps of `handle_cough_mute` and the mute state of the channels.
use goxlr_utility.Base.{◌≡◌, inl, inr, refl, ◌∙◌, Bool, false, Option, some, ◌∷◌, Bool-cases, arith}
use goxlr_utility.Types.{ChannelName, FaderName, is_all, channel_name_enumeration}
use goxlr_utility.Usb.{ChannelState, Request}
use goxlr_utility.Profile.{is_on}
use goxlr_utility.Profile.Mute.{
  set_mute_chat_button_on, set_mute_chat_button_blink, mic_muted_by_fader, mic_muted_by_cough,
  get_mute_button_state, is_mic_on_fader, get_mic_fader,
}
use goxlr_utility.Profile.Faders.{get_fader_assignment}
use goxlr_utility.Device.State.{Device, Action, Done, Link, ok, request, modify_profile}
use goxlr_utility.Device.Hardware.{channel_state, wanted, wanted_off_fader}
use goxlr_utility.Device.Hardware.Quiet.{
  Quiet, Succeeds, Succeeds-bind, Succeeds-eq, request-reliable,
}
use goxlr_utility.Device.Lights.{apply_mic_input_mute}
use goxlr_utility.Device.Mute.Steps.{apply_mic_input_mute-Quiet}
use goxlr_utility.Device.Mute.Effect.{IsSound}
use goxlr_utility.Device.Cough.{set_mic_state}
use goxlr_utility.Device.Cough.Effect.{KnowsMic, CoughEffect, CoughEffect-Same, mic_target}

module _ (x all : Bool) (d : Device) where
  abbrev pub Chat : Option ChannelState → Device → Type 0
  Chat s = CoughEffect x all s d

  pub set_on-Effect :
      (y : Bool) {s : Option ChannelState} (e : Device)
      → CoughEffect y all s d e
      → Succeeds (Chat s) (modify_profile (set_mute_chat_button_on x)) e
  unfolding set_mute_chat_button_on
  set_on-Effect y e k = record {
    done = refl;
    post = record {
      link = k.link;
      mute_buttons = k.mute_buttons;
      faders = k.faders;
      state = refl;
      blink = k.blink;
      function = k.function;
      behaviour = k.behaviour;
      mic_fader = k.mic_fader;
      here = k.here;
      elsewhere = k.elsewhere;
    };
  }

  pub set_blink-Effect :
      (b : Bool) {s : Option ChannelState} (e : Device)
      → CoughEffect x b s d e
      → Succeeds (Chat s) (modify_profile (set_mute_chat_button_blink all)) e
  unfolding set_mute_chat_button_blink
  set_blink-Effect b e k = record {
    done = refl;
    post = record {
      link = k.link;
      mute_buttons = k.mute_buttons;
      faders = k.faders;
      state = k.state;
      blink = ground arith;
      function = k.function;
      behaviour = k.behaviour;
      mic_fader = k.mic_fader;
      here = k.here;
      elsewhere = k.elsewhere;
    };
  }

  pub Quiet-Effect :
      {s : Option ChannelState} {m : Action Done} (e : Device)
      → e.link ≡ Link.reliable
      → Quiet m
      → Chat s e
      → Succeeds (Chat s) m e
  Quiet-Effect e l q k = record { done = q.succeeds e l; post = CoughEffect-Same k (q.same e l) }

  abbrev pub told : (t : ChannelState) → Action Done
  told t e = (ok tt, record e { sent = Request.set_channel_state ChannelName.mic t ∷ e.sent })

  pub told-Effect :
      {s : Option ChannelState} (t : ChannelState) (e : Device)
      → Chat s e
      → Succeeds (Chat (some t)) (told t) e
  told-Effect t e k = record {
    done = refl;
    post = record {
      link = k.link;
      mute_buttons = k.mute_buttons;
      faders = k.faders;
      state = k.state;
      blink = k.blink;
      function = k.function;
      behaviour = k.behaviour;
      mic_fader = k.mic_fader;
      here = ground arith;
      elsewhere = λ c n. ground (arith, k.elsewhere c n);
    };
  }

  pub set_mic_state-Effect :
      {s : Option ChannelState} (t : ChannelState) (e : Device)
      → d.link ≡ Link.reliable
      → Chat s e
      → Succeeds (Chat (some t)) (set_mic_state t) e
  unfolding set_mic_state
  set_mic_state-Effect t e l k =
      Succeeds-bind (Chat (some t)) (request (Request.set_channel_state ChannelName.mic t))
        apply_mic_input_mute
        (Succeeds-eq _ (told t) (request-reliable _ e (k.link ∙ l)) (told-Effect t e k))
        λ e1 k1. Quiet-Effect e1 (k1.link ∙ l) apply_mic_input_mute-Quiet k1

module _ (d : Device) (h : IsSound d) (m : KnowsMic d.profile) where
  abbrev pub on : Bool
  on = d.profile.mute_chat.cough_button_on

  abbrev pub blinking : Bool
  blinking = is_on d.profile.mute_chat.blink

  abbrev pub function_all : Bool
  function_all = is_all d.profile.mute_chat.cough_mute_source

  -- The microphone of a sound device has the state that the cough button and its fader want.
  mic_now : channel_state ChannelName.mic d.sent ≡ some (mic_target d on blinking)
  unfolding wanted wanted_off_fader get_mute_button_state get_fader_assignment mic_muted_by_cough
      mic_muted_by_fader
  mic_now = elim (Bool-cases (is_mic_on_fader d.profile)) [
    | inl e ↦ ground (arith, e, m.located e, h.agrees.on_fader (get_mic_fader d.profile))
    | inr e ↦ ground (arith, e, h.agrees.off_fader ChannelName.mic (λ g q. elsewhere_only g q e))
  ]
    where
      elsewhere_only :
          (g : FaderName)
          → get_fader_assignment d.profile g ≡ ChannelName.mic
          → is_mic_on_fader d.profile ≡ false
          → ⊥
      elsewhere_only g q e = cc (e, (m.on_fader g q).0)

  pub start :
      (x all : Bool)
      → on ≡ x
      → blinking ≡ all
      → CoughEffect x all (some (mic_target d on blinking)) d d
  start x all p q = record {
    link = refl;
    mute_buttons = refl;
    faders = refl;
    state = p;
    blink = q;
    function = refl;
    behaviour = refl;
    mic_fader = refl;
    here = mic_now;
    elsewhere = λ c n. refl;
  }
