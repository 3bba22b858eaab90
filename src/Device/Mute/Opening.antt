-- ===== src/Device/Mute/Opening.antt =====
-- `unmute_fader` and the mute state of the channels.
use goxlr_utility.Base.{
  ◌≡◌, inl, inr, refl, ◌∙◌, true, false, not, ◌&&◌, ◌||◌, Option, some, Bool-cases, arith,
}
use goxlr_utility.Types.{FaderName, fader_name_enumeration, channel_name_enumeration}
use goxlr_utility.Usb.{ChannelState}
use goxlr_utility.Profile.{is_on}
use goxlr_utility.Profile.Mute.{
  get_mute_button_state, mic_muted_by_cough, set_mute_button_on, set_mute_button_blink,
}
use goxlr_utility.Profile.Faders.{get_fader_assignment}
use goxlr_utility.Device.State.{Device, Action, Done, pure, request, when, ◌>>◌}
use goxlr_utility.Device.Hardware.{channel_state}
use goxlr_utility.Device.Hardware.Quiet.{Succeeds, Succeeds-bind, Succeeds-eq}
use goxlr_utility.Device.Lights.{apply_mic_input_mute}
use goxlr_utility.Device.Mute.{
  darken_button, reopen_channel, restore_volume, settle_unmute, unmute_fader,
}
use goxlr_utility.Device.Mute.Steps.{restore_volume-Quiet, settle_unmute-Quiet}
use goxlr_utility.Device.Mute.Effect.{IsSound, Effect, Effect-Same, IsSound-Effect, target}
use goxlr_utility.Device.Mute.ToAll.{lit, blinking, function_all, channel, here_now}

-- From the sound `d` to the sound `e` the mute button of `f` went dark.
pub record IsOpened (f : FaderName) (d e : Device) : Type 0 where
  pub sound : IsSound e
  pub mute_chat : e.profile.mute_chat ≡ d.profile.mute_chat
  pub faders : e.profile.faders ≡ d.profile.faders
  pub state : is_on (e.profile.mute_buttons f).colour_map.state ≡ false
  pub blink : is_on (e.profile.mute_buttons f).colour_map.blink ≡ false

darken_button-Effect :
    (f : FaderName) (d : Device) (s : Option ChannelState)
    → channel_state (d.profile.faders f).channel d.sent ≡ s
    → Succeeds (Effect f false false s d) (darken_button f) d
unfolding darken_button set_mute_button_on set_mute_button_blink
darken_button-Effect f d s p = record {
  done = refl;
  post = record {
    link = refl;
    mute_chat = refl;
    faders = refl;
    others = λ g n. ground arith;
    state = ground arith;
    blink = ground arith;
    function = ground arith;
    here = p;
    elsewhere = λ c n. refl;
  };
}

module _ (f : FaderName) (d : Device) (h : IsSound d) where
  -- The state of a channel that its fader no longer mutes.
  abbrev reopened : ChannelState
  reopened = target d f false false

  reopen_channel-Effect :
      (e : Device)
      → Effect f false false (some ChannelState.muted) d e
      → Succeeds (Effect f false false (some reopened) d) (reopen_channel (channel f d h)) e
  unfolding reopen_channel request apply_mic_input_mute mic_muted_by_cough
  reopen_channel-Effect e k = record {
    done = ground (arith, k.link, h.link);
    post = record {
      link = ground (arith, k.link, h.link);
      mute_chat = ground (arith, k.mute_chat, k.link, h.link);
      faders = ground (arith, k.faders, k.link, h.link);
      others = λ g n. ground (arith, k.others g n, k.link, h.link);
      state = ground (arith, k.state, k.link, h.link);
      blink = ground (arith, k.blink, k.link, h.link);
      function = ground (arith, k.function, k.link, h.link);
      here = ground (arith, k.here, k.mute_chat, k.link, h.link);
      elsewhere = λ c n. ground (arith, k.elsewhere c n, k.link, h.link);
    };
  }

  abbrev reopen_if_muted_to_all : Action Done
  reopen_if_muted_to_all =
      when (blinking f d h || function_all f d h)
        (do reopen_channel (channel f d h); restore_volume f (channel f d h))

  reopen_if-Effect :
      (e : Device)
      → not (lit f d h) && not (blinking f d h) ≡ false
      → Effect f false false (some (target d f (lit f d h) (blinking f d h))) d e
      → Succeeds (Effect f false false (some reopened) d) reopen_if_muted_to_all e
  reopen_if-Effect e on k = elim (Bool-cases (blinking f d h || function_all f d h)) [
    | inl p ↦ rw p (
        Succeeds-bind (Effect f false false (some reopened) d) _ _
          (reopen_channel-Effect e (rw (muted p) at k)) λ e1 k1. restored e1 k1)
    | inr p ↦ rw p (record { done = refl; post = rw (kept p) at k })
  ]
    where
      muted :
          blinking f d h || function_all f d h ≡ true
          → target d f (lit f d h) (blinking f d h) ≡ ChannelState.muted
      muted p = ground arith

      kept :
          blinking f d h || function_all f d h ≡ false
          → target d f (lit f d h) (blinking f d h) ≡ reopened
      kept p = ground arith

      restored :
          (e1 : Device)
          → Effect f false false (some reopened) d e1
          → Succeeds (Effect f false false (some reopened) d) (restore_volume f (channel f d h)) e1
      restored e1 k1 =
          let q = restore_volume-Quiet f (channel f d h) in
          let l = k1.link ∙ h.link in
          record { done = q.succeeds e1 l; post = Effect-Same f k1 (q.same e1 l) }

  abbrev unmute_steps : Action Done
  unmute_steps = do
    darken_button f
    reopen_if_muted_to_all
    settle_unmute (function_all f d h) (channel f d h)

  pub unmute_fader-IsOpened : Succeeds (IsOpened f d) (unmute_fader f) d
  unfolding unmute_fader get_mute_button_state get_fader_assignment
  unmute_fader-IsOpened = elim (Bool-cases (not (lit f d h) && not (blinking f d h))) [
    | inl e ↦ Succeeds-eq _ (pure tt) (rw e refl) (record {
      done = refl;
      post = record {
        sound = h;
        mute_chat = refl;
        faders = refl;
        state = ground (arith, e);
        blink = ground (arith, e);
      };
    })
    | inr e ↦ Succeeds-eq _ unmute_steps (rw e refl) (
        Succeeds-bind (Effect f false false (some (target d f (lit f d h) (blinking f d h))) d) _ _
          (darken_button-Effect f d _ (here_now f d h))
          λ d1 k1.
            Succeeds-bind (Effect f false false (some reopened) d) _ _ (reopen_if-Effect d1 e k1)
              λ d2 k2. opened d2 k2)
  ]
    where
      opened :
          (e : Device)
          → Effect f false false (some reopened) d e
          → Succeeds (IsOpened f d) (settle_unmute (function_all f d h) (channel f d h)) e
      opened e k =
          let q = settle_unmute-Quiet (function_all f d h) (channel f d h) in
          let o = Effect-Same f k (q.same e (k.link ∙ h.link)) in
          record {
            done = q.succeeds e (k.link ∙ h.link);
            post = record {
              sound = IsSound-Effect f false false o (λ p. cc) h;
              mute_chat = o.mute_chat;
              faders = o.faders;
              state = o.state;
              blink = o.blink;
            };
          }
