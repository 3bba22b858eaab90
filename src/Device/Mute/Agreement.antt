-- ===== src/Device/Mute/Agreement.antt =====
-- `handle_fader_mute` and the mute state of the channels.
use Prim.Native.String.{◌++◌}
use goxlr_utility.Base.{
  ◌≡◌, ◌⊎◌, inl, inr, refl, Bool, true, false, Option, some, Bool-cases, arith,
}
use goxlr_utility.Types.{FaderName, fader_name_enumeration, channel_name_enumeration}
use goxlr_utility.Usb.{ChannelState}
use goxlr_utility.Profile.Mute.{get_mute_button_state, set_mute_button_on}
use goxlr_utility.Profile.Faders.{get_fader_assignment}
use goxlr_utility.Device.State.{Device, Action, Done, pure, ok, say, modify_profile, ◌>>◌}
use goxlr_utility.Device.Hardware.{channel_state}
use goxlr_utility.Device.Hardware.Quiet.{Succeeds, Succeeds-bind, Succeeds-eq}
use goxlr_utility.Device.Speech.{channel_display, tts_target}
use goxlr_utility.Device.Mute.{
  mute_fader_to_all, unmute_fader, settle_mute_to_x, mute_fader_to_x, press_action,
  handle_fader_mute,
}
use goxlr_utility.Device.Mute.Steps.{settle_mute_to_x-Quiet}
use goxlr_utility.Device.Mute.Effect.{IsSound, Effect, Succeeds-end, target}
use goxlr_utility.Device.Mute.ToAll.{
  lit, blinking, function_all, channel, here_now, mute_fader_to_all-IsSound,
}
use goxlr_utility.Device.Mute.Opening.{IsOpened, unmute_fader-IsOpened}

module _ (f : FaderName) (d : Device) (h : IsSound d) where
  light_button-Effect :
      (s : Option ChannelState) (message : _)
      → channel_state (channel f d h) d.sent ≡ s
      → blinking f d h ≡ false
      → Succeeds
          (Effect f true false s d)
          (say message >> modify_profile (set_mute_button_on f true))
          d
  unfolding set_mute_button_on
  light_button-Effect s message p b = record {
    done = refl;
    post = record {
      link = refl;
      mute_chat = refl;
      faders = refl;
      others = λ g n. ground arith;
      state = ground arith;
      blink = ground arith;
      function = ground arith;
      here = p;
      elsewhere = λ c n. refl;
    };
  }

  abbrev mute_to_x_steps : Action Done
  mute_to_x_steps = do
    (say (
          channel_display (channel f d h)
          ++ (" Muted" ++ tts_target (d.profile.mute_buttons f).mute_function))
        >> modify_profile (set_mute_button_on f true))
    settle_mute_to_x (channel f d h)

  mute_to_x_steps-IsSound :
      lit f d h ≡ false
      → blinking f d h ≡ false
      → function_all f d h ≡ false
      → Succeeds IsSound mute_to_x_steps d
  mute_to_x_steps-IsSound off still one =
      Succeeds-bind (Effect f true false (some (target d f (lit f d h) (blinking f d h))) d) _ _
        (light_button-Effect _ _ (here_now f d h) still)
        λ d1 k1.
          Succeeds-end f true false _ d1 (settle_mute_to_x-Quiet (channel f d h)) k1 (ground arith)
            (λ _. refl) h

  not_blinking : lit f d h ≡ false → blinking f d h ≡ false
  unfolding get_mute_button_state
  not_blinking off = ground (arith, h.lit f)

  pub mute_fader_to_x-IsSound : lit f d h ≡ false → Succeeds IsSound (mute_fader_to_x f) d
  unfolding mute_fader_to_x get_mute_button_state get_fader_assignment
  mute_fader_to_x-IsSound off = elim (Bool-cases (function_all f d h)) [
    | inl e ↦
        Succeeds-eq _ (mute_fader_to_all f false) (rw (not_blinking off, off, e) refl)
          (mute_fader_to_all-IsSound f false d h (inr e))
    | inr e ↦
        Succeeds-eq _ mute_to_x_steps (rw (not_blinking off, off, e) refl)
          (mute_to_x_steps-IsSound off (not_blinking off) e)
  ]

mute_then_idle :
    (f : FaderName) (held x all : Bool) (d : Device) (h : IsSound d)
    → ((e : Device) → press_action held x all f e ≡ (ok tt, e))
    → (held ≡ true) ⊎ (function_all f d h ≡ true)
    → Succeeds IsSound (mute_fader_to_all f held >> press_action held x all f) d
mute_then_idle f held x all d h idle w =
    Succeeds-bind IsSound (mute_fader_to_all f held) (press_action held x all f)
      (mute_fader_to_all-IsSound f held d h w)
      λ e k.
        Succeeds-eq (press_action held x all f) (pure tt) (idle e)
          (record { done = refl; post = k })

module _ (f : FaderName) (d : Device) (h : IsSound d) where
  held-IsSound : Succeeds IsSound (handle_fader_mute f true) d
  unfolding handle_fader_mute get_mute_button_state
  held-IsSound = elim (Bool-cases (blinking f d h)) [
    | inl e ↦ Succeeds-eq _ (pure tt) (rw e refl) (record { done = refl; post = h })
    | inr e ↦
        Succeeds-eq _
          (mute_fader_to_all f true >> press_action true (lit f d h) (function_all f d h) f)
          (rw e refl)
          (mute_then_idle f true (lit f d h) (function_all f d h) d h (λ e. refl) (inl refl))
  ]

  pressed-IsSound : Succeeds IsSound (handle_fader_mute f false) d
  unfolding handle_fader_mute get_mute_button_state
  pressed-IsSound = elim (Bool-cases (lit f d h)) [
    | inl on ↦ Succeeds-eq _ (unmute_fader f >> pure tt) (rw on refl) (
        Succeeds-bind (IsOpened f d) (unmute_fader f) (pure tt) (unmute_fader-IsOpened f d h)
          λ e k. record { done = refl; post = k.sound })
    | inr off ↦ elim (Bool-cases (function_all f d h)) [
      | inl e ↦
          Succeeds-eq _ (mute_fader_to_all f false >> press_action false false true f)
            (rw (off, e) refl) (mute_then_idle f false false true d h (λ e. refl) (inr e))
      | inr e ↦
          Succeeds-eq _ (mute_fader_to_x f) (rw (off, e) refl) (mute_fader_to_x-IsSound f d h off)
    ]
  ]

-- Pressing a fader's mute button, or holding it, succeeds in every sound device and leaves it
-- sound: each channel of the hardware is muted or not as the profile now wants it.
pub handle_fader_mute-IsSound :
    (f : FaderName) (held : Bool) (d : Device)
    → IsSound d
    → ((handle_fader_mute f held d).0 ≡ ok tt) × IsSound (handle_fader_mute f held d).1
handle_fader_mute-IsSound f true d h = ((held-IsSound f d h).done, (held-IsSound f d h).post)
handle_fader_mute-IsSound f false d h = ((pressed-IsSound f d h).done, (pressed-IsSound f d h).post)
