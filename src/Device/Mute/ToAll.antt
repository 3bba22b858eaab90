-- ===== src/Device/Mute/ToAll.antt =====
-- `mute_fader_to_all` and the mute state of the channels.
use Prim.Native.String.{◌++◌}
use goxlr_utility.Base.{
  ◌≡◌, ◌⊎◌, inl, inr, refl, ◌∙◌, Bool, true, false, not, ◌&&◌, ◌||◌, Option, some, Bool-cases,
  arith,
}
use goxlr_utility.Types.{
  FaderName, ChannelName, is_all, fader_name_enumeration, channel_name_enumeration,
}
use goxlr_utility.Usb.{ChannelState}
use goxlr_utility.Profile.{is_on}
use goxlr_utility.Profile.Mute.{
  get_mute_button_state, mic_muted_by_cough, set_mute_button_on, set_mute_button_blink,
  set_mute_previous_volume,
}
use goxlr_utility.Profile.Faders.{get_fader_assignment}
use goxlr_utility.Device.State.{
  Device, Action, Done, Link, pure, request, when, say, modify_profile, ◌>>◌,
}
use goxlr_utility.Device.Hardware.{channel_state, wanted}
use goxlr_utility.Device.Hardware.Quiet.{Succeeds, Succeeds-bind, Succeeds-eq, Quiet-say}
use goxlr_utility.Device.Speech.{channel_display}
use goxlr_utility.Device.Mute.{silence_fader, settle_mute, mute_fader_to_all}
use goxlr_utility.Device.Mute.Steps.{settle_mute-Quiet}
use goxlr_utility.Device.Mute.Effect.{IsSound, Effect, Effect-Same, Succeeds-end, target}

module _ (f : FaderName) (d : Device) (l : d.link ≡ Link.reliable) where
  abbrev silence : Action Done
  silence = silence_fader f (d.profile.faders f).channel

  silence_fader-Effect :
      (all : Bool)
      → is_on (d.profile.mute_buttons f).colour_map.blink ≡ all
      → Succeeds (Effect f true all (some ChannelState.muted) d) silence d
  unfolding silence_fader request set_mute_previous_volume set_mute_button_on
  silence_fader-Effect all b = record {
    done = ground arith;
    post = record {
      link = ground arith;
      mute_chat = ground arith;
      faders = ground arith;
      others = λ g n. ground arith;
      state = ground arith;
      blink = ground arith;
      function = ground arith;
      here = ground arith;
      elsewhere = λ c n. ground arith;
    };
  }

set_blink-Effect :
    (f : FaderName) (x all blink : Bool) {s : Option ChannelState} (d e : Device)
    → Effect f x all s d e
    → Succeeds
        (Effect f x (blink || all) s d)
        (when blink (modify_profile (set_mute_button_blink f true)))
        e
unfolding set_mute_button_blink
set_blink-Effect f x all false d e k = record { done = refl; post = k }
set_blink-Effect f x all true d e k = record {
  done = refl;
  post = record {
    link = k.link;
    mute_chat = k.mute_chat;
    faders = k.faders;
    others = λ g n. ground (arith, k.others g n);
    state = ground (arith, k.state);
    blink = ground arith;
    function = ground (arith, k.function);
    here = k.here;
    elsewhere = k.elsewhere;
  };
}

module _ (f : FaderName) (d : Device) (h : IsSound d) where
  abbrev pub lit : Bool
  lit = is_on (d.profile.mute_buttons f).colour_map.state

  abbrev pub blinking : Bool
  blinking = is_on (d.profile.mute_buttons f).colour_map.blink

  abbrev pub function_all : Bool
  function_all = is_all (d.profile.mute_buttons f).mute_function

  abbrev pub channel : ChannelName
  channel = (d.profile.faders f).channel

  -- The channel of a sound device has the state that its button wants.
  pub here_now : channel_state channel d.sent ≡ some (target d f lit blinking)
  unfolding wanted get_mute_button_state get_fader_assignment mic_muted_by_cough
  here_now = h.agrees.on_fader f

  unchanged :
      (x all : Bool) → lit ≡ x → blinking ≡ all → Effect f x all (some (target d f x all)) d d
  unchanged x all p q = record {
    link = refl;
    mute_chat = refl;
    faders = refl;
    others = λ g n. refl;
    state = p;
    blink = q;
    function = refl;
    here = rw (← p, ← q) here_now;
    elsewhere = λ c n. refl;
  }

  abbrev silence_unless_muted : Action Done
  silence_unless_muted = when (not (lit && function_all)) (silence f d h.link)

  silence_unless_muted-Effect :
      blinking ≡ false
      → Succeeds (Effect f true false (some ChannelState.muted) d) silence_unless_muted d
  silence_unless_muted-Effect b = elim (Bool-cases (lit && function_all)) [
    | inl e ↦ rw e (record { done = refl; post = muted_already e })
    | inr e ↦ rw e (silence_fader-Effect f d h.link false b)
  ]
    where
      muted_already : lit && function_all ≡ true → Effect f true false (some ChannelState.muted) d d
      muted_already e =
          let all_muted : function_all ≡ true = ground arith in
          rw all_muted at (unchanged true false (ground arith) b)

module _ (f : FaderName) (blink : Bool) (d : Device) (h : IsSound d) where
  abbrev mute_steps : Action Done
  mute_steps = do
    silence_unless_muted f d h
    say (channel_display (channel f d h) ++ " Muted")
    when blink (modify_profile (set_mute_button_blink f true))
    settle_mute (channel f d h)

  mute_steps-IsSound :
      blinking f d h ≡ false
      → (blink ≡ true) ⊎ (function_all f d h ≡ true)
      → Succeeds IsSound mute_steps d
  mute_steps-IsSound b w =
      Succeeds-bind (Effect f true false (some ChannelState.muted) d) _ _
        (silence_unless_muted-Effect f d h b)
        λ d1 e1.
          Succeeds-bind (Effect f true false (some ChannelState.muted) d) _ _ (said d1 e1) λ d2 e2.
            Succeeds-bind (Effect f true (blink || false) (some ChannelState.muted) d) _ _
              (set_blink-Effect f true false blink d d2 e2)
              λ d3 e3.
                Succeeds-end f true (blink || false) ChannelState.muted d3
                  (settle_mute-Quiet (channel f d h)) e3 (ground arith) (λ _. refl) h
    where
      said :
          (d1 : Device)
          → Effect f true false (some ChannelState.muted) d d1
          → Succeeds
              (Effect f true false (some ChannelState.muted) d)
              (say (channel_display (channel f d h) ++ " Muted"))
              d1
      said d1 e1 = record {
        done = refl;
        post = Effect-Same f e1 ((Quiet-say _).same d1 (e1.link ∙ h.link));
      }

  pub mute_fader_to_all-IsSound :
      (blink ≡ true) ⊎ (function_all f d h ≡ true) → Succeeds IsSound (mute_fader_to_all f blink) d
  unfolding mute_fader_to_all get_mute_button_state get_fader_assignment
  mute_fader_to_all-IsSound w = elim (Bool-cases (blinking f d h)) [
    | inl e ↦ Succeeds-eq _ (pure tt) (rw e refl) (record { done = refl; post = h })
    | inr e ↦ Succeeds-eq _ mute_steps (rw e refl) (mute_steps-IsSound e w)
  ]
