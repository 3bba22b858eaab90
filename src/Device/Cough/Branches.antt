-- ===== src/Device/Cough/Branches.antt =====
-- The branches of `handle_cough_mute` and the mute state of the channels.
use Prim.Native.String.{String, ◌++◌}
use goxlr_utility.Base.{
  ◌≡◌, refl, ◌∙◌, Bool, true, false, not, ◌&&◌, ◌||◌, Option, some, arith, if◌then◌else◌,
}
use goxlr_utility.Types.{InputDevice}
use goxlr_utility.Usb.{ChannelState}
use goxlr_utility.Profile.Mute.{
  get_mute_chat_button_state, set_mute_chat_button_on, set_mute_chat_button_blink,
  mic_muted_by_fader, get_mute_button_state, is_mic_on_fader, get_mic_fader,
}
use goxlr_utility.Device.State.{Device, Action, Done, gets, when, say, modify_profile, ◌>>=◌, ◌>>◌}
use goxlr_utility.Device.Hardware.Quiet.{
  Succeeds, Succeeds-bind, Succeeds-eq, Quiet-say, Quiet-bind,
}
use goxlr_utility.Device.Routing.{apply_routing}
use goxlr_utility.Device.Speech.{tts_target}
use goxlr_utility.Device.Mute.Steps.{apply_routing-Quiet}
use goxlr_utility.Device.Mute.Effect.{IsSound}
use goxlr_utility.Device.Cough.{
  set_mic_state, cough_mute, cough_held, cough_toggle_off, cough_let_go,
}
use goxlr_utility.Device.Cough.Effect.{
  KnowsMic, CoughEffect, IsSound-CoughEffect, KnowsMic-CoughEffect, mic_target,
}
use goxlr_utility.Device.Cough.Agreement.{
  set_on-Effect, set_blink-Effect, Quiet-Effect, set_mic_state-Effect, on, blinking, function_all,
  start,
}

-- A sound device whose cough button knows the microphone's fader.
pub record IsReady (d : Device) : Type 0 where
  pub sound : IsSound d
  pub knows : KnowsMic d.profile

module _ (d : Device) (r : IsReady d) where
  abbrev pub x_now : Bool
  x_now = on d r.sound r.knows

  abbrev pub all_now : Bool
  all_now = blinking d r.sound r.knows

  abbrev function_now : Bool
  function_now = function_all d r.sound r.knows

  abbrev pub toggle_now : Bool
  toggle_now = (get_mute_chat_button_state d.profile).mute_toggle

  abbrev by_fader : Bool
  by_fader = mic_muted_by_fader d.profile

  abbrev Settled : Bool → Bool → Device → Type 0
  Settled x all = CoughEffect x all (some (mic_target d x all)) d

  abbrev announce : String → Action Done
  announce message = do say message; apply_routing InputDevice.microphone

  announce-IsReady :
      (x all : Bool) (message : String) (e : Device)
      → (toggle_now ≡ false → all ≡ false)
      → Settled x all e
      → Succeeds IsReady (announce message) e
  announce-IsReady x all message e t k =
      let q =
        Quiet-bind (say message) (apply_routing InputDevice.microphone) (Quiet-say message)
          (apply_routing-Quiet InputDevice.microphone) in
      let s = Quiet-Effect x all d e (k.link ∙ r.sound.link) q k in
      record {
        done = s.done;
        post = record {
          sound = IsSound-CoughEffect x all s.post r.sound r.knows;
          knows = KnowsMic-CoughEffect x all s.post r.sound r.knows t;
        };
      }

  retold :
      (x all : Bool) {s t : ChannelState} (e : Device)
      → s ≡ t
      → CoughEffect x all (some s) d e
      → CoughEffect x all (some t) d e
  retold x all e p k = rw p at k

  -- The microphone's state is sent where it changes.
  settle :
      (x all test : Bool) (t : ChannelState) (s : ChannelState) (e : Device)
      → CoughEffect x all (some s) d e
      → (if test then t else s) ≡ mic_target d x all
      → Succeeds (Settled x all) (when test (set_mic_state t)) e
  settle x all true t s e k p =
      let q = set_mic_state-Effect x all d t e r.sound.link k in
      record { done = q.done; post = retold x all _ p q.post }
  settle x all false t s e k p = record { done = refl; post = retold x all e p k }

  abbrev told_mute : Action Done
  told_mute =
      announce ("Mic Muted" ++ tts_target (get_mute_chat_button_state d.profile).mute_function)

  abbrev told_unmute : Action Done
  told_unmute = announce "Mic Unmuted"

  pub cough_mute-IsReady :
      all_now ≡ false → Succeeds IsReady (cough_mute (get_mute_chat_button_state d.profile)) d
  unfolding cough_mute get_mute_chat_button_state
  cough_mute-IsReady b =
      Succeeds-bind (CoughEffect true false (some (mic_target d x_now all_now)) d)
        (modify_profile (set_mute_chat_button_on true))
        (do when function_now (set_mic_state ChannelState.muted); told_mute)
        (set_on-Effect true false d x_now d (start d r.sound r.knows x_now false refl b))
        λ d1 k1.
          Succeeds-bind (Settled true false) (when function_now (set_mic_state ChannelState.muted))
            told_mute
            (settle true false function_now ChannelState.muted _ d1 k1 (ground (arith, b)))
            λ d2 k2.
              announce-IsReady true false
                ("Mic Muted" ++ tts_target (get_mute_chat_button_state d.profile).mute_function) d2
                (λ _. refl) k2

  pub cough_held-IsReady : toggle_now ≡ true → Succeeds IsReady cough_held d
  unfolding cough_held
  cough_held-IsReady t =
      Succeeds-bind (CoughEffect true all_now (some (mic_target d x_now all_now)) d) _ _
        (set_on-Effect true all_now d x_now d (start d r.sound r.knows x_now all_now refl refl))
        λ d1 k1.
          Succeeds-bind (CoughEffect true true (some (mic_target d x_now all_now)) d) _ _
            (set_blink-Effect true true d all_now d1 k1)
            λ d2 k2.
              Succeeds-bind (CoughEffect true true (some (mic_target d x_now all_now)) d)
                (say "Mic Muted") _
                (Quiet-Effect true true d d2 (k2.link ∙ r.sound.link) (Quiet-say "Mic Muted") k2)
                λ d3 k3.
                  Succeeds-bind (Settled true true) (set_mic_state ChannelState.muted) _
                    (settle true true true ChannelState.muted _ d3 k3 refl) λ d4 k4. routed d4 k4
    where
      routed :
          (e : Device)
          → Settled true true e
          → Succeeds IsReady (apply_routing InputDevice.microphone) e
      routed e k =
          let s =
            Quiet-Effect true true d e (k.link ∙ r.sound.link)
              (apply_routing-Quiet InputDevice.microphone) k in
          record {
            done = s.done;
            post = record {
              sound = IsSound-CoughEffect true true s.post r.sound r.knows;
              knows =
                  KnowsMic-CoughEffect true true s.post r.sound r.knows (λ u. absurd (cc (t, u)));
            };
          }

  -- Whether the fader mutes the microphone is not the cough button's business.
  by_fader-Effect :
      (x all : Bool) (s : Option ChannelState) (e : Device)
      → CoughEffect x all s d e
      → mic_muted_by_fader e.profile ≡ by_fader
  unfolding mic_muted_by_fader get_mute_button_state is_mic_on_fader get_mic_fader
  by_fader-Effect x all s e k = rw (k.mute_buttons, k.mic_fader) refl

  -- The end of the two ways to unmute.
  abbrev finish : Bool → Action Done
  finish test = do
    muted ← gets (λ e. mic_muted_by_fader e.profile)
    when (test && not muted) (set_mic_state ChannelState.unmuted)
    told_unmute

  abbrev finish_now : Bool → Action Done
  finish_now test = do when (test && not by_fader) (set_mic_state ChannelState.unmuted); told_unmute

  finish-IsReady :
      (test : Bool) (e : Device)
      → CoughEffect false false (some (mic_target d x_now all_now)) d e
      → (if test && not by_fader then ChannelState.unmuted else mic_target d x_now all_now)
        ≡ mic_target d false false
      → Succeeds IsReady (finish test) e
  finish-IsReady test e k p =
      Succeeds-eq (finish test) (finish_now test) (rw (by_fader-Effect false false _ e k) refl) (
        Succeeds-bind (Settled false false)
          (when (test && not by_fader) (set_mic_state ChannelState.unmuted)) told_unmute
          (settle false false (test && not by_fader) ChannelState.unmuted _ e k p)
          λ e1 k1. announce-IsReady false false "Mic Unmuted" e1 (λ _. refl) k1)

  pub cough_let_go-IsReady :
      all_now ≡ false → Succeeds IsReady (cough_let_go (get_mute_chat_button_state d.profile)) d
  unfolding cough_let_go get_mute_chat_button_state
  cough_let_go-IsReady b =
      Succeeds-bind (CoughEffect false false (some (mic_target d x_now all_now)) d)
        (modify_profile (set_mute_chat_button_on false)) (finish function_now)
        (set_on-Effect false false d x_now d (start d r.sound r.knows x_now false refl b))
        λ d1 k1. finish-IsReady function_now d1 k1 (ground (arith, b))

  pub cough_toggle_off-IsReady :
      Succeeds IsReady (cough_toggle_off (get_mute_chat_button_state d.profile)) d
  unfolding cough_toggle_off get_mute_chat_button_state
  cough_toggle_off-IsReady =
      Succeeds-bind (CoughEffect false all_now (some (mic_target d x_now all_now)) d)
        (modify_profile (set_mute_chat_button_on false))
        (do
          modify_profile (set_mute_chat_button_blink false)
          finish (all_now || (x_now && function_now)))
        (set_on-Effect false all_now d x_now d (start d r.sound r.knows x_now all_now refl refl))
        λ d1 k1.
          Succeeds-bind (CoughEffect false false (some (mic_target d x_now all_now)) d)
            (modify_profile (set_mute_chat_button_blink false))
            (finish (all_now || (x_now && function_now)))
            (set_blink-Effect false false d all_now d1 k1)
            λ d2 k2. finish-IsReady (all_now || (x_now && function_now)) d2 k2 (ground arith)
