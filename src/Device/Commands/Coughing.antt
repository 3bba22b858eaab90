-- ===== src/Device/Commands/Coughing.antt =====
-- The commands of the cough button and the mute state of the channels.
use mathlib.Core.Path.{subst}
use goxlr_utility.Base.{
  ◌≡◌, ◌≢◌, refl, sym, ap, ◌∙◌, Bool, true, false, ◌&&◌, ◌||◌, Option, some, if◌then◌else◌,
}
use goxlr_utility.Types.{InputDevice, MuteFunction, is_all}
use goxlr_utility.Usb.{ChannelState}
use goxlr_utility.Profile.{is_on, MuteChat}
use goxlr_utility.Profile.Mute.{
  get_mute_button_state, mic_muted_by_cough, get_mute_chat_button_state, mic_muted_by_fader,
  set_mute_chat_button_on, set_mute_chat_button_blink, set_chat_mute_button_behaviour,
  set_chat_mute_button_is_held, is_mic_on_fader, get_mic_fader,
}
use goxlr_utility.Profile.Faders.{get_fader_assignment}
use goxlr_utility.Device.State.{Device, Action, Done, ok, modify_profile, ◌>>◌}
use goxlr_utility.Device.Hardware.{wanted, wanted_off_fader}
use goxlr_utility.Device.Hardware.Quiet.{
  Quiet-bind, Succeeds, Succeeds-bind, Succeeds-eq, request-reliable,
}
use goxlr_utility.Device.Routing.{apply_routing}
use goxlr_utility.Device.Lights.{update_button_states}
use goxlr_utility.Device.Mute.Steps.{apply_routing-Quiet, update_button_states-Quiet}
use goxlr_utility.Device.Cough.{unmute_chat_if_muted}
use goxlr_utility.Device.Cough.Effect.{
  CoughEffect, mic_target, IsSound-CoughEffect, KnowsMic-CoughEffect,
}
use goxlr_utility.Device.Cough.Agreement.{
  Chat, set_on-Effect, set_blink-Effect, Quiet-Effect, told, told-Effect, on, blinking, start,
}
use goxlr_utility.Device.Cough.Branches.{IsReady}
use goxlr_utility.Device.Command.{MuteState}
use goxlr_utility.Device.Commands.{
  apply_mic_state, apply_cough_from_profile, cough_light, set_cough_state, change_cough_function,
}

false_ne_true : false ≢ true
false_ne_true e = absurd (cc e)

module _ (x all : Bool) (d : Device) (r : IsReady d)
    (toggles : (get_mute_chat_button_state d.profile).mute_toggle ≡ true) where
  mic_value :
      (e : Device) {s : Option ChannelState}
      → CoughEffect x all s d e
      → (if (is_on e.profile.mute_chat.blink
              || (e.profile.mute_chat.cough_button_on
                  && is_all e.profile.mute_chat.cough_mute_source))
            || mic_muted_by_fader e.profile
          then ChannelState.muted
          else ChannelState.unmuted)
        ≡ mic_target d x all
  unfolding mic_muted_by_fader is_mic_on_fader get_mic_fader get_mute_button_state
  mic_value e k = rw (k.state, k.blink, k.function, k.mute_buttons, k.mic_fader) refl

  apply_mic_state-Effect :
      (e : Device) {s : Option ChannelState}
      → CoughEffect x all s d e
      → Succeeds
          (Chat x all d (some (mic_target d x all)))
          (apply_mic_state (get_mute_chat_button_state e.profile))
          e
  unfolding apply_mic_state get_mute_chat_button_state
  apply_mic_state-Effect e k =
      Succeeds-eq _ (told x all d (mic_target d x all))
        (rw (mic_value e k) (request-reliable _ e (k.link ∙ r.sound.link)))
        (told-Effect x all d (mic_target d x all) e k)

  apply_cough-Effect :
      (e : Device) {s : Option ChannelState}
      → CoughEffect x all s d e
      → Succeeds (Chat x all d (some (mic_target d x all))) apply_cough_from_profile e
  unfolding apply_cough_from_profile get_mute_chat_button_state
  apply_cough-Effect e k =
      Succeeds-eq apply_cough_from_profile (apply_mic_state (get_mute_chat_button_state e.profile))
        (rw (k.behaviour, toggles) refl) (apply_mic_state-Effect e k)

  abbrev cough_tail : Action Done
  cough_tail = do apply_routing InputDevice.microphone; update_button_states

  settled-IsReady :
      (e : Device) → Chat x all d (some (mic_target d x all)) e → Succeeds IsReady cough_tail e
  settled-IsReady e k =
      let q =
        Quiet-bind _ _ (apply_routing-Quiet InputDevice.microphone) update_button_states-Quiet in
      let s = Quiet-Effect x all d e (k.link ∙ r.sound.link) q k in
      record {
        done = s.done;
        post = record {
          sound = IsSound-CoughEffect x all s.post r.sound r.knows;
          knows =
              KnowsMic-CoughEffect x all s.post r.sound r.knows
                (λ h. absurd (false_ne_true (sym h ∙ toggles)));
        };
      }

  lit_as-IsReady :
      Succeeds IsReady
        (do
          modify_profile (set_mute_chat_button_on x)
          modify_profile (set_mute_chat_button_blink all)
          apply_cough_from_profile
          cough_tail)
        d
  lit_as-IsReady =
      let s = mic_target d (on d r.sound r.knows) (blinking d r.sound r.knows) in
      Succeeds-bind (Chat x (blinking d r.sound r.knows) d (some s))
        (modify_profile (set_mute_chat_button_on x)) _
        (set_on-Effect x (blinking d r.sound r.knows) d (on d r.sound r.knows) d
          (start d r.sound r.knows (on d r.sound r.knows) (blinking d r.sound r.knows) refl refl))
        λ d1 k1.
          Succeeds-bind (Chat x all d (some s)) (modify_profile (set_mute_chat_button_blink all)) _
            (set_blink-Effect x all d (blinking d r.sound r.knows) d1 k1)
            λ d2 k2.
              Succeeds-bind (Chat x all d (some (mic_target d x all))) apply_cough_from_profile
                cough_tail (apply_cough-Effect d2 k2) settled-IsReady

pub set_cough_state-IsReady :
    (state : MuteState) (d : Device)
    → IsReady d
    → (get_mute_chat_button_state d.profile).mute_toggle ≡ true
    → Succeeds IsReady (set_cough_state state) d
unfolding set_cough_state
set_cough_state-IsReady state d r t =
    let s = lit_as-IsReady (cough_light state).0 (cough_light state).1 d r t in
    record { done = s.done; post = s.post }

-- The cough button mutes nothing.
abbrev pub IsCalm : Device → Type 0
IsCalm d =
    ((get_mute_chat_button_state d.profile).muted_to_x ≡ false)
    × ((get_mute_chat_button_state d.profile).muted_to_all ≡ false)

-- Then its other settings mean nothing to the channels.
chat-IsReady :
    (d : Device) (c : MuteChat)
    → IsCalm d
    → c.cough_button_on ≡ false
    → is_on c.blink ≡ false
    → c.mic_fader_id ≡ d.profile.mute_chat.mic_fader_id
    → IsReady d
    → IsReady (record d { profile = record d.profile { mute_chat = c } })
unfolding wanted wanted_off_fader get_fader_assignment mic_muted_by_cough get_mute_chat_button_state
    get_mute_button_state is_mic_on_fader get_mic_fader
chat-IsReady d c calm off still fader r = record {
  sound = record {
    link = r.sound.link;
    distinct = r.sound.distinct;
    lit = r.sound.lit;
    agrees = record {
      on_fader = λ g. r.sound.agrees.on_fader g ∙ rw (calm.0, calm.1, off, still) refl;
      off_fader = λ o n. r.sound.agrees.off_fader o n ∙ rw (calm.0, calm.1, off, still) refl;
    };
  };
  knows = record {
    on_fader = rw fader r.knows.on_fader;
    located = rw fader r.knows.located;
    still = λ _. still;
  };
}

calm-unmute_chat : (d : Device) → IsCalm d → unmute_chat_if_muted d ≡ (ok tt, d)
unfolding unmute_chat_if_muted get_mute_chat_button_state
calm-unmute_chat d calm = rw (calm.0, calm.1) refl

calm_then :
    (m : Action Done) (d : Device)
    → IsCalm d
    → Succeeds IsReady m d
    → Succeeds IsReady (unmute_chat_if_muted >> m) d
calm_then m d calm s =
    Succeeds-bind (λ e. e ≡ d) unmute_chat_if_muted m
      (record {
        done = ap (λ t. t.0) (calm-unmute_chat d calm);
        post = ap (λ t. t.1) (calm-unmute_chat d calm);
      })
      λ e q. subst (Succeeds IsReady m) (sym q) s

pub change_cough_function-IsReady :
    (b : MuteFunction) (d : Device)
    → IsCalm d
    → IsReady d
    → Succeeds IsReady (change_cough_function b) d
unfolding change_cough_function set_chat_mute_button_behaviour get_mute_chat_button_state
change_cough_function-IsReady b d calm r =
    calm_then (modify_profile (set_chat_mute_button_behaviour b)) d calm
      (record { done = refl; post = chat-IsReady d _ calm calm.0 calm.1 refl r })

pub is_held-IsReady :
    (b : Bool) (d : Device)
    → IsCalm d
    → IsReady d
    → Succeeds IsReady (unmute_chat_if_muted >> modify_profile (set_chat_mute_button_is_held b)) d
unfolding set_chat_mute_button_is_held get_mute_chat_button_state
is_held-IsReady b d calm r =
    calm_then (modify_profile (set_chat_mute_button_is_held b)) d calm
      (record { done = refl; post = chat-IsReady d _ calm calm.0 calm.1 refl r })
