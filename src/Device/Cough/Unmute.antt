-- ===== src/Device/Cough/Unmute.antt =====
-- `unmute_chat_if_muted` and the cough button's light.
use Prim.Native.String.{String, ◌++◌}
use goxlr_utility.Base.{ap, ◌≡◌, refl, ◌∙◌, Bool, true, false, ◌||◌, if◌then◌else◌}
use goxlr_utility.Types.{ChannelName, InputDevice, is_all}
use goxlr_utility.Usb.{ChannelState, Request}
use goxlr_utility.Profile.Mute.{get_mute_chat_button_state, set_mute_chat_button_on}
use goxlr_utility.Device.State.{
  Device, Link, Action, Done, pure, when, say, modify_profile, request, ◌>>◌,
}
use goxlr_utility.Device.Hardware.Quiet.{
  Quiet, Succeeds, Succeeds-bind, Succeeds-eq, Succeeds-if, Quiet-say, request-reliable, Quiet-bind,
}
use goxlr_utility.Device.Routing.{apply_routing}
use goxlr_utility.Device.Lights.{apply_mic_input_mute}
use goxlr_utility.Device.Speech.{tts_target}
use goxlr_utility.Device.Mute.Steps.{apply_routing-Quiet, apply_mic_input_mute-Quiet}
use goxlr_utility.Device.Cough.{set_mic_state, cough_mute, handle_cough_mute, unmute_chat_if_muted}

record IsLit (d : Device) : Type 0 where
  link : d.link ≡ Link.reliable
  lit : (get_mute_chat_button_state d.profile).muted_to_x ≡ true

Quiet-IsLit : (m : Action Done) (d : Device) → Quiet m → IsLit d → Succeeds IsLit m d
unfolding get_mute_chat_button_state
Quiet-IsLit m d q k = record {
  done = q.succeeds d k.link;
  post = record {
    link = (q.same d k.link).link ∙ k.link;
    lit = rw (q.same d k.link).mute_chat k.lit;
  };
}

request-IsLit : (r : Request) (d : Device) → IsLit d → Succeeds IsLit (request r) d
unfolding get_mute_chat_button_state
request-IsLit r d k = record {
  done = rw (request-reliable r d k.link) refl;
  post = rw (request-reliable r d k.link) (record { link = k.link; lit = k.lit });
}

set_mic_state-IsLit : (t : ChannelState) (d : Device) → IsLit d → Succeeds IsLit (set_mic_state t) d
unfolding set_mic_state
set_mic_state-IsLit t d k =
    Succeeds-bind IsLit (request (Request.set_channel_state ChannelName.mic t)) apply_mic_input_mute
      (request-IsLit _ d k)
      λ d1 k1. Quiet-IsLit apply_mic_input_mute d1 apply_mic_input_mute-Quiet k1

if_first : {A : Type 0} (a b : Bool) (m k : A) → a ≡ true → (if a || b then m else k) ≡ m
if_first a b m k e = rw e refl

cough_mute-IsLit :
    (d : Device) → IsLit d → Succeeds IsLit (cough_mute (get_mute_chat_button_state d.profile)) d
unfolding cough_mute get_mute_chat_button_state set_mute_chat_button_on
cough_mute-IsLit d k =
    Succeeds-bind IsLit (modify_profile (set_mute_chat_button_on true)) (do told; announce)
      (record { done = refl; post = record { link = k.link; lit = refl } })
      λ d1 k1.
        Succeeds-bind IsLit told announce
          (Succeeds-if {Q = IsLit} (is_all d.profile.mute_chat.cough_mute_source) {k = pure tt}
            (λ e. set_mic_state-IsLit ChannelState.muted d1 k1)
            λ e. record { done = refl; post = k1 })
          λ d2 k2.
            Quiet-IsLit announce d2
              (Quiet-bind (say message) (apply_routing InputDevice.microphone) (Quiet-say message)
                (apply_routing-Quiet InputDevice.microphone))
              k2
  where
    message : String
    message = "Mic Muted" ++ tts_target d.profile.mute_chat.cough_mute_source

    told : Action Done
    told = when (is_all d.profile.mute_chat.cough_mute_source) (set_mic_state ChannelState.muted)

    announce : Action Done
    announce = do say message; apply_routing InputDevice.microphone

-- `unmute_chat_if_muted` never turns a lit cough button off: it reports a press, which waits for
-- the release where the button toggles, and lights the button where it is held.
pub unmute_chat_if_muted-stays_on :
    (d : Device)
    → d.link ≡ Link.reliable
    → (get_mute_chat_button_state d.profile).muted_to_x ≡ true
    → (get_mute_chat_button_state (unmute_chat_if_muted d).1.profile).muted_to_x ≡ true
unfolding unmute_chat_if_muted handle_cough_mute
unmute_chat_if_muted-stays_on d l e =
    (Succeeds-eq unmute_chat_if_muted press
      (ap (λ m. m d)
        (if_first (get_mute_chat_button_state d.profile).muted_to_x _
          (handle_cough_mute true false false false) (pure tt) e))
      (Succeeds-if (get_mute_chat_button_state d.profile).mute_toggle
        (λ _. record { done = refl; post = k }) λ _. cough_mute-IsLit d k)).post.lit
  where
    k : IsLit d
    k = record { link = l; lit = e }

    press : Action Done
    press =
        if (get_mute_chat_button_state d.profile).mute_toggle
        then pure tt
        else cough_mute (get_mute_chat_button_state d.profile)
