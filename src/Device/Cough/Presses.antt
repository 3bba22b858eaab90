-- ===== src/Device/Cough/Presses.antt =====
-- `handle_cough_mute` and the mute state of the channels.
use goxlr_utility.Base.{◌≡◌, refl, Bool, true, false, not, ◌||◌, arith, if◌then◌else◌}
use goxlr_utility.Profile.Mute.{MuteChatState, get_mute_chat_button_state}
use goxlr_utility.Device.State.{Device, Action, Done, pure, ok}
use goxlr_utility.Device.Hardware.Quiet.{Succeeds, Succeeds-eq, Succeeds-if}
use goxlr_utility.Device.Cough.{
  cough_mute, cough_held, cough_toggle_off, cough_let_go, handle_cough_mute,
}
use goxlr_utility.Device.Cough.Branches.{
  IsReady, x_now, all_now, toggle_now, cough_mute-IsReady, cough_held-IsReady, cough_let_go-IsReady,
  cough_toggle_off-IsReady,
}

module _ (d : Device) (r : IsReady d) where
  idle : Succeeds IsReady (pure tt) d
  idle = record { done = refl; post = r }

  abbrev state : MuteChatState
  state = get_mute_chat_button_state d.profile

  not_blinking : (toggle_now d r) ≡ false → (all_now d r) ≡ false
  unfolding get_mute_chat_button_state
  not_blinking = r.knows.still

  pressed-IsReady : Succeeds IsReady (if (toggle_now d r) then pure tt else cough_mute state) d
  pressed-IsReady =
      Succeeds-if (toggle_now d r) (λ e. idle) λ e. cough_mute-IsReady d r (not_blinking e)

  held-IsReady : Succeeds IsReady (if not (toggle_now d r) then pure tt else cough_held) d
  held-IsReady =
      Succeeds-if (not (toggle_now d r)) (λ e. idle) λ e. cough_held-IsReady d r (ground (arith, e))

  abbrev toggled : Action Done
  toggled = if (x_now d r) || (all_now d r) then cough_toggle_off state else cough_mute state

  toggled-IsReady : Succeeds IsReady toggled d
  toggled-IsReady =
      Succeeds-if ((x_now d r) || (all_now d r)) (λ e. cough_toggle_off-IsReady d r)
        λ e. cough_mute-IsReady d r (ground (arith, e))

  released-IsReady :
      (held_called : Bool)
      → Succeeds IsReady
          (if (toggle_now d r)
            then (if held_called then pure tt else toggled)
            else cough_let_go state)
          d
  released-IsReady held_called =
      Succeeds-if (toggle_now d r) (λ e. Succeeds-if held_called (λ q. idle) λ q. toggled-IsReady)
        λ e. cough_let_go-IsReady d r (not_blinking e)

  handled :
      (press release held held_called : Bool)
      → Succeeds IsReady (handle_cough_mute press release held held_called) d
  unfolding handle_cough_mute get_mute_chat_button_state
  handled true release held held_called =
      Succeeds-eq _ (if (toggle_now d r) then pure tt else cough_mute state) refl pressed-IsReady
  handled false release true held_called =
      Succeeds-eq _ (if not (toggle_now d r) then pure tt else cough_held) refl held-IsReady
  handled false true false held_called =
      Succeeds-eq _
        (if (toggle_now d r)
          then (if held_called then pure tt else toggled)
          else cough_let_go state)
        refl (released-IsReady held_called)
  handled false false false held_called = idle

-- Every event of the cough button (pressed, released, held, or released after a hold) succeeds in
-- every ready device and leaves it ready: the link is reliable, each channel of the hardware is
-- muted or not as the profile now wants it, and the button still knows the microphone's fader.
pub handle_cough_mute-IsReady :
    (press release held held_called : Bool) (d : Device)
    → IsReady d
    → ((handle_cough_mute press release held held_called d).0 ≡ ok tt)
      × IsReady (handle_cough_mute press release held held_called d).1
handle_cough_mute-IsReady press release held held_called d r =
    let s = handled d r press release held held_called in (s.done, s.post)
