-- ===== src/Device/Inputs.antt =====
-- The presses, holds and releases that a device reports: the end of `update_state` and the buttons of
-- `monitor_inputs`, daemon/src/device.rs. The result is the calls of the handlers, in their order. No
-- handler touches the state of the buttons, and an error of one is only logged, so that the calls do
-- not depend on what they do. The clock is read once for the buttons of a call.
pub mod Visits
pub mod Phases
pub mod Held
use goxlr_utility.Base.{
  ℕ, Bool, true, false, not, ◌&&◌, ◌-◌, ltb, List, [], ◌∷◌, ◌++◌, ◌==◌, update, if◌then◌else◌,
}
use goxlr_utility.Usb.{Buttons, buttons_enumeration}

pub record ButtonState : Type 0 where
  pub press_time : ℕ
  pub hold_handled : Bool

-- the fields of `Device` that are about buttons
pub record Inputs : Type 0 where
  pub button_states : Buttons → ButtonState
  pub last_buttons : Buttons → Bool
  pub hold_time : ℕ

-- `on_button_down`, `on_button_hold` and `on_button_up` with the state's `hold_handled`
pub data Call : Type 0 where
  down : Buttons → Call
  hold : Buttons → Call
  up : Buttons → Bool → Call

-- An `EnumSet` is walked in the order of the discriminants.
abbrev pub set_order : List Buttons
set_order =
    Buttons.effect_select1 ∷ Buttons.effect_select5 ∷ Buttons.sampler_select_a
    ∷ Buttons.sampler_top_left ∷ Buttons.fader1_mute ∷ Buttons.effect_select2
    ∷ Buttons.effect_select6 ∷ Buttons.sampler_select_b ∷ Buttons.sampler_top_right
    ∷ Buttons.fader2_mute ∷ Buttons.effect_select3 ∷ Buttons.effect_robot ∷ Buttons.sampler_select_c
    ∷ Buttons.sampler_bottom_right ∷ Buttons.fader3_mute ∷ Buttons.effect_select4
    ∷ Buttons.effect_hard_tune ∷ Buttons.sampler_bottom_left ∷ Buttons.sampler_clear
    ∷ Buttons.fader4_mute ∷ Buttons.effect_megaphone ∷ Buttons.effect_fx ∷ Buttons.bleep
    ∷ Buttons.microphone_mute ∷ []

-- The body of a loop over buttons: the state it leaves, and the calls it makes.
abbrev pub Visit : Type 0
Visit = Buttons → ButtonState → ButtonState × List Call

abbrev pub visit :
    Visit → List Buttons → (Buttons → ButtonState) → (Buttons → ButtonState) × List Call
visit step [] states = (states, [])
visit step (button ∷ rest) states =
    let (state, calls) = step button (states button) in
    let (after, more) = visit step rest (update states button state) in (after, calls ++ more)

-- A held button is handled once.
abbrev pub hold_if : Bool → Buttons → ButtonState → ButtonState × List Call
hold_if false button state = (state, [])
hold_if true button state = (record state { hold_handled = true }, hold button ∷ [])

abbrev pub press_if : Bool → ℕ → Buttons → ButtonState → ButtonState × List Call
press_if false now button state = (state, [])
press_if true now button state =
    (record { press_time = now; hold_handled = false }, down button ∷ [])

abbrev pub release_if : Bool → Buttons → ButtonState → ButtonState × List Call
release_if false button state = (state, [])
release_if true button state =
    (record { press_time = 0; hold_handled = false }, up button state.hold_handled ∷ [])

unfoldable pub check_hold : ℕ → Inputs → Visit
check_hold now s button state =
    hold_if
      (s.last_buttons button && not state.hold_handled && ltb s.hold_time (now - state.press_time))
      button state

unfoldable pub check_press : ℕ → (Buttons → Bool) → Inputs → Visit
check_press now pressed s button state =
    press_if (pressed button && not (s.last_buttons button)) now button state

unfoldable pub check_release : (Buttons → Bool) → Inputs → Visit
check_release pressed s button state =
    release_if (s.last_buttons button && not (pressed button)) button state

-- the end of `update_state`
unfoldable pub update_holds : ℕ → Inputs → Inputs × List Call
update_holds now s =
    let (states, calls) = visit (check_hold now s) set_order s.button_states in
    (record s { button_states = states }, calls)

-- the loops of `monitor_inputs`
unfoldable pub monitor_buttons : ℕ → (Buttons → Bool) → Inputs → Inputs × List Call
monitor_buttons now pressed s =
    let (states, downs) = visit (check_press now pressed s) set_order s.button_states in
    let (after, ups) = visit (check_release pressed s) set_order states in
    (record s { button_states = after; last_buttons = pressed }, downs ++ ups)

-- The daemon's loop over time: it looks for holds, or reads the buttons.
pub data Tick : Type 0 where
  holds : ℕ → Tick
  reads : ℕ → (Buttons → Bool) → Tick

abbrev pub tick : Tick → Inputs → Inputs × List Call
tick (holds now) s = update_holds now s
tick (reads now pressed) s = monitor_buttons now pressed s

abbrev pub run_ticks : List Tick → Inputs → Inputs × List Call
run_ticks [] s = (s, [])
run_ticks (t ∷ rest) s =
    let (u, calls) = tick t s in let (v, more) = run_ticks rest u in (v, calls ++ more)
