-- ===== src/Device/Inputs/Phases.antt =====
-- A button as a state machine with three states, which the calls of the handlers follow.
use goxlr_utility.Base.{ℕ, Bool, true, false, not, ◌&&◌, ◌≡◌, refl, ap, List, [], ◌∷◌, ◌++◌}
use goxlr_utility.Usb.{Buttons, buttons_enumeration}
use goxlr_utility.Device.Inputs.{
  Inputs, Call, down, hold, up, Tick, holds, reads, tick, run_ticks, hold_if, press_if, release_if,
  check_hold, check_press, check_release, update_holds, monitor_buttons,
}
use goxlr_utility.Device.Inputs.Visits.{
  calls_of, calls_of-append, update_holds-once, monitor_buttons-once,
}

pub data Phase : Type 0 where
  idle pressed held : Phase

abbrev phase_of : Bool → Bool → Phase
phase_of false handled = Phase.idle
phase_of true false = Phase.pressed
phase_of true true = Phase.held

abbrev pub phase : Buttons → Inputs → Phase
phase b s = phase_of (s.last_buttons b) (s.button_states b).hold_handled

-- A press, at most one hold, and a release that tells whether there was one.
pub data Follows (b : Buttons) : Phase → List Call → Phase → Type 0 where
  stay : {p : Phase} → Follows b p [] p
  press :
      {cs : List Call} {q : Phase}
      → Follows b Phase.pressed cs q
      → Follows b Phase.idle (down b ∷ cs) q
  keep :
      {cs : List Call} {q : Phase}
      → Follows b Phase.held cs q
      → Follows b Phase.pressed (hold b ∷ cs) q
  release :
      {cs : List Call} {q : Phase}
      → Follows b Phase.idle cs q
      → Follows b Phase.pressed (up b false ∷ cs) q
  let_go :
      {cs : List Call} {q : Phase}
      → Follows b Phase.idle cs q
      → Follows b Phase.held (up b true ∷ cs) q

Follows-append :
    {b : Buttons} {p q r : Phase} {cs ds : List Call}
    → Follows b p cs q
    → Follows b q ds r
    → Follows b p (cs ++ ds) r
Follows-append stay g = g
Follows-append (press f) g = press (Follows-append f g)
Follows-append (keep f) g = keep (Follows-append f g)
Follows-append (release f) g = release (Follows-append f g)
Follows-append (let_go f) g = let_go (Follows-append f g)

-- The calls and the phase that are rewritten to those of one button.
Follows-eq :
    {b : Buttons} {p q r : Phase} {cs ds : List Call}
    → cs ≡ ds
    → q ≡ r
    → Follows b p ds r
    → Follows b p cs q
Follows-eq e f g = rw (e, f) g

module _ (b : Buttons) where
  hold_if-Follows :
      (l late handled : Bool) (t : ℕ)
      → Follows b
          (phase_of l handled)
          (hold_if
            (l && not handled && late)
            b
            (record { press_time = t; hold_handled = handled })).1
          (phase_of l
            (hold_if
              (l && not handled && late)
              b
              (record { press_time = t; hold_handled = handled })).0.hold_handled)
  hold_if-Follows false late handled t = stay
  hold_if-Follows true late true t = stay
  hold_if-Follows true false false t = stay
  hold_if-Follows true true false t = keep stay

  -- The loop over the presses leaves the last buttons of before, the one over the releases those of
  -- now; so both are looked at together.
  buttons-Follows :
      (l now : Bool) (handled : Bool) (t time : ℕ)
      → let after =
          press_if (now && not l) time b (record { press_time = t; hold_handled = handled }) in
        Follows b
          (phase_of l handled)
          (after.1 ++ (release_if (l && not now) b after.0).1)
          (phase_of now (release_if (l && not now) b after.0).0.hold_handled)
  buttons-Follows false false handled t time = stay
  buttons-Follows false true handled t time = press stay
  buttons-Follows true true handled t time = stay
  buttons-Follows true false true t time = let_go stay
  buttons-Follows true false false t time = release stay

  update_holds-Follows :
      (now : ℕ) (s : Inputs)
      → Follows b (phase b s) (calls_of b (update_holds now s).1) (phase b (update_holds now s).0)
  unfolding check_hold update_holds
  update_holds-Follows now s =
      let v = update_holds-once now s b in
      Follows-eq v.1 (ap (λ state. phase_of (s.last_buttons b) state.hold_handled) v.0) (
        hold_if-Follows (s.last_buttons b) _ (s.button_states b).hold_handled
          (s.button_states b).press_time)

  monitor_buttons-Follows :
      (now : ℕ) (down_now : Buttons → Bool) (s : Inputs)
      → Follows b
          (phase b s)
          (calls_of b (monitor_buttons now down_now s).1)
          (phase b (monitor_buttons now down_now s).0)
  unfolding monitor_buttons check_press check_release
  monitor_buttons-Follows now down_now s =
      let v = monitor_buttons-once now down_now s b in
      Follows-eq v.1 (ap (λ state. phase_of (down_now b) state.hold_handled) v.0) (
        buttons-Follows (s.last_buttons b) (down_now b) (s.button_states b).hold_handled
          (s.button_states b).press_time now)

  tick-Follows :
      (t : Tick) (s : Inputs)
      → Follows b (phase b s) (calls_of b (tick t s).1) (phase b (tick t s).0)
  tick-Follows (holds now) s = update_holds-Follows now s
  tick-Follows (reads now down_now) s = monitor_buttons-Follows now down_now s

-- Over any ticks of the daemon's loop, the calls about a button follow its state machine: a press is
-- handled once, then a hold at most once, and the release tells whether the hold was handled.
pub run_ticks-Follows :
    (b : Buttons) (ticks : List Tick) (s : Inputs)
    → Follows b (phase b s) (calls_of b (run_ticks ticks s).1) (phase b (run_ticks ticks s).0)
run_ticks-Follows b [] s = stay
run_ticks-Follows b (t ∷ rest) s =
    Follows-eq (calls_of-append b (tick t s).1 (run_ticks rest (tick t s).0).1) refl
      (Follows-append (tick-Follows b t s) (run_ticks-Follows b rest (tick t s).0))
