-- ===== src/Device/Inputs/Held.antt =====
-- A button that stays pressed, and its hold.
use mathlib.Core.Path.{ap₂}
use goxlr_utility.Base.{
  ℕ, ◌-◌, ◌<◌, Bool, true, false, not, ◌&&◌, ◌≡◌, refl, ap, ◌∙◌, List, [], ◌∷◌, ◌++◌, ltb, arith,
}
use goxlr_utility.Usb.{Buttons, buttons_enumeration}
use goxlr_utility.Device.Inputs.{
  ButtonState, Inputs, Call, down, hold, Tick, holds, reads, tick, run_ticks, hold_if, check_hold,
  check_press, check_release, update_holds, monitor_buttons,
}
use goxlr_utility.Device.Inputs.Visits.{
  calls_of, calls_of-append, update_holds-once, monitor_buttons-once,
}

-- Every reading of the ticks finds the button pressed.
abbrev pub IsHeld : Buttons → Tick → Type 0
IsHeld b (holds now) = Unit {0}
IsHeld b (reads now pressed) = pressed b ≡ true

abbrev pub Holding : Buttons → List Tick → Type 0
Holding b [] = Unit {0}
Holding b (k ∷ rest) = IsHeld b k × Holding b rest

-- The calls about a button that stays pressed, by whether its hold was handled before and after.
abbrev hold_calls : Buttons → Bool → Bool → List Call
hold_calls b false true = hold b ∷ []
hold_calls b _ _ = []

-- A state that a button has while it stays pressed, the next one, and the calls between them.
record Stays (b : Buttons) (s u : ButtonState) (calls : List Call) : Type 0 where
  since : u.press_time ≡ s.press_time
  kept : s.hold_handled ≡ true → u.hold_handled ≡ true
  made : calls ≡ hold_calls b s.hold_handled u.hold_handled

hold_if-Stays :
    (b : Buttons) (late handled : Bool) (t : ℕ)
    → let s : ButtonState = record { press_time = t; hold_handled = handled } in
      Stays b s (hold_if (not handled && late) b s).0 (hold_if (not handled && late) b s).1
hold_if-Stays b late true t = record { since = refl; kept = λ _. refl; made = refl }
hold_if-Stays b true false t = record { since = refl; kept = λ _. refl; made = refl }
hold_if-Stays b false false t = record { since = refl; kept = λ h. h; made = refl }

hold_calls_same : (b : Buttons) (h : Bool) → [] ≡ hold_calls b h h
hold_calls_same b true = refl
hold_calls_same b false = refl

still-Stays : (b : Buttons) (s : ButtonState) → Stays b s s []
still-Stays b s = record { since = refl; kept = λ h. h; made = hold_calls_same b s.hold_handled }

Stays-eq :
    (b : Buttons) {s u v : ButtonState} {cs ds : List Call}
    → u ≡ v
    → cs ≡ ds
    → Stays b s v ds
    → Stays b s u cs
Stays-eq b e f k = rw (e, f) k

module _ (b : Buttons) where
  -- The ticks that leave a pressed button pressed.
  holds-Stays :
      (now : ℕ) (s : Inputs)
      → s.last_buttons b ≡ true
      → Stays b
          (s.button_states b)
          ((update_holds now s).0.button_states b)
          (calls_of b (update_holds now s).1)
  unfolding check_hold
  holds-Stays now s p =
      let v = update_holds-once now s b in
      Stays-eq b v.0 v.1 (
        rw p (
          hold_if-Stays b (ltb s.hold_time (now - (s.button_states b).press_time))
            (s.button_states b).hold_handled (s.button_states b).press_time))

  reads-Stays :
      (now : ℕ) (pressed : Buttons → Bool) (s : Inputs)
      → s.last_buttons b ≡ true
      → pressed b ≡ true
      → Stays b
          (s.button_states b)
          ((monitor_buttons now pressed s).0.button_states b)
          (calls_of b (monitor_buttons now pressed s).1)
  unfolding check_press check_release
  reads-Stays now pressed s p q =
      let v = monitor_buttons-once now pressed s b in
      Stays-eq b v.0 v.1 (rw (p, q) (still-Stays b (s.button_states b)))

  -- The button is pressed since `t`, and held after `n`.
  record Pressed (t n : ℕ) (s : Inputs) : Type 0 where
    last : s.last_buttons b ≡ true
    since : (s.button_states b).press_time ≡ t
    time : s.hold_time ≡ n

  abbrev handled : Inputs → Bool
  handled s = (s.button_states b).hold_handled

  tick-Stays :
      (k : Tick) (s : Inputs)
      → s.last_buttons b ≡ true
      → IsHeld b k
      → Stays b (s.button_states b) ((tick k s).0.button_states b) (calls_of b (tick k s).1)
  tick-Stays (holds now) s p h = holds-Stays now s p
  tick-Stays (reads now pressed) s p h = reads-Stays now pressed s p h

  tick-Pressed :
      (t n : ℕ) (k : Tick) (s : Inputs) → Pressed t n s → IsHeld b k → Pressed t n (tick k s).0
  unfolding update_holds monitor_buttons
  tick-Pressed t n (holds now) s p h = record {
    last = p.last;
    since = (holds-Stays now s p.last).since ∙ p.since;
    time = p.time;
  }
  tick-Pressed t n (reads now pressed) s p h = record {
    last = h;
    since = (reads-Stays now pressed s p.last h).since ∙ p.since;
    time = p.time;
  }

  -- After its hold a button that stays pressed is left alone.
  settled :
      (t n : ℕ) (ticks : List Tick) (s : Inputs)
      → Holding b ticks
      → Pressed t n s
      → handled s ≡ true
      → calls_of b (run_ticks ticks s).1 ≡ []
  settled t n [] s h p e = refl
  settled t n (k ∷ rest) s (h, hs) p e =
      let st = tick-Stays k s p.last h in
      calls_of-append b (tick k s).1 (run_ticks rest (tick k s).0).1
      ∙ ap₂ (λ x y. x ++ y) (st.made ∙ handled_none _ _ e)
          (settled t n rest (tick k s).0 hs (tick-Pressed t n k s p h) (st.kept e))
    where
      handled_none : (x y : Bool) → x ≡ true → hold_calls b x y ≡ []
      handled_none x y e = rw e refl

  -- A tick that looks for holds late enough finds this one, or it is handled already.
  late-handled :
      (t n now : ℕ) (s : Inputs)
      → Pressed t n s
      → n < now - t
      → handled (update_holds now s).0 ≡ true
  unfolding check_hold
  late-handled t n now s p w =
      let v = update_holds-once now s b in ap (λ state. state.hold_handled) v.0 ∙ found (handled s)
    where
      found :
          (h : Bool)
          → (hold_if
              (s.last_buttons b && not h && ltb s.hold_time (now - (s.button_states b).press_time))
              b
              (record {
                press_time = (s.button_states b).press_time;
                hold_handled = h;
              })).0.hold_handled
            ≡ true
      found h = ground (arith, p.last, p.since, p.time, w)

  hold_calls_join :
      (x y : Bool)
      → (x ≡ true → y ≡ true)
      → hold_calls b x y ++ hold_calls b y true ≡ hold_calls b x true
  hold_calls_join true true k = refl
  hold_calls_join true false k = absurd (cc (k refl))
  hold_calls_join false true k = refl
  hold_calls_join false false k = refl

  late-once :
      (t n now : ℕ) (before after : List Tick) (s : Inputs)
      → Holding b before
      → Holding b after
      → Pressed t n s
      → n < now - t
      → calls_of b (run_ticks (before ++ (holds now ∷ after)) s).1 ≡ hold_calls b (handled s) true
  late-once t n now [] after s h ha p w =
      let st = tick-Stays (holds now) s p.last tt in
      let e = late-handled t n now s p w in
      calls_of-append b (update_holds now s).1 (run_ticks after (update_holds now s).0).1
      ∙ ap₂ (λ x y. x ++ y) (st.made ∙ ap (λ y. hold_calls b (handled s) y) e)
          (settled t n after (update_holds now s).0 ha (tick-Pressed t n (holds now) s p tt) e)
      ∙ append_none (handled s)
    where
      append_none : (x : Bool) → hold_calls b x true ++ [] ≡ hold_calls b x true
      append_none true = refl
      append_none false = refl
  late-once t n now (k ∷ before) after s (h, hs) ha p w =
      let st = tick-Stays k s p.last h in
      calls_of-append b (tick k s).1 (run_ticks (before ++ (holds now ∷ after)) (tick k s).0).1
      ∙ ap₂ (λ x y. x ++ y) st.made
          (late-once t n now before after (tick k s).0 hs ha (tick-Pressed t n k s p h) w)
      ∙ hold_calls_join (handled s) (handled (tick k s).0) st.kept

pressing :
    (b : Buttons) (t : ℕ) (pressed : Buttons → Bool) (s : Inputs)
    → s.last_buttons b ≡ false
    → pressed b ≡ true
    → ((monitor_buttons t pressed s).0.button_states b
        ≡ record { press_time = t; hold_handled = false })
      × (calls_of b (monitor_buttons t pressed s).1 ≡ down b ∷ [])
unfolding check_press check_release
pressing b t pressed s off on =
    let v = monitor_buttons-once t pressed s b in (v.0 ∙ rw (off, on) refl, v.1 ∙ rw (off, on) refl)

-- A button that is pressed at a time and stays pressed is handled as a press and then as a hold, once
-- each, when one of the ticks looks for holds more than the hold time after the press.
pub run_ticks-held :
    (b : Buttons) (t now : ℕ) (pressed : Buttons → Bool) (before after : List Tick) (s : Inputs)
    → s.last_buttons b ≡ false
    → pressed b ≡ true
    → Holding b before
    → Holding b after
    → s.hold_time < now - t
    → calls_of b (run_ticks (reads t pressed ∷ (before ++ (holds now ∷ after))) s).1
      ≡ down b ∷ hold b ∷ []
unfolding monitor_buttons
run_ticks-held b t now pressed before after s off on hb ha w =
    calls_of-append b (monitor_buttons t pressed s).1
      (run_ticks (before ++ (holds now ∷ after)) (monitor_buttons t pressed s).0).1
    ∙ ap₂ (λ x y. x ++ y) (pressing b t pressed s off on).1
        (late-once b t s.hold_time now before after u hb ha held w
          ∙ ap (λ state. hold_calls b state.hold_handled true) (pressing b t pressed s off on).0)
  where
    u : Inputs
    u = (monitor_buttons t pressed s).0

    held : Pressed b t s.hold_time u
    held = record {
      last = on;
      since = ap (λ state. state.press_time) (pressing b t pressed s off on).0;
      time = refl;
    }
