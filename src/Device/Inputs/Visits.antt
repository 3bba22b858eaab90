-- ===== src/Device/Inputs/Visits.antt =====
-- A loop over the buttons, seen from one of them.
use mathlib.Core.Path.{ap₂}
use goxlr_utility.Base.{
  ℕ, Bool, true, false, ◌≡◌, refl, ap, ◌∙◌, List, [], ◌∷◌, ◌++◌, ◌==◌, ◌≟◌, update, if◌then◌else◌,
  arith,
}
use goxlr_utility.Usb.{Buttons, Buttons-discrete, buttons_enumeration}
use goxlr_utility.Device.Inputs.{
  ButtonState, Call, down, hold, up, Visit, visit, set_order, check_hold, check_press,
  check_release, Inputs, update_holds, monitor_buttons,
}

abbrev pub button_of : Call → Buttons
button_of (down b) = b
button_of (hold b) = b
button_of (up b h) = b

-- The calls about one button.
abbrev pub calls_of : Buttons → List Call → List Call
calls_of b [] = []
calls_of b (c ∷ rest) = if button_of c == b then c ∷ calls_of b rest else calls_of b rest

pub calls_of-append :
    (b : Buttons) (xs ys : List Call) → calls_of b (xs ++ ys) ≡ calls_of b xs ++ calls_of b ys
calls_of-append b [] ys = refl
calls_of-append b (c ∷ xs) ys = ground (arith, calls_of-append b xs ys)

append_nil : (xs : List Call) → xs ++ [] ≡ xs
append_nil [] = refl
append_nil (c ∷ xs) = ap (λ r. c ∷ r) (append_nil xs)

-- A step makes calls about the button that it is at.
abbrev pub IsLocal : Visit → Type 0
IsLocal step =
    (b f : Buttons) (s : ButtonState)
    → calls_of b (step f s).1 ≡ (if f == b then (step f s).1 else [])

abbrev is_absent : Buttons → List Buttons → Bool
is_absent b [] = true
is_absent b (f ∷ rest) = if f == b then false else is_absent b rest

abbrev is_once : Buttons → List Buttons → Bool
is_once b [] = false
is_once b (f ∷ rest) = if f == b then is_absent b rest else is_once b rest

module _ (step : Visit) (local : IsLocal step) (b : Buttons) where
  visit-absent :
      (fs : List Buttons) (states : Buttons → ButtonState)
      → is_absent b fs ≡ true
      → ((visit step fs states).0 b ≡ states b) × (calls_of b (visit step fs states).1 ≡ [])
  visit-absent [] states h = (refl, refl)
  visit-absent (f ∷ rest) states h =
      let r = visit-absent rest (update states f (step f (states f)).0) (ground (arith, h)) in
      (
        ground (arith, r.0, h),
        ground (
          arith,
          calls_of-append b (step f (states f)).1
              (visit step rest (update states f (step f (states f)).0)).1,
          r.1,
          local b f (states f),
          h,
        ),
      )

  pub visit-once :
      (fs : List Buttons) (states : Buttons → ButtonState)
      → is_once b fs ≡ true
      → ((visit step fs states).0 b ≡ (step b (states b)).0)
        × (calls_of b (visit step fs states).1 ≡ (step b (states b)).1)
  visit-once [] states h = absurd (cc)
  visit-once (f ∷ rest) states h = elim (f ≟ b) [
    | yes e ↦
        let r = visit-absent rest (update states f (step f (states f)).0) (ground (arith, h, e)) in
        (
          ground (arith, r.0, e),
          ground (
            arith,
            calls_of-append b (step f (states f)).1
                (visit step rest (update states f (step f (states f)).0)).1,
            r.1,
            local b f (states f),
            append_nil (step f (states f)).1,
            e,
          ),
        )
    | no n ↦
        let r = visit-once rest (update states f (step f (states f)).0) (ground (arith, h, n)) in
        (
          ground (arith, r.0, n),
          ground (
            arith,
            calls_of-append b (step f (states f)).1
                (visit step rest (update states f (step f (states f)).0)).1,
            r.1,
            local b f (states f),
            n,
          ),
        )
  ]

pub set_order-once : (b : Buttons) → is_once b set_order ≡ true
unfolding Buttons-discrete
set_order-once Buttons.fader1_mute = refl
set_order-once _ = refl

pub check_hold-IsLocal : (now : ℕ) (s : Inputs) → IsLocal (check_hold now s)
unfolding check_hold
check_hold-IsLocal now s b f state = ground arith

pub check_press-IsLocal :
    (now : ℕ) (pressed : Buttons → Bool) (s : Inputs) → IsLocal (check_press now pressed s)
unfolding check_press
check_press-IsLocal now pressed s b f state = ground arith

pub check_release-IsLocal :
    (pressed : Buttons → Bool) (s : Inputs) → IsLocal (check_release pressed s)
unfolding check_release
check_release-IsLocal pressed s b f state = ground arith

-- What a tick makes of one button, and its calls about it.
pub update_holds-once :
    (now : ℕ) (s : Inputs) (b : Buttons)
    → ((update_holds now s).0.button_states b ≡ (check_hold now s b (s.button_states b)).0)
      × (calls_of b (update_holds now s).1 ≡ (check_hold now s b (s.button_states b)).1)
unfolding update_holds
update_holds-once now s b =
    visit-once (check_hold now s) (check_hold-IsLocal now s) b set_order s.button_states
      (set_order-once b)

pub monitor_buttons-once :
    (now : ℕ) (pressed : Buttons → Bool) (s : Inputs) (b : Buttons)
    → let after = check_press now pressed s b (s.button_states b) in
      ((monitor_buttons now pressed s).0.button_states b ≡ (check_release pressed s b after.0).0)
      × (calls_of b (monitor_buttons now pressed s).1
          ≡ after.1 ++ (check_release pressed s b after.0).1)
unfolding monitor_buttons
monitor_buttons-once now pressed s b =
    let v =
      visit-once (check_press now pressed s) (check_press-IsLocal now pressed s) b set_order
        s.button_states (set_order-once b) in
    let middle = visit (check_press now pressed s) set_order s.button_states in
    let w =
      visit-once (check_release pressed s) (check_release-IsLocal pressed s) b set_order middle.0
        (set_order-once b) in
    (
      w.0 ∙ ap (λ state. (check_release pressed s b state).0) v.0,
      calls_of-append b middle.1 (visit (check_release pressed s) set_order middle.0).1
          ∙ ap₂ (λ x y. x ++ y) v.1 (w.1 ∙ ap (λ state. (check_release pressed s b state).1) v.0),
    )
