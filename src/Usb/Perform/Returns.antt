-- ===== src/Usb/Perform/Returns.antt =====
-- What it means that a call on the device ends, and the calls that are made of other calls.
use goxlr_utility.Base.{Bool, true, false, none, some}
use goxlr_utility.Usb.Wire.{ByteOrder}
use goxlr_utility.Usb.Perform.{
  Handle, GoxlrUsb, Failure, Outcome, ok, err, Run, Returned, set_pause, then_try, then_resumed,
  succeeds,
}

module _ (le : ByteOrder) (usb : Handle) where
  -- The call has fuel, and what it returns satisfies the predicate.
  abbrev pub Ends : {A : Type 0} → (GoxlrUsb usb → Outcome A → Type 0) → Returned le usb A → Type 0
  Ends q none = ⊥
  Ends q (some (t, r)) = q t r

  module _ {A B : Type 0} (p : GoxlrUsb usb → Outcome A → Type 0)
      (q : GoxlrUsb usb → Outcome B → Type 0) where
    pub Ends-then_try :
        (m : Returned le usb A) (k : A → Run le usb B)
        → Ends p m
        → ((t : GoxlrUsb usb) (a : A) → p t (ok a) → Ends q (k a t))
        → ((t : GoxlrUsb usb) (e : Failure) → p t (err e) → q t (err e))
        → Ends q (then_try le usb m k)
    Ends-then_try none k h g e = absurd h
    Ends-then_try (some (t, ok a)) k h g e = g t a h
    Ends-then_try (some (t, err f)) k h g e = e t f h

    pub Ends-then_resumed :
        (m : Returned le usb A) (k : A → Run le usb B)
        → Ends p m
        → ((t : GoxlrUsb usb) (a : A) → p t (ok a) → Ends q (k a t))
        → ((t : GoxlrUsb usb) (e : Failure) → p t (err e) → q (set_pause le usb false t) (err e))
        → Ends q (then_resumed le usb m k)
    Ends-then_resumed none k h g e = absurd h
    Ends-then_resumed (some (t, ok a)) k h g e = g t a h
    Ends-then_resumed (some (t, err f)) k h g e = e t f h

  pub Ends-succeeds :
      {A : Type 0} (p : GoxlrUsb usb → Outcome A → Type 0)
      (q : GoxlrUsb usb → Outcome Bool → Type 0)
      → (m : Returned le usb A) → Ends p m
      → ((t : GoxlrUsb usb) (o : Outcome A) (b : Bool) → p t o → q t (ok b))
      → Ends q (succeeds le usb m)
  Ends-succeeds p q none h g = absurd h
  Ends-succeeds p q (some (t, ok a)) h g = g t (ok a) true h
  Ends-succeeds p q (some (t, err f)) h g = g t (err f) false h
