-- ===== src/Usb/Perform/Guarantees.antt =====
-- What a caller of `perform_request` relies on.
use goxlr_utility.Base.{ℕ, ◌≤◌, ◌≡◌, Bool, none, some, List, arith}
use mathlib.Core.Path.{subst}
use goxlr_utility.Usb.Command.{Command}
use goxlr_utility.Usb.Wire.{ByteOrder}
use goxlr_utility.Usb.Perform.{Handle, GoxlrUsb, Outcome, ok, Returned, perform_request}
use goxlr_utility.Usb.Perform.Returns.{Ends}
use goxlr_utility.Usb.Perform.Indices.{Settled, Answered, Replies, depth}
use goxlr_utility.Usb.Perform.Replied.{perform_request-Replies}

module _ (le : ByteOrder) (usb : Handle) where
  Ends-at :
      {A : Type 0} (q : GoxlrUsb usb → Outcome A → Type 0) (m : Returned le usb A)
      (t : GoxlrUsb usb) (r : Outcome A)
      → Ends le usb q m
      → m ≡ some (t, r)
      → q t r
  Ends-at q m t r h e = subst (λ o. Ends le usb q o) e h

  depth-bound : (c : Command) (retry : Bool) (s : GoxlrUsb usb) → depth le usb c retry s ≤ 6
  depth-bound c retry s = ground arith

  module _ (fuel : ℕ) (enough : 6 ≤ fuel) (c : Command) (body : List ℕ) (retry : Bool)
      (s : GoxlrUsb usb) (h : s.command_count ≤ 65535) where
    replies : Ends le usb (Replies le usb c s) (perform_request le usb fuel c body retry s)
    replies =
        perform_request-Replies le usb fuel c body retry s (omega (arith, depth-bound c retry s)) h

    -- A request returns, whatever the device answers, when six nested calls are allowed and the
    -- counter is a u16.
    pub perform_request-returns : ¬ (perform_request le usb fuel c body retry s ≡ none)
    perform_request-returns e = subst (λ o. Ends le usb (Replies le usb c s) o) e replies

    module _ (t : GoxlrUsb usb) where
      -- Whatever a request returns, the polling is resumed and the counter is a u16, and zero if the
      -- request was a reset: for every fuel from six and every counter that is a u16.
      pub perform_request-Settled :
          (r : Outcome (List ℕ))
          → perform_request le usb fuel c body retry s ≡ some (t, r)
          → Settled le usb c t
      perform_request-Settled r e = (Ends-at (Replies le usb c s) _ t r replies e).0

      -- An answer that a request returns is the body of the last response read, and that response
      -- has the index in the counter, which is not zero unless the request was a reset: for every
      -- fuel from six and every counter that is a u16. The disconnect flag is as it was.
      pub perform_request-Answered :
          (answer : List ℕ)
          → perform_request le usb fuel c body retry s ≡ some (t, ok answer)
          → Answered le usb c s.disconnecting t answer
      perform_request-Answered answer e = (Ends-at (Replies le usb c s) _ t (ok answer) replies e).1
