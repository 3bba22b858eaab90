-- ===== src/Device/Commands/Reached.antt =====
-- The devices that the mute buttons' events and the commands lead to.
use mathlib.Core.Path.{subst}
use goxlr_utility.Base.{inl, inr, ap, sym}
use goxlr_utility.Device.State.{Device}
use goxlr_utility.Device.Cough.Branches.{IsReady}
use goxlr_utility.Device.Session.{Event, handle}
use goxlr_utility.Device.Session.Reached.{handle-IsReady}
use goxlr_utility.Device.Command.{GoxlrCommand}
use goxlr_utility.Device.Commands.{perform_command}
use goxlr_utility.Device.Commands.Agreement.{IsAllowed, perform_command-IsReady}

-- A device reaches the next by an event or by an allowed command, done or refused.
pub data Reaches : Device → Device → Type 0 where
  here : {d : Device} → Reaches d d
  event : {d e : Device} → Reaches d e → (v : Event) → Reaches d (handle v e).1
  command :
      {d e : Device}
      → Reaches d e
      → (c : GoxlrCommand) → IsAllowed c e
      → Reaches d (perform_command c e).1

command-IsReady :
    (c : GoxlrCommand) (e : Device) → IsReady e → IsAllowed c e → IsReady (perform_command c e).1
command-IsReady c e r a = elim (perform_command-IsReady c e r a) [
  | inl s ↦ s.1
  | inr q ↦ subst IsReady (sym (ap (λ t. t.1) q)) r
]

-- Every device that the events of the mute buttons and the allowed commands lead to from a ready
-- one, in any order and number, is ready: the hardware has every channel muted or not as the
-- profile wants it.
pub Reaches-IsReady : {d e : Device} → Reaches d e → IsReady d → IsReady e
Reaches-IsReady here r = r
Reaches-IsReady (event {e = e} l v) r = (handle-IsReady v e (Reaches-IsReady l r)).post
Reaches-IsReady (command {e = e} l c a) r = command-IsReady c e (Reaches-IsReady l r) a
