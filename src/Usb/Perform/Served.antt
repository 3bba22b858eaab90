-- ===== src/Usb/Perform/Served.antt =====
-- A request to a device that answers every packet with the packet's index.
use goxlr_utility.Base.{
  ℕ, suc, ◌+◌, ◌%◌, ◌^◌, ◌≤◌, ◌≡◌, refl, Bool, true, false, some, List, [], drop, eqb, Bool-cases,
  inl, inr, arith,
}
use goxlr_utility.Usb.Command.{Command}
use goxlr_utility.Usb.Wire.{ByteOrder}
use goxlr_utility.Usb.Wire.Frame.{full_request}
use goxlr_utility.Usb.Perform.{
  Handle, GoxlrUsb, ok, done, Perform, Returned, is_reset, set_pause, response_index, read_again,
  next_index, write_request, exchange, perform_request,
}

module _ (le : ByteOrder) (usb : Handle) where
  -- The packet is written, and one of the twenty attempts to read finds a response with its index.
  pub record Served (w : usb.World) (packet : List ℕ) (i : ℕ) : Type 0 where
    pub after : usb.World
    pub later : usb.World
    pub response : List ℕ
    pub written : usb.write_control w packet ≡ (after, done tt)
    pub read : read_again le usb 19 (usb.read_control after) ≡ (later, done response)
    pub matching : response_index le usb response ≡ some i

  abbrev pub Serves : Type 0
  Serves =
      (w : usb.World) (c : Command) (body : List ℕ) (i : ℕ)
      → i ≤ 65535
      → Served w (full_request le c body i) i

  -- It returns an answer, with the polling resumed and the counter a u16.
  pub record IsAnswered (m : Returned le usb (List ℕ)) : Type 0 where
    pub state : GoxlrUsb usb
    pub answer : List ℕ
    pub returned : m ≡ some (state, ok answer)
    pub resumed : state.pause_polling ≡ false
    pub bound : state.command_count ≤ 65535

  module _ (serves : Serves) (perform : Perform le usb) (c : Command) (body : List ℕ)
      (retry : Bool) where
    -- From the counter on.
    sent-IsAnswered :
        (s t : GoxlrUsb usb)
        → next_index le usb perform (is_reset c) (set_pause le usb true s) ≡ some (t, ok tt)
        → t.command_count ≤ 65535
        → IsAnswered (exchange le usb perform c body retry s)
    unfolding exchange write_request
    sent-IsAnswered s t e b =
        let v = serves t.world c body t.command_count b in
        record {
          state = record t { world = v.later; pause_polling = false };
          answer = drop 16 v.response;
          returned = rw (e, v.written, v.read, v.matching, same t.command_count) refl;
          resumed = refl;
          bound = b;
        }
      where
        same : (n : ℕ) → eqb n n ≡ true
        same n = ground arith

  module _ (serves : Serves) where
    -- A request that sets the counter back, as a reset does.
    reset-IsAnswered :
        (k : ℕ) (c : Command) (body : List ℕ) (retry : Bool) (s : GoxlrUsb usb)
        → is_reset c ≡ true
        → IsAnswered (perform_request le usb (suc k) c body retry s)
    unfolding perform_request
    reset-IsAnswered k c body retry s e =
        sent-IsAnswered serves (perform_request le usb k) c body retry s
          (record s { pause_polling = true; command_count = 0 }) (rw e refl) (omega arith)

    counted : (n : ℕ) → (n + 1) % 2 ^ 16 ≤ 65535
    counted n = omega arith

    -- The counter is at its end: the request resets it first.
    full-IsAnswered :
        (k : ℕ) (c : Command) (body : List ℕ) (retry : Bool) (s : GoxlrUsb usb)
        → is_reset c ≡ false
        → eqb s.command_count 65535 ≡ true
        → IsAnswered (perform_request le usb (suc (suc k)) c body retry s)
    unfolding perform_request
    full-IsAnswered k c body retry s e f =
        let r =
          reset-IsAnswered k Command.reset_command_index [] false (set_pause le usb true s) refl in
        sent-IsAnswered serves (perform_request le usb (suc k)) c body retry s
          (record r.state { command_count = (r.state.command_count + 1) % 2 ^ 16 })
          (rw (e, f, r.returned) refl) (counted r.state.command_count)

    -- A request to a device that answers every packet with its index, within the twenty attempts to
    -- read, returns an answer: the polling is resumed and the counter is a u16. Two nested calls are
    -- enough.
    pub perform_request-IsAnswered :
        (k : ℕ) (c : Command) (body : List ℕ) (retry : Bool) (s : GoxlrUsb usb)
        → IsAnswered (perform_request le usb (suc (suc k)) c body retry s)
    unfolding perform_request
    perform_request-IsAnswered k c body retry s = elim (Bool-cases (is_reset c)) [
      | inl e ↦ reset-IsAnswered (suc k) c body retry s e
      | inr e ↦ elim (Bool-cases (eqb s.command_count 65535)) [
        | inl f ↦ full-IsAnswered k c body retry s e f
        | inr f ↦
            sent-IsAnswered serves (perform_request le usb (suc k)) c body retry s
              (record s { pause_polling = true; command_count = (s.command_count + 1) % 2 ^ 16 })
              (rw (e, f) refl) (counted s.command_count)
      ]
    ]
