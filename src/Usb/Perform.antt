-- ===== src/Usb/Perform.antt =====
-- `perform_request` of usb/src/device/libusb/device.rs with the recursion it makes for a resync, a
-- reset of the command index and the check of the connection. The handle of rusb and the channel
-- that reports a disconnect are parameters, as is byteorder. The sleeps and the logs are left out.
pub mod Returns
pub mod Indices
pub mod Replied
pub mod Guarantees
pub mod Served
use goxlr_utility.Base.{
  ℕ, zero, suc, ◌%◌, ◌^◌, ◌+◌, ◌≡◌, refl, Bool, true, false, not, Option, none, some, List, [], ◌∷◌,
  eqb, ltb, length, take, drop, if◌then◌else◌,
}
use goxlr_utility.Usb.Command.{Command}
use goxlr_utility.Usb.Wire.{ByteOrder}
use goxlr_utility.Usb.Wire.Frame.{full_request}

-- `rusb::Error`, as far as the source tells its values apart
pub data UsbError : Type 0 where
  pipe : UsbError
  other : UsbError

-- the errors of a request: of the transfer, of the channel, or that there is no identifier
pub data Failure : Type 0 where
  usb : UsbError → Failure
  send : Failure
  no_identifier : Failure

pub data Outcome (A : Type 0) : Type 0 where
  ok : A → Outcome A
  err : Failure → Outcome A

pub data Transfer (A : Type 0) : Type 0 where
  done : A → Transfer A
  fault : UsbError → Transfer A

-- rusb and the channel: what each call does to the world outside and what it answers.
pub record Handle : Type 1 where
  pub World : Type 0
  pub write_control : World → List ℕ → World × Transfer (Unit {0})
  pub read_control : World → World × Transfer (List ℕ)
  pub active_configuration : World → World × Bool
  pub try_send : World → World × Bool

-- `GoXLRUSB`: the fields that a request reads or writes
pub record GoxlrUsb (usb : Handle) : Type 0 where
  pub world : usb.World
  pub has_identifier : Bool
  pub command_count : ℕ
  pub pause_polling : Bool
  pub stopping : Bool
  pub disconnecting : Bool

abbrev pub is_reset : Command → Bool
is_reset Command.reset_command_index = true
is_reset _ = false

module _ (le : ByteOrder) (usb : Handle) where
  -- What a call on the device returns. `none` stands for fuel that ran out.
  abbrev pub Returned : Type 0 → Type 0
  Returned A = Option (GoxlrUsb usb × Outcome A)

  abbrev pub Run : Type 0 → Type 0
  Run A = GoxlrUsb usb → Returned A

  -- `perform_request` as its own body calls it
  abbrev pub Perform : Type 0
  Perform = Command → List ℕ → Bool → Run (List ℕ)

  abbrev pub set_pause : Bool → GoxlrUsb usb → GoxlrUsb usb
  set_pause b s = record s { pause_polling = b }

  -- `?`: an error is returned, a result is passed on.
  abbrev pub then_try : {A B : Type 0} → Returned A → (A → Run B) → Returned B
  then_try none k = none
  then_try (some (t, err e)) k = some (t, err e)
  then_try (some (t, ok a)) k = k a t

  -- `if result.is_err() { pause_polling.store(false); return result; }`
  abbrev pub then_resumed : {A B : Type 0} → Returned A → (A → Run B) → Returned B
  then_resumed none k = none
  then_resumed (some (t, err e)) k = some (set_pause false t, err e)
  then_resumed (some (t, ok a)) k = k a t

  -- `result.is_ok()`
  abbrev pub succeeds : {A : Type 0} → Returned A → Returned Bool
  succeeds none = none
  succeeds (some (t, err e)) = some (t, ok false)
  succeeds (some (t, ok a)) = some (t, ok true)

  -- the reset that shows whether a configured device answers
  abbrev pub if_active : Perform → Bool → Run Bool
  if_active perform false s = some (s, ok false)
  if_active perform true s = succeeds (perform Command.reset_command_index [] false s)

  unfoldable pub is_connected : Perform → Run Bool
  is_connected perform s =
      let (w, active) = usb.active_configuration s.world in
      if_active perform active (record s { world = w })

  abbrev pub send_outcome : Bool → Outcome (Unit {0})
  send_outcome true = ok tt
  send_outcome false = err Failure.send

  -- the end of `trigger_disconnect`, of a device that does not answer
  abbrev pub report_if : Bool → Run (Unit {0})
  report_if false s = some (s, err Failure.no_identifier)
  report_if true s =
      let (w, sent) = usb.try_send s.world in
      some (record s { world = w; stopping = true }, send_outcome sent)

  abbrev pub settle_disconnect : Bool → Run (Unit {0})
  settle_disconnect true s = some (record s { disconnecting = false }, ok tt)
  settle_disconnect false s = report_if s.has_identifier s

  abbrev pub trigger_if : Perform → Bool → Run (Unit {0})
  trigger_if perform true s = some (s, ok tt)
  trigger_if perform false s =
      then_try (is_connected perform (record s { disconnecting = true })) settle_disconnect

  unfoldable pub trigger_disconnect : Perform → Run (Unit {0})
  trigger_disconnect perform s = trigger_if perform s.disconnecting s

  -- `pause_polling.store(false); trigger_disconnect()?; Err(error)`
  unfoldable pub give_up : {A : Type 0} → Perform → UsbError → Run A
  give_up perform e s =
      then_try (trigger_disconnect perform (set_pause false s))
        (λ x t. some (t, err (Failure.usb e)))

  -- `self.command_count += 1`
  abbrev pub count_up : Run (Unit {0})
  count_up s = some (record s { command_count = (s.command_count + 1) % 2 ^ 16 }, ok tt)

  abbrev pub count_on : Perform → Bool → Run (Unit {0})
  count_on perform false s = count_up s
  count_on perform true s =
      then_resumed (perform Command.reset_command_index [] false s) (λ x. count_up)

  -- The command counter before the packet is built.
  abbrev pub next_index : Perform → Bool → Run (Unit {0})
  next_index perform true s = some (record s { command_count = 0 }, ok tt)
  next_index perform false s = count_on perform (eqb s.command_count 65535) s

  abbrev pub if_written : Perform → Transfer (Unit {0}) → Run (Unit {0})
  if_written perform (done x) s = some (s, ok tt)
  if_written perform (fault e) s = give_up perform e s

  unfoldable pub write_request : Perform → List ℕ → Run (Unit {0})
  write_request perform request s =
      let (w, written) = usb.write_control s.world request in
      if_written perform written (record s { world = w })

  -- `for i in 0..20`, with the number of attempts that are left after this one
  -- and with the last answer
  unfoldable pub read_again : ℕ → usb.World × Transfer (List ℕ) → usb.World × Transfer (List ℕ)
  read_again zero (w, answer) = (w, answer)
  read_again (suc left) (w, done bytes) = (w, done bytes)
  read_again (suc left) (w, fault UsbError.other) = (w, fault UsbError.other)
  read_again (suc left) (w, fault UsbError.pipe) = read_again left (usb.read_control w)

  -- the index in a header of sixteen bytes; `none` where the response is shorter
  unfoldable pub response_index : List ℕ → Option ℕ
  response_index bytes =
      if ltb (length bytes) 16
      then none
      else elim (le.read_u16 (take 2 (drop 6 bytes))) [ none ↦ none | some (i, rest) ↦ some i ]

  -- an answer with another index: one resync and one more attempt
  abbrev pub resync : Perform → Command → List ℕ → Bool → Run (List ℕ)
  resync perform command body true s = give_up perform UsbError.other s
  resync perform command body false s =
      then_resumed (perform Command.reset_command_index [] true s)
        (λ x t. then_resumed (perform command body true t) (λ answer u. some (u, ok answer)))

  abbrev pub if_matching : Perform → Command → List ℕ → Bool → List ℕ → Bool → Run (List ℕ)
  if_matching perform command body retry response true s = some (set_pause false s, ok response)
  if_matching perform command body retry response false s = resync perform command body retry s

  -- The counter has not changed since the packet was built, so it is `command_index`.
  abbrev pub accept : Perform → Command → List ℕ → Bool → List ℕ → Option ℕ → Run (List ℕ)
  accept perform command body retry bytes none s = give_up perform UsbError.pipe s
  accept perform command body retry bytes (some i) s =
      if_matching perform command body retry (drop 16 bytes) (eqb i s.command_count) s

  abbrev pub receive : Perform → Command → List ℕ → Bool → Transfer (List ℕ) → Run (List ℕ)
  receive perform command body retry (fault e) s = give_up perform e s
  receive perform command body retry (done bytes) s =
      accept perform command body retry bytes (response_index bytes) s

  abbrev pub read_answer : Perform → Command → List ℕ → Bool → Run (List ℕ)
  read_answer perform command body retry s =
      let (w, answer) = read_again 19 (usb.read_control s.world) in
      receive perform command body retry answer (record s { world = w })

  -- the body of `perform_request`
  unfoldable pub exchange : Perform → Perform
  exchange perform command body retry s =
      then_try (next_index perform (is_reset command) (set_pause true s)) (λ x t.
        then_try (write_request perform (full_request le command body t.command_count) t)
          (λ y u. read_answer perform command body retry u))

  unfoldable pub perform_request : ℕ → Perform
  perform_request zero command body retry s = none
  perform_request (suc fuel) command body retry s =
      exchange (perform_request fuel) command body retry s
