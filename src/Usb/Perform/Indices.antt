-- ===== src/Usb/Perform/Indices.antt =====
-- The parts of a request, for any calls back into it that end as they should.
use goxlr_utility.Base.{ℕ, suc, ◌+◌, ◌≤◌, ◌≡◌, refl, Bool, true, false, some, List, [], drop, arith}
use goxlr_utility.Usb.Command.{Command}
use goxlr_utility.Usb.Wire.{ByteOrder}
use goxlr_utility.Usb.Perform.{
  Handle, GoxlrUsb, Failure, Outcome, ok, err, done, UsbError, Perform, is_reset, set_pause,
  response_index, is_connected, if_active, report_if, settle_disconnect, trigger_if,
  trigger_disconnect, give_up,
}
use goxlr_utility.Usb.Perform.Returns.{Ends, Ends-then_try, Ends-succeeds}

module _ (le : ByteOrder) (usb : Handle) where
  -- The counter is a u16, and it is zero after a reset.
  pub record IsCounted (c : Command) (s : GoxlrUsb usb) : Type 0 where
    pub bound : s.command_count ≤ 65535
    pub reset : is_reset c ≡ true → s.command_count ≡ 0

  -- The state that every call leaves: counted, and with the polling resumed.
  pub record Settled (c : Command) (s : GoxlrUsb usb) : Type 0 where
    pub counted : IsCounted c s
    pub resumed : s.pause_polling ≡ false

  -- An answer is the body of the last response read, and the index of that response is the one of
  -- the request.
  pub record Answered (c : Command) (flag : Bool) (t : GoxlrUsb usb) (answer : List ℕ)
      : Type 0 where
    pub before : usb.World
    pub response : List ℕ
    pub read : usb.read_control before ≡ (t.world, done response)
    pub matching : response_index le usb response ≡ some t.command_count
    pub body : answer ≡ drop 16 response
    pub fresh : is_reset c ≡ false → 1 ≤ t.command_count
    pub connected : t.disconnecting ≡ flag

  abbrev pub AnsweredIf : Command → GoxlrUsb usb → GoxlrUsb usb → Outcome (List ℕ) → Type 0
  AnsweredIf c s t (ok answer) = Answered c s.disconnecting t answer
  AnsweredIf c s t (err e) = Unit {0}

  abbrev pub Replies : Command → GoxlrUsb usb → GoxlrUsb usb → Outcome (List ℕ) → Type 0
  Replies c s t o = Settled c t × AnsweredIf c s t o

  -- How many nested calls a request can make.
  abbrev pub depth : Command → Bool → GoxlrUsb usb → ℕ
  depth c retry s =
      elim (is_reset c) [ true ↦ 0 | false ↦ 2 ]
      + elim retry [ true ↦ 1 | false ↦ 2 ]
      + elim s.disconnecting [ true ↦ 0 | false ↦ 2 ]

  -- Calls of at most this depth end as they should.
  abbrev pub IsGood : ℕ → Perform le usb → Type 0
  IsGood fuel perform =
      (c : Command) (body : List ℕ) (retry : Bool) (s : GoxlrUsb usb)
      → depth c retry s ≤ fuel
      → s.command_count ≤ 65535
      → Ends le usb (Replies c s) (perform c body retry s)

  module _ (fuel : ℕ) (perform : Perform le usb) (good : IsGood fuel perform) where
    reset_again :
        (retry : Bool) (s : GoxlrUsb usb)
        → depth Command.reset_command_index retry s ≤ fuel
        → s.command_count ≤ 65535
        → Ends le usb
            (Replies Command.reset_command_index s)
            (perform Command.reset_command_index [] retry s)
    reset_again retry s h k = good Command.reset_command_index [] retry s h k

    -- The connection check leaves the polling resumed and the counter in its range.
    abbrev Checked : GoxlrUsb usb → {A : Type 0} → GoxlrUsb usb → Outcome A → Type 0
    Checked s t o =
        (t.command_count ≤ 65535)
        × (s.command_count ≡ 0 → t.command_count ≡ 0)
        × (t.pause_polling ≡ false)

    if_active-Checked :
        (b : Bool) (s : GoxlrUsb usb)
        → depth Command.reset_command_index false s ≤ fuel
        → Checked s s (ok true)
        → Ends le usb (Checked s) (if_active le usb perform b s)
    if_active-Checked false s h k = k
    if_active-Checked true s h k =
        Ends-succeeds le usb (Replies Command.reset_command_index s) (Checked s) _
          (reset_again false s h k.0)
          (λ t o b r. (r.0.counted.bound, (λ z. r.0.counted.reset refl), r.0.resumed))

    report_if-Checked :
        (b : Bool) (s t : GoxlrUsb usb)
        → Checked s t (ok true)
        → Ends le usb (Checked s) (report_if le usb b t)
    report_if-Checked false s t h = h
    report_if-Checked true s t h = h

    settle_disconnect-Checked :
        (b : Bool) (s t : GoxlrUsb usb)
        → Checked s t (ok true)
        → Ends le usb (Checked s) (settle_disconnect le usb b t)
    settle_disconnect-Checked true s t h = h
    settle_disconnect-Checked false s t h = report_if-Checked t.has_identifier s t h

    trigger_if-Checked :
        (b : Bool) (s : GoxlrUsb usb)
        → s.disconnecting ≡ b
        → depth Command.reset_command_index true s ≤ suc fuel
        → Checked s s (ok true)
        → Ends le usb (Checked s) (trigger_if le usb perform b s)
    unfolding is_connected
    trigger_if-Checked true s e h k = k
    trigger_if-Checked false s e h k =
        Ends-then_try le usb (Checked s) (Checked s) _ (settle_disconnect le usb)
          (if_active-Checked _ _ (ground (arith, e, h)) k)
          (λ t b r. settle_disconnect-Checked b s t r) (λ t f r. r)

    -- Giving up returns an error with the polling resumed.
    pub give_up-Replies :
        {A : Type 0} (c : Command) (q : GoxlrUsb usb → Outcome A → Type 0) (e : UsbError)
        (s : GoxlrUsb usb)
        → depth Command.reset_command_index true s ≤ suc fuel
        → IsCounted c s
        → ((t : GoxlrUsb usb) (f : Failure) → Settled c t → q t (err f))
        → Ends le usb q (give_up le usb perform e s)
    unfolding give_up trigger_disconnect
    give_up-Replies c q e s h k g =
        Ends-then_try le usb (Checked s) q _ _
          (trigger_if-Checked s.disconnecting (set_pause le usb false s) refl h
            (k.bound, (λ z. z), refl))
          (λ t x r. g t _ (settled t r)) (λ t f r. g t f (settled t r))
      where
        settled : (t : GoxlrUsb usb) → Checked s {A = Unit {0}} t (ok tt) → Settled c t
        settled t r = record {
          counted = record { bound = r.0; reset = λ z. r.1 (k.reset z) };
          resumed = r.2;
        }
