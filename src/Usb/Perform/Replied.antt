-- ===== src/Usb/Perform/Replied.antt =====
-- A whole request, for any calls back into it that end as they should, and by induction on the fuel.
use goxlr_utility.Base.{
  ℕ, zero, suc, ◌≤◌, ◌≡◌, ap, ◌∙◌, eqb, eqb_iff, refl, Bool, true, false, Option, none, some, List,
  [], drop, arith,
}
use goxlr_utility.Usb.Command.{Command}
use goxlr_utility.Usb.Wire.{ByteOrder}
use goxlr_utility.Usb.Perform.{
  Handle, GoxlrUsb, Outcome, ok, err, Transfer, done, fault, UsbError, Perform, is_reset, set_pause,
  response_index, count_on, next_index, if_written, write_request, resync, if_matching, accept,
  receive, read_again, exchange, perform_request,
}
use goxlr_utility.Usb.Perform.Returns.{Ends, Ends-then_try, Ends-then_resumed}
use goxlr_utility.Usb.Perform.Indices.{
  IsCounted, Settled, Answered, Replies, depth, IsGood, give_up-Replies,
}

module _ (le : ByteOrder) (usb : Handle) where
  -- The loop ends with the answer of a read.
  read_again-read :
      (left : ℕ) (v : usb.World) (r : usb.World × Transfer (List ℕ))
      → usb.read_control v ≡ r
      → (w : usb.World) × (usb.read_control w ≡ read_again le usb left r)
  unfolding read_again
  read_again-read zero v (w, r) e = (v, e)
  read_again-read (suc left) v (w, done bytes) e = (v, e)
  read_again-read (suc left) v (w, fault UsbError.other) e = (v, e)
  read_again-read (suc left) v (w, fault UsbError.pipe) e =
      read_again-read left w (usb.read_control w) refl

  resumed :
      (c : Command) (s : GoxlrUsb usb)
      → IsCounted le usb c s
      → Settled le usb c (set_pause le usb false s)
  resumed c s h = record { counted = record { bound = h.bound; reset = h.reset }; resumed = refl }

  -- A request in progress: its packet has the number in the counter.
  pub record Numbered (c : Command) (flag : Bool) (t : GoxlrUsb usb) : Type 0 where
    pub counted : IsCounted le usb c t
    pub fresh : is_reset c ≡ false → 1 ≤ t.command_count
    pub connected : t.disconnecting ≡ flag

  abbrev NumberedIf : Command → GoxlrUsb usb → {A : Type 0} → GoxlrUsb usb → Outcome A → Type 0
  NumberedIf c s t (ok x) = Numbered c s.disconnecting t
  NumberedIf c s t (err e) = Settled le usb c t

  moved :
      (c : Command) (s : GoxlrUsb usb) (w : usb.World) (t : GoxlrUsb usb)
      → Numbered c s.disconnecting t
      → Numbered c s.disconnecting (record t { world = w })
  moved c s w t n = record {
    counted = record { bound = n.counted.bound; reset = n.counted.reset };
    fresh = n.fresh;
    connected = n.connected;
  }

  module _ (fuel : ℕ) (perform : Perform le usb) (good : IsGood le usb fuel perform) where
    count_on-Numbered :
        (b : Bool) (c : Command) (s : GoxlrUsb usb)
        → is_reset c ≡ false
        → eqb s.command_count 65535 ≡ b
        → depth le usb c true s ≤ suc fuel
        → s.command_count ≤ 65535
        → Ends le usb (NumberedIf c s) (count_on le usb perform b s)
    count_on-Numbered false c s n e h k = record {
      counted = record { bound = ground (arith, e); reset = λ z. cc };
      fresh = λ z. ground (arith, e, k);
      connected = refl;
    }
    count_on-Numbered true c s n e h k =
        Ends-then_resumed le usb (Replies le usb Command.reset_command_index s) (NumberedIf c s) _ _
          (good Command.reset_command_index [] false s (ground (arith, n, h)) k)
          (λ t a r. record {
            counted = record { bound = omega arith; reset = λ z. cc };
            fresh = λ z. rw (r.0.counted.reset refl) (omega arith);
            connected = r.1.connected;
          })
          (λ t f r. resumed c t (record { bound = r.0.counted.bound; reset = λ z. cc }))

    next_index-Numbered :
        (b : Bool) (c : Command) (s : GoxlrUsb usb)
        → is_reset c ≡ b
        → depth le usb c true s ≤ suc fuel
        → s.command_count ≤ 65535
        → Ends le usb (NumberedIf c s) (next_index le usb perform b s)
    next_index-Numbered true c s e h k = record {
      counted = record { bound = omega arith; reset = λ z. refl };
      fresh = λ z. cc;
      connected = refl;
    }
    next_index-Numbered false c s e h k = count_on-Numbered _ c s e refl h k

    if_written-Numbered :
        (w : Transfer (Unit {0})) (c : Command) (s t : GoxlrUsb usb)
        → depth le usb c true t ≤ suc fuel
        → Numbered c s.disconnecting t
        → Ends le usb (NumberedIf c s) (if_written le usb perform w t)
    if_written-Numbered (done x) c s t h n = n
    if_written-Numbered (fault e) c s t h n =
        give_up-Replies le usb fuel perform good c (NumberedIf c s) e t (ground (arith, h))
          n.counted (λ u f r. r)

    resync-Replies :
        (c : Command) (body : List ℕ) (retry : Bool) (s t : GoxlrUsb usb)
        → depth le usb c retry t ≤ suc fuel
        → Numbered c s.disconnecting t
        → Ends le usb (Replies le usb c s) (resync le usb perform c body retry t)
    resync-Replies c body true s t h n =
        give_up-Replies le usb fuel perform good c (Replies le usb c s) UsbError.other t
          (ground (arith, h)) n.counted (λ u f r. (r, tt))
    resync-Replies c body false s t h n =
        Ends-then_resumed le usb (Replies le usb Command.reset_command_index t) (Replies le usb c s)
          _ _ (good Command.reset_command_index [] true t (ground (arith, h)) n.counted.bound)
          (λ u a r.
            Ends-then_resumed le usb (Replies le usb c u) (Replies le usb c s) _ _
              (good c body true u (ground (arith, h, r.1.connected)) r.0.counted.bound)
              (λ v b q. (q.0, reply a b r.1 q.1)) (λ v f q. (resumed c v q.0.counted, tt)))
          (λ u f r. (
            resumed c u (record { bound = r.0.counted.bound; reset = λ z. r.0.counted.reset refl }),
            tt,
          ))
      where
        reply :
            {u v : GoxlrUsb usb} (a b : List ℕ)
            → Answered le usb Command.reset_command_index t.disconnecting u a
            → Answered le usb c u.disconnecting v b
            → Answered le usb c s.disconnecting v b
        reply a b r q = record {
          before = q.before;
          response = q.response;
          read = q.read;
          matching = q.matching;
          body = q.body;
          fresh = q.fresh;
          connected = q.connected ∙ (r.connected ∙ n.connected);
        }

    -- A number read from a response, against the counter.
    if_matching-Replies :
        (b : Bool) (c : Command) (body bytes : List ℕ) (retry : Bool) (i : ℕ) (v : usb.World)
        (s t : GoxlrUsb usb)
        → eqb i t.command_count ≡ b
        → response_index le usb bytes ≡ some i
        → usb.read_control v ≡ (t.world, done bytes)
        → depth le usb c retry t ≤ suc fuel
        → Numbered c s.disconnecting t
        → Ends le usb
            (Replies le usb c s)
            (if_matching le usb perform c body retry (drop 16 bytes) b t)
    if_matching-Replies false c body bytes retry i v s t e m p h n =
        resync-Replies c body retry s t h n
    if_matching-Replies true c body bytes retry i v s t e m p h n = (
      resumed c t n.counted,
      record {
        before = v;
        response = bytes;
        read = p;
        matching = m ∙ ap (λ j. some j) ((eqb_iff i t.command_count).0 e);
        body = refl;
        fresh = n.fresh;
        connected = n.connected;
      },
    )

    accept-Replies :
        (o : Option ℕ) (c : Command) (body bytes : List ℕ) (retry : Bool) (v : usb.World)
        (s t : GoxlrUsb usb)
        → response_index le usb bytes ≡ o
        → usb.read_control v ≡ (t.world, done bytes)
        → depth le usb c retry t ≤ suc fuel
        → Numbered c s.disconnecting t
        → Ends le usb (Replies le usb c s) (accept le usb perform c body retry bytes o t)
    accept-Replies none c body bytes retry v s t m p h n =
        give_up-Replies le usb fuel perform good c (Replies le usb c s) UsbError.pipe t
          (ground (arith, h)) n.counted (λ u f r. (r, tt))
    accept-Replies (some i) c body bytes retry v s t m p h n =
        if_matching-Replies _ c body bytes retry i v s t refl m p h n

    receive-Replies :
        (r : usb.World × Transfer (List ℕ)) (c : Command) (body : List ℕ) (retry : Bool)
        (v : usb.World) (s t : GoxlrUsb usb)
        → usb.read_control v ≡ r
        → depth le usb c retry t ≤ suc fuel
        → Numbered c s.disconnecting t
        → Ends le usb
            (Replies le usb c s)
            (receive le usb perform c body retry r.1 (record t { world = r.0 }))
    receive-Replies (w, done bytes) c body retry v s t p h n =
        accept-Replies _ c body bytes retry v s (record t { world = w }) refl p h (moved c s w t n)
    receive-Replies (w, fault e) c body retry v s t p h n =
        give_up-Replies le usb fuel perform good c (Replies le usb c s) e _ (ground (arith, h))
          (record { bound = n.counted.bound; reset = n.counted.reset }) (λ u f r. (r, tt))

    exchange-Replies : IsGood le usb (suc fuel) (exchange le usb perform)
    unfolding exchange write_request
    exchange-Replies c body retry s h k =
        Ends-then_try le usb (NumberedIf c s) (Replies le usb c s) _ _
          (next_index-Numbered (is_reset c) c (set_pause le usb true s) refl (ground (arith, h)) k)
          (λ t x n.
            Ends-then_try le usb (NumberedIf c s) (Replies le usb c s) _ _
              (if_written-Numbered _ c s (record t { world = _ }) (ground (arith, h, n.connected))
                (moved c s _ t n))
              (λ u y m.
                receive-Replies (read_again le usb 19 (usb.read_control u.world)) c body retry _ s u
                  (read_again-read 19 u.world _ refl).1 (ground (arith, h, m.connected)) m)
              (λ u f r. (r, tt)))
          (λ t f r. (r, tt))

  pub perform_request-Replies : (fuel : ℕ) → IsGood le usb fuel (perform_request le usb fuel)
  unfolding perform_request
  perform_request-Replies zero c body retry s h k = absurd (ground (arith, h))
  perform_request-Replies (suc fuel) c body retry s h k =
      exchange-Replies fuel (perform_request le usb fuel) (perform_request-Replies fuel) c body
        retry s h k
