-- ===== src/Usb/Wire/Frame.antt =====
-- The packet of a request: sixteen bytes with the command, the length and the index, and the body.
use goxlr_utility.Base.{
  ℕ, ◌≡◌, ◌<◌, ◌^◌, ◌%◌, refl, Option, none, some, List, ◌++◌, length, replicate, drop,
}
use goxlr_utility.Usb.Command.{Command, command_id}
use goxlr_utility.Usb.Command.Decode.{decode, decode-command_id, command_id-lt}
use goxlr_utility.Usb.Wire.{ByteOrder, IsByteOrder}
use native.Mathlib.Nat.{mod-eq_of_lt}

module _ (le : ByteOrder) where
  -- `full_request` of `perform_request`
  unfoldable pub full_request : Command → List ℕ → ℕ → List ℕ
  full_request command body command_index =
      le.write_u32 (command_id command)
      ++ (le.write_u16 (length body % 2 ^ 16)
          ++ (le.write_u16 command_index ++ (replicate 8 0 ++ body)))

  -- The device's side of a packet.
  pub record Packet : Type 0 where
    pub command : Command
    pub size : ℕ
    pub command_index : ℕ
    pub body : List ℕ

  pub read_packet : List ℕ → Option Packet
  read_packet bytes = elim (le.read_u32 bytes) [
    | none ↦ none
    | some (n, a) ↦ elim (decode n) [
      | none ↦ none
      | some c ↦ elim (le.read_u16 a) [
        | none ↦ none
        | some (size, b) ↦ elim (le.read_u16 b) [
          | none ↦ none
          | some (i, rest) ↦
              some (record { command = c; size = size; command_index = i; body = drop 8 rest })
        ]
      ]
    ]
  ]

  -- A packet is read back: the command, the length of the body, the index and the body, for every
  -- body of at most 65535 bytes and every index of sixteen bits.
  pub read_packet-full_request :
      IsByteOrder le
      → (c : Command) (body : List ℕ) (i : ℕ) → length body < 2 ^ 16
      → i < 2 ^ 16
      → read_packet (full_request c body i)
        ≡ some (record { command = c; size = length body; command_index = i; body = body })
  unfolding read_packet full_request
  read_packet-full_request o c body i l h =
      rw
        (
          read_packet,
          full_request,
          o.reads_u32 (command_id c)
              (le.write_u16 (length body % 2 ^ 16) ++ (le.write_u16 i ++ (replicate 8 0 ++ body)))
              (command_id-lt c),
          decode-command_id c,
          mod-eq_of_lt l,
          o.reads_u16 (length body) (le.write_u16 i ++ (replicate 8 0 ++ body)) l,
          o.reads_u16 i (replicate 8 0 ++ body) h,
        )
        refl
