-- ===== src/Usb/Wire/Replies/States.antt =====
-- The buttons of a reply, and the versions.
use Prim.Native.Nat.{bit_and}
use goxlr_utility.Base.{
  ℕ, zero, suc, ◌≡◌, refl, not, some, List, [], ◌++◌, ◌/◌, ◌%◌, ◌^◌, ◌*◌, ◌+◌, ◌<◌, eqb, index,
  arith,
}
use goxlr_utility.Types.{VersionNumber}
use goxlr_utility.Usb.{Buttons, buttons_enumeration}
use goxlr_utility.Usb.Wire.{ByteOrder, IsByteOrder}
use goxlr_utility.Usb.Wire.Bits.{bit_and-bit, bit_and-15, bit_and-255, bit_and-4095}
use goxlr_utility.Usb.Wire.Replies.{is_pressed, get_firmware_version}
use native.Mathlib.Nat.{one-le-pow}

some_bit : (b t : ℕ) → b < 2 → 0 < t → not (eqb (b * t) 0) ≡ eqb b 1
some_bit zero t h p = ground arith
some_bit (suc zero) t h p = ground arith
some_bit (suc (suc b)) t h p = absurd (omega arith)

-- A button is pressed exactly where the bit of its discriminant is one in the first word.
pub is_pressed-bit :
    (states : ℕ) (button : Buttons)
    → is_pressed states button ≡ eqb (states / 2 ^ index button % 2) 1
is_pressed-bit states button = rw (bit_and-bit (index button) states) (
    some_bit (states / 2 ^ index button % 2) (2 ^ index button) (omega arith)
      (one-le-pow (index button) 2 (omega arith)))

-- The device's side of a firmware version and of a DICE version: three numbers in a word.
abbrev pub firmware_word : VersionNumber → ℕ
firmware_word v = v.v0 * 2 ^ 12 + v.v1 * 2 ^ 8 + v.v2

abbrev pub dice_word : VersionNumber → ℕ
dice_word v = v.v0 * 2 ^ 20 + v.v1 * 2 ^ 12 + v.v2

abbrev pub IsFirmware : VersionNumber → Type 0
IsFirmware v = (v.v0 < 2 ^ 20) × (v.v1 < 2 ^ 4) × (v.v2 < 2 ^ 8) × (v.v3 < 2 ^ 32)

abbrev pub IsDice : VersionNumber → Type 0
IsDice v = (v.v0 < 2 ^ 4) × (v.v1 < 2 ^ 8) × (v.v2 < 2 ^ 12) × (v.v3 < 2 ^ 32)

abbrev pub version_reply : ByteOrder → VersionNumber → ℕ → ℕ → VersionNumber → List ℕ
version_reply le firmware unknown fpga_count dice =
    le.write_u32 (firmware_word firmware)
    ++ (le.write_u32 firmware.v3
        ++ (le.write_u32 unknown
            ++ (le.write_u32 fpga_count
                ++ (le.write_u32 dice.v3 ++ (le.write_u32 (dice_word dice) ++ [])))))

unpacked_firmware :
    (v : VersionNumber)
    → IsFirmware v
    → (firmware_word v / 2 ^ 12 ≡ v.v0)
      × (bit_and (firmware_word v / 2 ^ 8) 15 ≡ v.v1)
      × (bit_and (firmware_word v) 255 ≡ v.v2)
unpacked_firmware v h = (
  omega arith,
  omega (arith, bit_and-15 (firmware_word v / 2 ^ 8)),
  omega (arith, bit_and-255 (firmware_word v)),
)

unpacked_dice :
    (v : VersionNumber)
    → IsDice v
    → (bit_and (dice_word v / 2 ^ 20) 15 ≡ v.v0)
      × (bit_and (dice_word v / 2 ^ 12) 255 ≡ v.v1)
      × (bit_and (dice_word v) 4095 ≡ v.v2)
unpacked_dice v h = (
  omega (arith, bit_and-15 (dice_word v / 2 ^ 20)),
  omega (arith, bit_and-255 (dice_word v / 2 ^ 12)),
  omega (arith, bit_and-4095 (dice_word v)),
)

-- The versions that a device packs into its reply are the versions read.
pub get_firmware_version-version_reply :
    (le : ByteOrder) (firmware dice : VersionNumber) (unknown fpga_count : ℕ)
    → IsByteOrder le
    → IsFirmware firmware
    → IsDice dice
    → unknown < 2 ^ 32
    → fpga_count < 2 ^ 32
    → get_firmware_version le (version_reply le firmware unknown fpga_count dice)
      ≡ some (record { firmware = firmware; fpga_count = fpga_count; dice = dice })
unfolding get_firmware_version
get_firmware_version-version_reply le f d u n o hf hd hu hn =
    rw
      (
        o.reads_u32 (firmware_word f) _ (omega arith),
        o.reads_u32 f.v3 _ hf.3,
        o.reads_u32 u _ hu,
        o.reads_u32 n _ hn,
        o.reads_u32 d.v3 _ hd.3,
        o.reads_u32 (dice_word d) _ (omega arith),
        (unpacked_firmware f hf).0,
        (unpacked_firmware f hf).1,
        (unpacked_firmware f hf).2,
        (unpacked_dice d hd).0,
        (unpacked_dice d hd).1,
        (unpacked_dice d hd).2,
      )
      refl
