-- ===== src/Usb/Wire.antt =====
-- What goes over the wire, usb/src/device/base.rs and `perform_request` of
-- usb/src/device/libusb/device.rs. The byteorder crate is a parameter.
pub mod Encoding
pub mod Frame
pub mod Replies
pub mod Bits
use goxlr_utility.Base.{
  ℕ, ◌≡◌, ◌<◌, ◌^◌, ◌/◌, ◌%◌, ◌+◌, ◌*◌, Option, none, some, List, [], ◌∷◌, ◌++◌, length,
}

-- The functions of `LittleEndian` that the source calls. An i32 is its bit pattern. A read gives
-- what follows the number; `none` is the error of a cursor, or the panic of a slice, that is short.
pub record ByteOrder : Type 0 where
  pub write_u16 : ℕ → List ℕ
  pub write_u32 : ℕ → List ℕ
  pub write_u64 : ℕ → List ℕ
  pub write_i32 : ℕ → List ℕ
  pub read_u16 : List ℕ → Option (ℕ × List ℕ)
  pub read_u32 : List ℕ → Option (ℕ × List ℕ)

-- What byteorder documents of them: the sizes, and that a read undoes a write.
pub record IsByteOrder (le : ByteOrder) : Type 0 where
  pub size_u16 : (n : ℕ) → length (le.write_u16 n) ≡ 2
  pub size_u32 : (n : ℕ) → length (le.write_u32 n) ≡ 4
  pub size_i32 : (n : ℕ) → length (le.write_i32 n) ≡ 4
  pub reads_u16 :
      (n : ℕ) (rest : List ℕ) → n < 2 ^ 16 → le.read_u16 (le.write_u16 n ++ rest) ≡ some (n, rest)
  pub reads_u32 :
      (n : ℕ) (rest : List ℕ) → n < 2 ^ 32 → le.read_u32 (le.write_u32 n ++ rest) ≡ some (n, rest)
  pub reads_i32 :
      (n : ℕ) (rest : List ℕ) → n < 2 ^ 32 → le.read_u32 (le.write_i32 n ++ rest) ≡ some (n, rest)
