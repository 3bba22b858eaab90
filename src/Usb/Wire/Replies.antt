-- ===== src/Usb/Wire/Replies.antt =====
-- What the device answers, usb/src/device/base.rs. `none` is an error or a panic.
pub mod States
pub mod Updates
use Prim.Native.Nat.{bit_and}
use goxlr_utility.Base.{
  ℕ, Bool, true, false, not, ◌&&◌, Option, none, some, List, [], ◌∷◌, ◌*◌, ◌/◌, ◌^◌, eqb, index,
  take, drop, length, get_elem?, if◌then◌else◌,
}
use goxlr_utility.Types.{VersionNumber}
use goxlr_utility.Usb.{Buttons, buttons_enumeration}
use goxlr_utility.Usb.Wire.{ByteOrder}

infixl 5 ◌>>=◌
abbrev pub ◌>>=◌ : {A B : Type 0} → Option A → (A → Option B) → Option B
o >>= f = elim o [ none ↦ none | some a ↦ f a ]

-- usb/src/buttonstate.rs: `CurrentButtonStates`; the encoders are bytes, cast to i8 by the source
pub record CurrentButtonStates : Type 0 where
  pub pressed : Buttons → Bool
  pub volumes : List ℕ
  pub encoders : List ℕ

-- `button_states & (1 << button as u8) != 0`
abbrev pub is_pressed : ℕ → Buttons → Bool
is_pressed states button = not (eqb (bit_and states (2 ^ index button)) 0)

-- types/src/lib.rs: `FirmwareVersions`
pub record FirmwareVersions : Type 0 where
  pub firmware : VersionNumber
  pub fpga_count : ℕ
  pub dice : VersionNumber

-- The words of the reply to a poll of the update.
pub record Poll : Type 0 where
  pub op : ℕ
  pub stage : ℕ
  pub state : ℕ
  pub error_code : ℕ
  pub read_total : ℕ
  pub read_done : ℕ

module _ (le : ByteOrder) where
  -- Bytes 8 to 11 are the volumes and bytes 4 to 7 the encoders: pitch, gender, reverb, echo.
  unfoldable pub get_button_states : List ℕ → Option CurrentButtonStates
  get_button_states result = do
    word ← le.read_u32 (take 4 result)
    e0 ← get_elem? result 4
    e1 ← get_elem? result 5
    e2 ← get_elem? result 6
    e3 ← get_elem? result 7
    v0 ← get_elem? result 8
    v1 ← get_elem? result 9
    v2 ← get_elem? result 10
    v3 ← get_elem? result 11
    some (record {
      pressed = is_pressed word.0;
      volumes = v0 ∷ v1 ∷ v2 ∷ v3 ∷ [];
      encoders = e0 ∷ e1 ∷ e2 ∷ e3 ∷ [];
    })

  unfoldable pub get_firmware_version : List ℕ → Option FirmwareVersions
  get_firmware_version result = do
    packed ← le.read_u32 result
    build ← le.read_u32 packed.1
    unknown ← le.read_u32 build.1
    fpga_count ← le.read_u32 unknown.1
    dice_build ← le.read_u32 fpga_count.1
    dice_packed ← le.read_u32 dice_build.1
    some (record {
      firmware = record {
        v0 = packed.0 / 2 ^ 12;
        v1 = bit_and (packed.0 / 2 ^ 8) 0xf;
        v2 = bit_and packed.0 0xff;
        v3 = build.0;
      };
      fpga_count = fpga_count.0;
      dice = record {
        v0 = bit_and (dice_packed.0 / 2 ^ 20) 0xf;
        v1 = bit_and (dice_packed.0 / 2 ^ 12) 0xff;
        v2 = bit_and dice_packed.0 0xfff;
        v3 = dice_build.0;
      };
    })

  -- the six reads that both polls begin with
  unfoldable pub read_poll : List ℕ → Option Poll
  read_poll result = do
    op ← le.read_u32 result
    stage ← le.read_u32 op.1
    state ← le.read_u32 stage.1
    error_code ← le.read_u32 state.1
    total ← le.read_u32 error_code.1
    done ← le.read_u32 total.1
    some (record {
      op = op.0;
      stage = stage.0;
      state = state.0;
      error_code = error_code.0;
      read_total = total.0;
      read_done = done.0;
    })

  unfoldable pub begin_firmware_upload : List ℕ → Option (Unit {0})
  begin_firmware_upload result = do
    code ← le.read_u32 (take 4 result)
    if eqb code.0 0 then some tt else none

  unfoldable pub poll_erase_nvr : List ℕ → Option ℕ
  poll_erase_nvr result = if eqb (length result) 1 then get_elem? result 0 else none

  unfoldable pub validate_firmware_packet : List ℕ → Option (ℕ × ℕ)
  validate_firmware_packet result = do
    hash ← le.read_u32 (take 4 result)
    count ← le.read_u32 (take 4 (drop 4 result))
    some (hash.0, count.0)

  -- the test that the verify, finalise and reboot commands make of their reply
  unfoldable pub expect_zero : List ℕ → Option (Unit {0})
  expect_zero result = do output ← le.read_u32 result; if eqb output.0 0 then some tt else none

-- `poll_verify_firmware_status` after its reads: whether the verification ended, and how far it is
unfoldable pub verify_status : Poll → Option (Bool × ℕ × ℕ)
verify_status p =
    if eqb p.op 2 && eqb p.stage 0 && eqb p.state 2
    then some (true, p.read_total, p.read_done)
    else if not (eqb p.op 3)
    then none
    else if not (eqb p.stage 0)
    then none
    else if eqb p.state 3
    then none
    else if eqb p.state 1 && eqb p.error_code 0
    then some (false, p.read_total, p.read_done)
    else none

-- `poll_finalise_firmware_upload` after its reads
unfoldable pub finalise_status : Poll → Option (Bool × ℕ × ℕ)
finalise_status p =
    if not (eqb p.op 4)
    then none
    else if not (eqb p.stage 1)
    then none
    else if eqb p.state 1
    then some (false, p.read_total, p.read_done)
    else if eqb p.state 2
    then some (true, p.read_total, p.read_done)
    else none

module _ (le : ByteOrder) where
  unfoldable pub poll_verify_firmware_status : List ℕ → Option (Bool × ℕ × ℕ)
  unfolding read_poll verify_status
  poll_verify_firmware_status result = do p ← read_poll le result; verify_status p

  unfoldable pub poll_finalise_firmware_upload : List ℕ → Option (Bool × ℕ × ℕ)
  unfolding read_poll finalise_status
  poll_finalise_firmware_upload result = do p ← read_poll le result; finalise_status p
