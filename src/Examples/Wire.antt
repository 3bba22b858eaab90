-- ===== src/Examples/Wire.antt =====
-- The theorems on the wire applied to a little-endian byte order and to a device that answers.
use goxlr_utility.Base.{
  ℕ, ◌≡◌, refl, ap, ◌<◌, ◌≤◌, ◌^◌, ◌*◌, ◌+◌, ◌/◌, ◌%◌, true, false, Bool, Option, none, some, List,
  [], ◌∷◌, drop, replicate, length, get_elem?, ◌++◌, arith,
}
use goxlr_utility.Usb.Command.{Command, HardwareInfoCommand}
use goxlr_utility.Usb.Wire.{ByteOrder, IsByteOrder}
use goxlr_utility.Usb.Perform.{
  Handle, GoxlrUsb, ok, done, fault, UsbError, perform_request, exchange, write_request, read_again,
  response_index,
}
use goxlr_utility.Usb.Wire.Frame.{full_request, read_packet, read_packet-full_request}
use goxlr_utility.Types.{VersionNumber, EffectKey}
use goxlr_utility.Usb.{ColourTargets}
use goxlr_utility.Usb.Colouring.{position, get_colour_count}
use goxlr_utility.Usb.Colouring.Disjoint.{map_size}
use goxlr_utility.Profile.Lighting.{lighting}
use goxlr_utility.Profile.Lighting.ReadBack.{byte}
use goxlr_utility.Device.{Device}
use goxlr_utility.Device.Lights.{colour_map_request, device_supports_animations}
use goxlr_utility.Device.Lights.Painted.{takes_new_format, blanks_mute, colour_map_request_paints}
use goxlr_utility.Examples.{open_device}
use goxlr_utility.Usb.{buttons_enumeration}
use goxlr_utility.Usb.Wire.Replies.{get_firmware_version}
use goxlr_utility.Usb.Wire.Replies.States.{version_reply, get_firmware_version-version_reply}
use goxlr_utility.Usb.Wire.Encoding.{encode, effect_bytes}
use goxlr_utility.Usb.Wire.Encoding.ReadBack.{read_effects, read_effects-effect_bytes}
use goxlr_utility.Usb.Perform.Guarantees.{
  perform_request-returns, perform_request-Settled, perform_request-Answered,
}
use goxlr_utility.Usb.Perform.Served.{Serves, IsAnswered, perform_request-IsAnswered}
use goxlr_utility.Usb.Perform.Indices.{Settled, Answered}

little_u16 : ℕ → List ℕ
little_u16 n = n % 256 ∷ n / 256 % 256 ∷ []

little_u32 : ℕ → List ℕ
little_u32 n = n % 256 ∷ n / 256 % 256 ∷ n / 65536 % 256 ∷ n / 16777216 % 256 ∷ []

read_little_u16 : List ℕ → Option (ℕ × List ℕ)
read_little_u16 (a ∷ b ∷ rest) = some (a + 256 * b, rest)
read_little_u16 _ = none

read_little_u32 : List ℕ → Option (ℕ × List ℕ)
read_little_u32 (a ∷ b ∷ c ∷ d ∷ rest) = some (a + 256 * b + 65536 * c + 16777216 * d, rest)
read_little_u32 _ = none

abbrev little : ByteOrder
little = record {
  write_u16 = little_u16;
  write_u32 = little_u32;
  write_u64 = λ n. little_u32 (n % 2 ^ 32) ++ little_u32 (n / 2 ^ 32);
  write_i32 = little_u32;
  read_u16 = read_little_u16;
  read_u32 = read_little_u32;
}

little_word : (n : ℕ) → n < 2 ^ 16 → n % 256 + 256 * (n / 256 % 256) ≡ n
little_word n h = omega arith

little_long :
    (n : ℕ)
    → n < 2 ^ 32
    → n % 256 + 256 * (n / 256 % 256) + 65536 * (n / 65536 % 256) + 16777216 * (n / 16777216 % 256)
      ≡ n
little_long n h = omega arith

little-IsByteOrder : IsByteOrder little
unfolding little_u16 little_u32 read_little_u16 read_little_u32
little-IsByteOrder = record {
  size_u16 = λ n. refl;
  size_u32 = λ n. refl;
  size_i32 = λ n. refl;
  reads_u16 = λ n rest h. ap (λ m. some (m, rest)) (little_word n h);
  reads_u32 = λ n rest h. ap (λ m. some (m, rest)) (little_long n h);
  reads_i32 = λ n rest h. ap (λ m. some (m, rest)) (little_long n h);
}

-- A device that answers each packet with its index, after one read that finds nothing yet. The world
-- is the index that it answers next, and whether it is ready.
abbrev echo : Handle
echo = record {
  World = ℕ × Bool;
  write_control = λ w packet.
      ((elim (read_little_u16 (drop 6 packet)) [ none ↦ 0 | some (i, rest) ↦ i ], false), done tt);
  read_control = λ w. elim w.1 [
    | false ↦ ((w.0, true), fault UsbError.pipe)
    | true ↦ (w, done (replicate 6 0 ++ (little_u16 w.0 ++ (replicate 8 0 ++ (7 ∷ [])))))
  ];
  active_configuration = λ w. (w, true);
  try_send = λ w. (w, true);
}

abbrev ready : GoxlrUsb echo
ready = record {
  world = (0, false);
  has_identifier = true;
  command_count = 65535;
  pause_polling = false;
  stopping = false;
  disconnecting = false;
}

abbrev answered : GoxlrUsb echo
answered = record {
  world = (1, true);
  has_identifier = true;
  command_count = 1;
  pause_polling = false;
  stopping = false;
  disconnecting = false;
}

abbrev get_version : Command
get_version = Command.get_hardware_info HardwareInfoCommand.firmware_version

-- The counter is at its end, so that the device is reset first.
version_asked :
    perform_request little echo 6 get_version [] false ready ≡ some (answered, ok (7 ∷ []))
unfolding perform_request exchange write_request read_again response_index full_request little_u16
    little_u32 read_little_u16
version_asked = refl

perform_request-returns_example :
    ¬ (perform_request little echo 6 get_version [] false ready ≡ none)
perform_request-returns_example =
    perform_request-returns little echo 6 (omega arith) get_version [] false ready (omega arith)

perform_request-Settled_example : Settled little echo get_version answered
perform_request-Settled_example =
    perform_request-Settled little echo 6 (omega arith) get_version [] false ready (omega arith)
      answered (ok (7 ∷ [])) version_asked

perform_request-Answered_example : Answered little echo get_version false answered (7 ∷ [])
perform_request-Answered_example =
    perform_request-Answered little echo 6 (omega arith) get_version [] false ready (omega arith)
      answered (7 ∷ []) version_asked

-- The index that the device reads from a packet, and that the daemon reads from its response.
echo-response :
    (i : ℕ)
    → i ≤ 65535
    → response_index little echo (
        replicate 6 0
        ++ (little_u16 (i % 256 + 256 * (i / 256 % 256)) ++ (replicate 8 0 ++ (7 ∷ []))))
      ≡ some i
unfolding response_index little_u16 read_little_u16
echo-response i h =
    rw (little_word i (omega arith)) (ap (λ m. some m) (little_word i (omega arith)))

echo-Serves : Serves little echo
unfolding full_request little_u16 little_u32 read_little_u16 read_again
echo-Serves w c body i h = record {
  after = (i % 256 + 256 * (i / 256 % 256), false);
  later = (i % 256 + 256 * (i / 256 % 256), true);
  response =
      replicate 6 0
      ++ (little_u16 (i % 256 + 256 * (i / 256 % 256)) ++ (replicate 8 0 ++ (7 ∷ [])));
  written = refl;
  read = refl;
  matching = echo-response i h;
}

perform_request-IsAnswered_example :
    IsAnswered little echo (perform_request little echo 2 get_version (1 ∷ []) false ready)
perform_request-IsAnswered_example =
    perform_request-IsAnswered little echo echo-Serves 0 get_version (1 ∷ []) false ready

read_packet-full_request_example :
    read_packet little (full_request little get_version (1 ∷ 2 ∷ []) 513)
    ≡ some (record { command = get_version; size = 2; command_index = 513; body = 1 ∷ 2 ∷ [] })
read_packet-full_request_example =
    read_packet-full_request little little-IsByteOrder get_version (1 ∷ 2 ∷ []) 513 (omega arith)
      (omega arith)

abbrev first : VersionNumber
first = record { v0 = 1; v1 = 4; v2 = 2; v3 = 107 }

abbrev dice_version : VersionNumber
dice_version = record { v0 = 2; v1 = 15; v2 = 4095; v3 = 5 }

get_firmware_version-version_reply_example :
    get_firmware_version little (version_reply little first 9 3 dice_version)
    ≡ some (record { firmware = first; fpga_count = 3; dice = dice_version })
get_firmware_version-version_reply_example =
    get_firmware_version-version_reply little first dice_version 9 3 little-IsByteOrder
      (omega arith, omega arith, omega arith, omega arith)
      (omega arith, omega arith, omega arith, omega arith) (omega arith) (omega arith)

read_effects-effect_bytes_example :
    read_effects little 2 (
      effect_bytes little
        ((EffectKey.gender_amount, 4294967284) ∷ (EffectKey.echo_feedback, 40) ∷ []))
    ≡ some ((EffectKey.gender_amount, 4294967284) ∷ (EffectKey.echo_feedback, 40) ∷ [])
read_effects-effect_bytes_example =
    read_effects-effect_bytes little little-IsByteOrder
      ((EffectKey.gender_amount, 4294967284) ∷ (EffectKey.echo_feedback, 40) ∷ [])
      (omega arith, (omega arith, tt))

-- A device before firmware 1.3.40.
abbrev old_device : Device
old_device = record open_device { firmware = record { v0 = 1; v1 = 3; v2 = 39; v3 = 0 } }

old_device_takes_old_format : takes_new_format old_device ≡ false
unfolding device_supports_animations
old_device_takes_old_format = refl

-- The second colour of the first fader's button.
colour_map_request_paints_example :
    ((encode little (colour_map_request old_device)).0 ≡ Command.set_colour_map)
    × (length (encode little (colour_map_request old_device)).1
        ≡ map_size (takes_new_format old_device))
    × (get_elem?
          (encode little (colour_map_request old_device)).1
          (position ColourTargets.fader1_mute 1 (takes_new_format old_device) + 2)
        ≡ some (
            byte
              (lighting old_device.profile (blanks_mute old_device) ColourTargets.fader1_mute 1)
              2))
unfolding get_colour_count
colour_map_request_paints_example =
    colour_map_request_paints little old_device ColourTargets.fader1_mute 1 2 (ground arith)
      (omega arith)
