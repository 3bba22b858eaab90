-- ===== src/Device/Routing/Cells.antt =====
-- The bytes of a routing request.
use goxlr_utility.Base.{
  ℕ, ◌≡◌, Bool, Option, none, some, List, [], ◌∷◌, replicate, if◌then◌else◌, arith,
}
use goxlr_utility.Types.{InputDevice, OutputDevice, output_device_variants}
use goxlr_utility.Usb.Routing.{position, output_halves}
use goxlr_utility.Profile.Router.{Router}
use goxlr_utility.Profile.{Profile}
use goxlr_utility.Device.Routing.{route_outputs, write_hardtune, hardtune_value, channel_arrays}

-- The byte of an output that is routed, and of one that is not.
abbrev pub routed : Bool → ℕ
routed on = if on then 0x20 else 0

abbrev pub byte_or_none : Option ℕ → ℕ
byte_or_none none = 0
byte_or_none (some v) = v

-- The 22 bytes of the left side and those of the right side.
abbrev pub left_cells : Router → Option ℕ → List ℕ
left_cells r h =
    0
    ∷ routed (r OutputDevice.headphones)
    ∷ 0
    ∷ 0
    ∷ 0
    ∷ routed (r OutputDevice.broadcast_mix)
    ∷ 0
    ∷ 0
    ∷ 0
    ∷ routed (r OutputDevice.chat_mic)
    ∷ 0
    ∷ 0
    ∷ 0
    ∷ routed (r OutputDevice.sampler)
    ∷ 0
    ∷ 0
    ∷ 0
    ∷ routed (r OutputDevice.line_out)
    ∷ 0
    ∷ 0
    ∷ 0
    ∷ byte_or_none h
    ∷ []

abbrev pub right_cells : Router → Option ℕ → List ℕ
right_cells r h =
    0
    ∷ 0
    ∷ 0
    ∷ routed (r OutputDevice.headphones)
    ∷ 0
    ∷ 0
    ∷ 0
    ∷ routed (r OutputDevice.broadcast_mix)
    ∷ 0
    ∷ 0
    ∷ 0
    ∷ routed (r OutputDevice.chat_mic)
    ∷ 0
    ∷ 0
    ∷ 0
    ∷ routed (r OutputDevice.sampler)
    ∷ 0
    ∷ 0
    ∷ 0
    ∷ routed (r OutputDevice.line_out)
    ∷ 0
    ∷ byte_or_none h
    ∷ []

abbrev arrays : Router → Option ℕ → List ℕ × List ℕ
arrays r h =
    write_hardtune h (route_outputs r output_device_variants (replicate 22 0, replicate 22 0))

arrays-cells : (r : Router) (h : Option ℕ) → arrays r h ≡ (left_cells r h, right_cells r h)
unfolding route_outputs position output_halves
arrays-cells r h = ground arith

-- The two arrays computed for an input are, byte for byte, these 22 bytes: each output has byte 1,
-- 5, 9, 13 or 17 of the left array and byte 3, 7, 11, 15 or 19 of the right one, 0x20 if it is
-- routed and 0 if it is not; byte 21 is the hardtune value, or 0 without one; all others are 0.
pub channel_arrays-cells :
    (p : Profile) (input : InputDevice) (r : Router)
    → channel_arrays p input r
      ≡ (left_cells r (hardtune_value p input), right_cells r (hardtune_value p input))
unfolding channel_arrays
channel_arrays-cells p input r = arrays-cells r (hardtune_value p input)
