-- ===== src/Device/Lights/Painted.antt =====
-- The colours in the request of `load_colour_map`, as it is sent.
use goxlr_utility.Base.{
  ℕ, ◌+◌, ◌<◌, ◌≡◌, refl, ◌∙◌, Bool, true, false, ◌||◌, some, List, get_elem?, length, take,
  get_elem?-take, length-take, Bool-cases, inl, inr, arith,
}
use goxlr_utility.Usb.{ColourTargets}
use goxlr_utility.Usb.Colouring.{get_colour_count, position}
use goxlr_utility.Usb.Colouring.Disjoint.{map_size, position_range}
use goxlr_utility.Usb.Command.{Command}
use goxlr_utility.Usb.Wire.{ByteOrder}
use goxlr_utility.Usb.Wire.Encoding.{encode}
use goxlr_utility.Profile.Lighting.{lighting, get_colour_map}
use goxlr_utility.Profile.Lighting.ReadBack.{byte, get_colour_map_reads, length-get_colour_map}
use goxlr_utility.Device.{Device}
use goxlr_utility.Device.Lights.{device_supports_animations, is_mini, colour_map_request}

-- Whether a device takes the format of firmware 1.3.40, and whether its faders' colours are blanked
-- while they are muted.
abbrev pub takes_new_format : Device → Bool
takes_new_format d = device_supports_animations d.device_type d.firmware

abbrev pub blanks_mute : Device → Bool
blanks_mute d = is_mini d.device_type || d.settings.lock_faders

-- The part of a map that its format sends.
sized : Bool → List ℕ → List ℕ
sized true bytes = bytes
sized false bytes = take 328 bytes

length-sized :
    (format : Bool) (bytes : List ℕ)
    → length bytes ≡ 520
    → length (sized format bytes) ≡ map_size format
unfolding sized
length-sized true bytes h = h
length-sized false bytes h = length-take 328 bytes (omega arith)

get_elem?-sized :
    (format : Bool) (bytes : List ℕ) (n : ℕ)
    → n < map_size format
    → get_elem? (sized format bytes) n ≡ get_elem? bytes n
unfolding sized
get_elem?-sized true bytes n h = refl
get_elem?-sized false bytes n h = get_elem?-take 328 bytes n h

module _ (le : ByteOrder) (d : Device) where
  encode-sized : encode le (colour_map_request d) ≡ (
    Command.set_colour_map,
    sized (takes_new_format d) (get_colour_map d.profile (takes_new_format d) (blanks_mute d)),
  )
  unfolding encode colour_map_request sized
  encode-sized = elim (Bool-cases (takes_new_format d)) [ inl e ↦ rw e refl | inr e ↦ rw e refl ]

  -- The request of `load_colour_map` sends a colour map of 520 bytes to a device that takes the new
  -- format, and of 328 to another. In what is sent, the four bytes at the position that the format
  -- gives a colour are those that the lighting computes for it: all are sent, and no colour
  -- overwrites another.
  pub colour_map_request_paints :
      (t : ColourTargets) (i k : ℕ)
      → i < get_colour_count t
      → k < 4
      → ((encode le (colour_map_request d)).0 ≡ Command.set_colour_map)
        × (length (encode le (colour_map_request d)).1 ≡ map_size (takes_new_format d))
        × (get_elem? (encode le (colour_map_request d)).1 (position t i (takes_new_format d) + k)
            ≡ some (byte (lighting d.profile (blanks_mute d) t i) k))
  colour_map_request_paints t i k valid four =
      let format = takes_new_format d in
      let bytes = get_colour_map d.profile format (blanks_mute d) in
      let room = position_range format t i valid in
      rw encode-sized (
        refl,
        length-sized format bytes (length-get_colour_map d.profile format (blanks_mute d)),
        get_elem?-sized format bytes (position t i format + k) (omega (arith, room, four))
            ∙ get_colour_map_reads d.profile format (blanks_mute d) t i k valid four,
      )
