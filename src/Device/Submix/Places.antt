-- ===== src/Device/Submix/Places.antt =====
-- The bytes of `set_channel_mixes`, output by output.
use goxlr_utility.Base.{ℕ, ◌+◌, ◌≡◌, refl, some, List, ◌++◌, get_elem?, replicate}
use goxlr_utility.Types.{
  OutputDevice, OutputDevice-discrete, Mix, output_device_enumeration, output_device_index,
}
use goxlr_utility.Profile.{Profile}
use goxlr_utility.Device.Submix.{place, mix_of, place_outputs, channel_mixes}

-- Where the four bytes of a mix start, and those of the other.
abbrev half_of : Mix → ℕ
half_of Mix.a = 0
half_of Mix.b = 4

abbrev other_half : Mix → ℕ
other_half Mix.a = 4
other_half Mix.b = 0

-- The bytes for the mixes of the four outputs after the headphones.
abbrev mixes : Mix → Mix → Mix → Mix → List ℕ
mixes broadcast chat sampler line =
    let (mix_a, mix_b) = place line 3 8 (
      place sampler 2 6
        (place chat 1 4 (place broadcast 0 2 (replicate 4 0x0c, replicate 4 0x0c)))) in
    mix_a ++ mix_b

channel_mixes-mixes :
    (p : Profile)
    → channel_mixes p
      ≡ mixes
          (mix_of p OutputDevice.broadcast_mix)
          (mix_of p OutputDevice.chat_mic)
          (mix_of p OutputDevice.sampler)
          (mix_of p OutputDevice.line_out)
unfolding channel_mixes place_outputs OutputDevice-discrete output_device_index
channel_mixes-mixes p = refl

-- Output number `i` has its byte in the half of its mix, and 0x0c in the other.
abbrev pub IsMixed : List ℕ → Mix → ℕ → ℕ → Type 0
IsMixed bytes m i byte =
    (get_elem? bytes (half_of m + i) ≡ some byte) × (get_elem? bytes (other_half m + i) ≡ some 0x0c)

mixes-IsMixed :
    (broadcast chat sampler line : Mix)
    → IsMixed (mixes broadcast chat sampler line) broadcast 0 2
      × IsMixed (mixes broadcast chat sampler line) chat 1 4
      × IsMixed (mixes broadcast chat sampler line) sampler 2 6
      × IsMixed (mixes broadcast chat sampler line) line 3 8
unfolding place
mixes-IsMixed Mix.a Mix.a Mix.a Mix.a = ((refl, refl), (refl, refl), (refl, refl), (refl, refl))
mixes-IsMixed Mix.a Mix.a Mix.a Mix.b = ((refl, refl), (refl, refl), (refl, refl), (refl, refl))
mixes-IsMixed Mix.a Mix.a Mix.b Mix.a = ((refl, refl), (refl, refl), (refl, refl), (refl, refl))
mixes-IsMixed Mix.a Mix.a Mix.b Mix.b = ((refl, refl), (refl, refl), (refl, refl), (refl, refl))
mixes-IsMixed Mix.a Mix.b Mix.a Mix.a = ((refl, refl), (refl, refl), (refl, refl), (refl, refl))
mixes-IsMixed Mix.a Mix.b Mix.a Mix.b = ((refl, refl), (refl, refl), (refl, refl), (refl, refl))
mixes-IsMixed Mix.a Mix.b Mix.b Mix.a = ((refl, refl), (refl, refl), (refl, refl), (refl, refl))
mixes-IsMixed Mix.a Mix.b Mix.b Mix.b = ((refl, refl), (refl, refl), (refl, refl), (refl, refl))
mixes-IsMixed Mix.b Mix.a Mix.a Mix.a = ((refl, refl), (refl, refl), (refl, refl), (refl, refl))
mixes-IsMixed Mix.b Mix.a Mix.a Mix.b = ((refl, refl), (refl, refl), (refl, refl), (refl, refl))
mixes-IsMixed Mix.b Mix.a Mix.b Mix.a = ((refl, refl), (refl, refl), (refl, refl), (refl, refl))
mixes-IsMixed Mix.b Mix.a Mix.b Mix.b = ((refl, refl), (refl, refl), (refl, refl), (refl, refl))
mixes-IsMixed Mix.b Mix.b Mix.a Mix.a = ((refl, refl), (refl, refl), (refl, refl), (refl, refl))
mixes-IsMixed Mix.b Mix.b Mix.a Mix.b = ((refl, refl), (refl, refl), (refl, refl), (refl, refl))
mixes-IsMixed Mix.b Mix.b Mix.b Mix.a = ((refl, refl), (refl, refl), (refl, refl), (refl, refl))
mixes-IsMixed Mix.b Mix.b Mix.b Mix.b = ((refl, refl), (refl, refl), (refl, refl), (refl, refl))

-- In the bytes of the submixes' outputs, each output after the headphones has its own byte in the
-- half of the mix that it takes, which is A while the submixes are disabled, and 0x0c in the
-- other half.
pub channel_mixes-IsMixed :
    (p : Profile)
    → IsMixed (channel_mixes p) (mix_of p OutputDevice.broadcast_mix) 0 2
      × IsMixed (channel_mixes p) (mix_of p OutputDevice.chat_mic) 1 4
      × IsMixed (channel_mixes p) (mix_of p OutputDevice.sampler) 2 6
      × IsMixed (channel_mixes p) (mix_of p OutputDevice.line_out) 3 8
channel_mixes-IsMixed p = rw (channel_mixes-mixes p) (
    mixes-IsMixed (mix_of p OutputDevice.broadcast_mix) (mix_of p OutputDevice.chat_mic)
      (mix_of p OutputDevice.sampler) (mix_of p OutputDevice.line_out))
