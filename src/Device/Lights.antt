-- ===== src/Device/Lights.antt =====
-- The lighting that the device is sent, and what its firmware supports.
pub mod Painted
pub mod Shown
pub mod Versions
use Prim.Native.Nat.{compare, Ordering}
use goxlr_utility.Base.{
  ℕ, Bool, true, false, ◌||◌, ◌==◌, List, [], ◌∷◌, set, replicate, take, index, leb, if◌then◌else◌,
}
use goxlr_utility.Types.{VersionNumber, FaderName, EffectKey}
use goxlr_utility.Usb.{
  Buttons, ButtonStates, Request, buttons_variants, buttons_index, buttons_enumeration,
}
use goxlr_utility.Profile.{Profile}
use goxlr_utility.Profile.Mute.{get_mute_chat_button_colour_state, get_mic_mute}
use goxlr_utility.Profile.Lighting.{get_button_colour_state, get_colour_map}
use goxlr_utility.Device.State.{Device, DeviceType, Action, Done, request}

-- the loop over the buttons of `create_button_states`
unfoldable pub light_buttons : Profile → List Buttons → List ButtonStates → List ButtonStates
light_buttons p [] result = result
light_buttons p (button ∷ rest) result =
    light_buttons p rest (set result (index button) (get_button_colour_state p button))

unfoldable pub create_button_states : Profile → List ButtonStates
unfolding light_buttons buttons_index
create_button_states p =
    set (light_buttons p buttons_variants (replicate 24 ButtonStates.dimmed_colour1))
      (index Buttons.microphone_mute) (get_mute_chat_button_colour_state p)

unfoldable pub update_button_states : Action Done
update_button_states d = request (Request.set_button_states (create_button_states d.profile)) d

-- daemon/src/profile.rs: `version_newer_or_equal_to`
unfoldable pub version_newer_or_equal_to : VersionNumber → VersionNumber → Bool
version_newer_or_equal_to version comparison = elim (compare version.v0 comparison.v0) [
  | Ordering.gt ↦ true
  | Ordering.lt ↦ false
  | Ordering.eq ↦ elim (compare version.v1 comparison.v1) [
    | Ordering.gt ↦ true
    | Ordering.lt ↦ false
    | Ordering.eq ↦ elim (compare version.v2 comparison.v2) [
      | Ordering.gt ↦ true
      | Ordering.lt ↦ false
      | Ordering.eq ↦ leb comparison.v3 version.v3
    ]
  ]
]

abbrev version : ℕ → ℕ → ℕ → ℕ → VersionNumber
version a b c d = record { v0 = a; v1 = b; v2 = c; v3 = d }

unfoldable pub device_supports_submixes : DeviceType → VersionNumber → Bool
unfolding version_newer_or_equal_to
device_supports_submixes DeviceType.unknown firmware = false
device_supports_submixes DeviceType.full firmware =
    version_newer_or_equal_to firmware (version 1 4 2 107)
device_supports_submixes DeviceType.mini firmware =
    version_newer_or_equal_to firmware (version 1 2 0 46)

unfoldable pub device_supports_animations : DeviceType → VersionNumber → Bool
unfolding version_newer_or_equal_to
device_supports_animations DeviceType.unknown firmware = true
device_supports_animations DeviceType.full firmware =
    version_newer_or_equal_to firmware (version 1 3 40 0)
device_supports_animations DeviceType.mini firmware =
    version_newer_or_equal_to firmware (version 1 1 8 0)

abbrev pub is_mini : DeviceType → Bool
is_mini DeviceType.mini = true
is_mini _ = false

-- the request that `load_colour_map` makes; the old format is the map's first 328 bytes
unfoldable pub colour_map_request : Device → Request
unfolding device_supports_animations
colour_map_request d =
    let blank_mute = is_mini d.device_type || d.settings.lock_faders in
    let use_1_3_40_format = device_supports_animations d.device_type d.firmware in
    let colour_map = get_colour_map d.profile use_1_3_40_format blank_mute in
    if use_1_3_40_format
    then Request.set_button_colours_1_3_40 colour_map
    else Request.set_button_colours (take 328 colour_map)

unfoldable pub load_colour_map : Action Done
load_colour_map d = request (colour_map_request d) d

-- `apply_effects` on the one effect that the mute handlers send
unfoldable pub apply_mic_input_mute : Action Done
apply_mic_input_mute d =
    request (Request.set_effect_values ((EffectKey.mic_input_mute, get_mic_mute d.profile) ∷ [])) d

unfoldable pub apply_scribble : FaderName → Action Done
apply_scribble fader d =
    request (Request.set_fader_scribble fader (d.render (d.profile.scribbles fader))) d
