-- ===== src/Profile/State.antt =====
-- The data of a profile. Colours, states and blinks that the source unwraps are present.
use goxlr_utility.Base.{ℕ, Bool, true, false, Option, List}
use goxlr_utility.Types.{
  ChannelName, FaderName, InputDevice, OutputDevice, MuteFunction, Mix, SubMixChannelName,
}
use goxlr_utility.Usb.{ColourTargets}

-- profile/src/components/colours.rs
pub data ColourOffStyle : Type 0 where
  dimmed colour2 dimmed_colour2 : ColourOffStyle

pub data ColourState : Type 0 where
  off on : ColourState

pub data ColourDisplay : Type 0 where
  gradient meter gradient_meter two_colour : ColourDisplay

pub record Colour : Type 0 where
  pub red : ℕ
  pub green : ℕ
  pub blue : ℕ
  pub alpha : ℕ

pub record ColourMap : Type 0 where
  pub off_style : ColourOffStyle
  pub state : ColourState
  pub blink : ColourState
  pub colour0 : Colour
  pub colour1 : Colour
  pub colour2 : Colour
  pub colour_display : Option ColourDisplay

abbrev pub is_on : ColourState → Bool
is_on ColourState.on = true
is_on ColourState.off = false

abbrev pub state_of : Bool → ColourState
state_of true = ColourState.on
state_of false = ColourState.off

-- profile/src/components/mute.rs
pub record MuteButton : Type 0 where
  pub colour_map : ColourMap
  pub mute_function : MuteFunction
  pub previous_volume : ℕ

-- profile/src/components/mute_chat.rs
pub data CoughToggle : Type 0 where
  hold toggle : CoughToggle

pub record MuteChat : Type 0 where
  pub colour_map : ColourMap
  pub mic_fader_id : ℕ
  pub blink : ColourState
  pub cough_behaviour : CoughToggle
  pub cough_mute_source : MuteFunction
  pub cough_button_on : Bool

-- profile/src/components/fader.rs
pub record Fader : Type 0 where
  pub colour_map : ColourMap
  pub channel : ChannelName

-- profile/src/components/scribble.rs: the fields that make the picture
pub record Scribble : Type 0 where
  pub colour_map : ColourMap
  pub icon_file : Option (List ℕ)
  pub text_top_left : List ℕ
  pub text_bottom_middle : List ℕ
  pub text_size : ℕ
  pub inverted : Bool

-- profile/src/components/submix/monitor_tree.rs
pub record MonitorTree : Type 0 where
  pub monitored_output : OutputDevice
  pub headphone_mix : Mix
  pub routing : InputDevice → ℕ

-- The source of the active hardtune preset, profile/src/components/hardtune.rs
pub data HardTuneSource : Type 0 where
  all music game line_in system : HardTuneSource

-- profile/src/components/submix: the volumes, links and ratios of the submixes. `link_volume` is
-- what a ratio makes of a volume, the f64 product cast to u8.
pub record Submixes : Type 0 where
  pub submix_enabled : Bool
  pub linked : SubMixChannelName → Bool
  pub link_volume : SubMixChannelName → ℕ → ℕ
  pub submix_volumes : SubMixChannelName → ℕ

-- `lights` holds the colour maps of the targets that are no fader, mute button or scribble, and
-- `has_samples` tells of each sample button whether the current bank has a track for it.
pub record Profile : Type 0 where
  pub mute_buttons : FaderName → MuteButton
  pub mute_chat : MuteChat
  pub faders : FaderName → Fader
  pub scribbles : FaderName → Scribble
  pub volumes : ChannelName → ℕ
  pub submixes : Submixes
  pub mixer_table : InputDevice → OutputDevice → ℕ
  pub monitor_tree : MonitorTree
  pub mix_routing : OutputDevice → Mix
  pub fx_enabled : Bool
  pub hardtune_source : Option HardTuneSource
  pub lights : ColourTargets → ColourMap
  pub has_samples : ColourTargets → Bool
