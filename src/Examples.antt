-- ===== src/Examples.antt =====
-- A device with its factory channels on the faders, for the theorems to be applied to.
pub mod Applied
pub mod Wire
pub mod Sessions
pub mod Micless
pub mod Encoders
pub mod Tuning
pub mod Commanded
use goxlr_utility.Base.{ℕ, ◌≡◌, refl, ◌∙◌, sym, ap, true, false, none, some, List, [], ◌∷◌}
use goxlr_utility.Types.{
  ChannelName, ChannelName-discrete, FaderName, InputDevice, OutputDevice, MuteFunction, Mix,
  VersionNumber,
}
use goxlr_utility.Usb.{Request, ChannelState, buttons_enumeration}
use goxlr_utility.Profile.{
  Profile, Colour, ColourMap, ColourState, ColourOffStyle, MuteButton, MuteChat, CoughToggle,
  Scribble,
}
use goxlr_utility.Profile.Mute.{
  get_mute_button_state, get_mute_chat_button_state, mic_muted_by_cough, is_mic_on_fader,
  get_mic_fader, fader_from_id,
}
use goxlr_utility.Profile.Faders.{get_fader_assignment}
use goxlr_utility.Device.{Device, DeviceType, Link}
use goxlr_utility.Device.Hardware.{channel_state, wanted, wanted_off_fader}
use goxlr_utility.Device.Mute.Effect.{IsSound}
use goxlr_utility.Device.Cough.Effect.{KnowsMic}
use goxlr_utility.Device.Cough.Branches.{IsReady}

abbrev grey : Colour
grey = record { red = 128; green = 128; blue = 128; alpha = 0 }

abbrev dark_map : ColourMap
dark_map = record {
  off_style = ColourOffStyle.dimmed;
  state = ColourState.off;
  blink = ColourState.off;
  colour0 = grey;
  colour1 = grey;
  colour2 = grey;
  colour_display = none;
}

abbrev lit_map : ColourMap
lit_map = record dark_map { state = ColourState.on }

abbrev usual_channel : FaderName → ChannelName
usual_channel FaderName.a = ChannelName.mic
usual_channel FaderName.b = ChannelName.chat
usual_channel FaderName.c = ChannelName.music
usual_channel FaderName.d = ChannelName.system

abbrev usual_fader : ChannelName → FaderName
usual_fader ChannelName.mic = FaderName.a
usual_fader ChannelName.chat = FaderName.b
usual_fader ChannelName.music = FaderName.c
usual_fader _ = FaderName.d

abbrev quiet_button : MuteButton
quiet_button = record {
  colour_map = dark_map;
  mute_function = MuteFunction.all;
  previous_volume = 127;
}

abbrev lit_button : MuteFunction → MuteButton
lit_button f = record { colour_map = lit_map; mute_function = f; previous_volume = 127 }

abbrev quiet_chat : MuteChat
quiet_chat = record {
  colour_map = dark_map;
  mic_fader_id = 0;
  blink = ColourState.off;
  cough_behaviour = CoughToggle.hold;
  cough_mute_source = MuteFunction.all;
  cough_button_on = false;
}

abbrev plain_scribble : Scribble
plain_scribble = record {
  colour_map = dark_map;
  icon_file = none;
  text_top_left = [];
  text_bottom_middle = [];
  text_size = 0;
  inverted = false;
}

-- Every input is routed to every output but the sampler.
abbrev usual_table : InputDevice → OutputDevice → ℕ
usual_table i OutputDevice.sampler = 0
usual_table i _ = 8192

abbrev usual_profile : (FaderName → MuteButton) → MuteChat → Profile
usual_profile buttons chat = record {
  mute_buttons = buttons;
  mute_chat = chat;
  faders = λ f. record { colour_map = dark_map; channel = usual_channel f };
  scribbles = λ f. plain_scribble;
  volumes = λ c. 127;
  mixer_table = usual_table;
  monitor_tree = record {
    monitored_output = OutputDevice.headphones;
    headphone_mix = Mix.a;
    routing = λ i. 0;
  };
  mix_routing = λ o. Mix.a;
  submixes = record {
    submix_enabled = true;
    linked = λ c. true;
    link_volume = λ c v. v;
    submix_volumes = λ c. 0;
  };
  fx_enabled = false;
  hardtune_source = none;
  lights = λ t. dark_map;
  has_samples = λ t. false;
}

abbrev pub version_1_4_2_107 : VersionNumber
version_1_4_2_107 = record { v0 = 1; v1 = 4; v2 = 2; v3 = 107 }

abbrev all_unmuted : List Request
all_unmuted =
    Request.set_channel_state ChannelName.mic ChannelState.unmuted
    ∷ Request.set_channel_state ChannelName.line_in ChannelState.unmuted
    ∷ Request.set_channel_state ChannelName.console ChannelState.unmuted
    ∷ Request.set_channel_state ChannelName.system ChannelState.unmuted
    ∷ Request.set_channel_state ChannelName.game ChannelState.unmuted
    ∷ Request.set_channel_state ChannelName.chat ChannelState.unmuted
    ∷ Request.set_channel_state ChannelName.sample ChannelState.unmuted
    ∷ Request.set_channel_state ChannelName.music ChannelState.unmuted
    ∷ Request.set_channel_state ChannelName.headphones ChannelState.unmuted
    ∷ Request.set_channel_state ChannelName.mic_monitor ChannelState.unmuted
    ∷ Request.set_channel_state ChannelName.line_out ChannelState.unmuted
    ∷ []

abbrev usual_device : Profile → Device
usual_device p = record {
  profile = p;
  device_type = DeviceType.full;
  firmware = version_1_4_2_107;
  settings = record {
    lock_faders = false;
    enable_monitor_with_fx = false;
    vc_mute_also_mute_cm = false;
  };
  fader_last_seen = λ f. 127;
  fader_pause_until = λ f. record { paused = false; until = 0 };
  render = λ s. [];
  link = Link.reliable;
  sent = all_unmuted;
  tts = [];
}

-- Nothing is muted.
abbrev pub open_device : Device
open_device = usual_device (usual_profile (λ f. quiet_button) quiet_chat)

-- The cough button is lit, and mutes to all.
abbrev pub coughing_device : Device
coughing_device =
    usual_device (usual_profile (λ f. quiet_button) (record quiet_chat { cough_button_on = true }))

-- The button of every fader is lit.
abbrev pub lit_device : MuteFunction → Device
lit_device f = usual_device (usual_profile (λ _. lit_button f) quiet_chat)

usual_fader-channel : (f : FaderName) → usual_fader (usual_channel f) ≡ f
usual_fader-channel FaderName.a = refl
usual_fader-channel FaderName.b = refl
usual_fader-channel FaderName.c = refl
usual_fader-channel FaderName.d = refl

open_on :
    (g : FaderName)
    → channel_state (get_fader_assignment open_device.profile g) open_device.sent
      ≡ some (wanted open_device.profile g)
unfolding wanted get_fader_assignment get_mute_button_state mic_muted_by_cough
    get_mute_chat_button_state ChannelName-discrete
open_on FaderName.a = refl
open_on FaderName.b = refl
open_on FaderName.c = refl
open_on FaderName.d = refl

open_off :
    (c : ChannelName)
    → channel_state c open_device.sent ≡ some (wanted_off_fader open_device.profile c)
unfolding wanted_off_fader mic_muted_by_cough get_mute_chat_button_state ChannelName-discrete
open_off ChannelName.mic = refl
open_off ChannelName.line_in = refl
open_off ChannelName.console = refl
open_off ChannelName.system = refl
open_off ChannelName.game = refl
open_off ChannelName.chat = refl
open_off ChannelName.sample = refl
open_off ChannelName.music = refl
open_off ChannelName.headphones = refl
open_off ChannelName.mic_monitor = refl
open_off ChannelName.line_out = refl

pub open-IsSound : IsSound open_device
unfolding get_fader_assignment get_mute_button_state
open-IsSound = record {
  link = refl;
  distinct = λ f g e. sym (usual_fader-channel f) ∙ ap usual_fader e ∙ usual_fader-channel g;
  lit = λ g e. e;
  agrees = record { on_fader = open_on; off_fader = λ c n. open_off c };
}

only_fader_a : (g : FaderName) → usual_channel g ≡ ChannelName.mic → FaderName.a ≡ g
only_fader_a g e = sym (ap usual_fader e) ∙ usual_fader-channel g

open-KnowsMic : KnowsMic open_device.profile
unfolding get_fader_assignment is_mic_on_fader get_mic_fader fader_from_id
    get_mute_chat_button_state
open-KnowsMic = record {
  on_fader = λ g e. (refl, only_fader_a g e);
  located = λ e. refl;
  still = λ e. refl;
}

pub open-IsReady : IsReady open_device
open-IsReady = record { sound = open-IsSound; knows = open-KnowsMic }
