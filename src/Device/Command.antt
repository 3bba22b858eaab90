-- ===== src/Device/Command.antt =====
-- The commands of the mixer that a client sends.
use goxlr_utility.Base.{ℕ, Bool}
use goxlr_utility.Types.{ChannelName, FaderName, InputDevice, OutputDevice, MuteFunction, Mix}

-- types/src/lib.rs:743-747
pub data MuteState : Type 0 where
  unmuted muted_to_x muted_to_all : MuteState

-- GoXLRCommand, ipc/src/lib.rs: the commands that are modelled
pub data GoxlrCommand : Type 0 where
  set_fader : FaderName → ChannelName → GoxlrCommand
  set_fader_mute_function : FaderName → MuteFunction → GoxlrCommand
  set_volume : ChannelName → ℕ → GoxlrCommand
  set_router : InputDevice → OutputDevice → Bool → GoxlrCommand
  set_cough_mute_function : MuteFunction → GoxlrCommand
  set_cough_is_hold : Bool → GoxlrCommand
  set_vc_mute_also_mute_cm : Bool → GoxlrCommand
  set_monitor_with_fx : Bool → GoxlrCommand
  set_lock_faders : Bool → GoxlrCommand
  set_fader_mute_state : FaderName → MuteState → GoxlrCommand
  set_cough_mute_state : MuteState → GoxlrCommand
  set_sub_mix_enabled : Bool → GoxlrCommand
  set_sub_mix_output_mix : OutputDevice → Mix → GoxlrCommand
  set_monitor_mix : OutputDevice → GoxlrCommand
