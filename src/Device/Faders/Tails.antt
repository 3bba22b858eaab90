-- ===== src/Device/Faders/Tails.antt =====
-- The requests that end `set_fader`, which leave the mute state of the channels alone.
use goxlr_utility.Base.{refl}
use goxlr_utility.Types.{ChannelName, FaderName, fader_name_enumeration, channel_name_enumeration}
use goxlr_utility.Usb.{Request}
use goxlr_utility.Device.State.{Action, Done, ◌>>◌, when, request}
use goxlr_utility.Device.Lights.{update_button_states, apply_scribble}
use goxlr_utility.Device.Hardware.Quiet.{Quiet, Quiet-here, Quiet-request}
use goxlr_utility.Device.Mute.{is_headphones_or_line_out}
use goxlr_utility.Device.Mute.Steps.{step_rules}
use goxlr_utility.Device.Faders.{send_volume}

pub send_volume-Quiet : (c : ChannelName) → Quiet (send_volume c)
unfolding send_volume
send_volume-Quiet c = Quiet-here _ (λ d. Quiet-request _ (λ c sent. refl))

pub apply_scribble-Quiet : (f : FaderName) → Quiet (apply_scribble f)
unfolding apply_scribble
apply_scribble-Quiet f = Quiet-here _ (λ d. Quiet-request _ (λ c sent. refl))

pub set_fader-Quiet : (f : FaderName) (c : ChannelName) → Quiet (request (Request.set_fader f c))
set_fader-Quiet f c = Quiet-request _ (λ c sent. refl)

pub ruleset fader_rules = (step_rules, send_volume-Quiet, apply_scribble-Quiet, set_fader-Quiet)

-- The requests that follow the change of the profile.
unfoldable pub replace_tail : FaderName → ChannelName → ChannelName → Action Done
replace_tail f existing new = do
  request (Request.set_fader f new)
  send_volume existing
  when (is_headphones_or_line_out new) (send_volume new)
  update_button_states

pub replace_tail-Quiet :
    (f : FaderName) (existing new : ChannelName) → Quiet (replace_tail f existing new)
unfolding replace_tail
replace_tail-Quiet f existing new = search fader_rules depth 14

unfoldable pub exchange_tail : FaderName → FaderName → ChannelName → ChannelName → Action Done
exchange_tail f g existing new = do
  request (Request.set_fader f new)
  request (Request.set_fader g existing)
  when (is_headphones_or_line_out new) (send_volume new)
  when (is_headphones_or_line_out existing) (send_volume existing)
  apply_scribble f
  apply_scribble g
  update_button_states

pub exchange_tail-Quiet :
    (f g : FaderName) (existing new : ChannelName) → Quiet (exchange_tail f g existing new)
unfolding exchange_tail
exchange_tail-Quiet f g existing new = search fader_rules depth 18
