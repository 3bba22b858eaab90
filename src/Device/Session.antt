-- ===== src/Device/Session.antt =====
-- The mute buttons of the faders and the cough button together: the events of a session, one after
-- another, and the devices that they lead to.
pub mod Keeps
pub mod Reached
use goxlr_utility.Base.{Bool, true, false, List, [], ◌∷◌}
use goxlr_utility.Types.{FaderName}
use goxlr_utility.Device.State.{Device, Action, Done, ◌>>=◌, ◌>>◌}
use goxlr_utility.Device.Lights.{update_button_states}
use goxlr_utility.Device.Mute.{handle_fader_mute}
use goxlr_utility.Device.Cough.{handle_cough_mute}

-- The buttons of `on_button_down`, `on_button_hold` and `on_button_up` that mute. A release tells
-- whether a hold was handled before it.
pub data Event : Type 0 where
  fader_held : FaderName → Event
  fader_released : FaderName → Bool → Event
  cough_pressed : Event
  cough_held : Event
  cough_released : Bool → Event

unfoldable pub handle : Event → Action Done
handle (Event.fader_held f) = handle_fader_mute f true
handle (Event.fader_released f false) = handle_fader_mute f false
handle (Event.fader_released f true) = update_button_states
handle Event.cough_pressed = do handle_cough_mute true false false false; update_button_states
handle Event.cough_held = do handle_cough_mute false false true false; update_button_states
handle (Event.cough_released hold_handled) = do
  handle_cough_mute false true false hold_handled
  update_button_states

-- A device leads to the next by an event that its handler handled, with an error or without.
pub data Leads : Device → Device → Type 0 where
  here : {d : Device} → Leads d d
  after : {d : Device} {e : Device} → Leads d e → (event : Event) → Leads d (handle event e).1
