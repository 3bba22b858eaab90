-- ===== src/Device/Session/Reached.antt =====
-- The devices that a session leads to.
use goxlr_utility.Base.{◌≡◌, Bool, true, false}
use goxlr_utility.Types.{FaderName}
use goxlr_utility.Profile.{Profile}
use goxlr_utility.Profile.Mute.{get_mute_chat_button_state, is_mic_on_fader, get_mic_fader}
use goxlr_utility.Profile.Faders.{get_fader_assignment}
use goxlr_utility.Device.State.{Device, ok, ◌>>◌}
use goxlr_utility.Device.Hardware.Quiet.{Succeeds, Succeeds-bind}
use goxlr_utility.Device.Lights.{update_button_states}
use goxlr_utility.Device.Mute.{handle_fader_mute}
use goxlr_utility.Device.Mute.Effect.{IsSound-Same}
use goxlr_utility.Device.Mute.Steps.{update_button_states-Quiet}
use goxlr_utility.Device.Mute.Agreement.{handle_fader_mute-IsSound}
use goxlr_utility.Device.Cough.{handle_cough_mute}
use goxlr_utility.Device.Cough.Effect.{KnowsMic}
use goxlr_utility.Device.Cough.Branches.{IsReady}
use goxlr_utility.Device.Cough.Presses.{handle_cough_mute-IsReady}
use goxlr_utility.Device.Session.{Event, handle, Leads, here, after}
use goxlr_utility.Device.Session.Keeps.{handle_fader_mute-Keeps}

pub KnowsMic-eq :
    (p q : Profile) → q.faders ≡ p.faders → q.mute_chat ≡ p.mute_chat → KnowsMic p → KnowsMic q
unfolding get_mute_chat_button_state is_mic_on_fader get_mic_fader get_fader_assignment
KnowsMic-eq p q e f m = record {
  on_fader = rw (e, f) m.on_fader;
  located = rw (e, f) m.located;
  still = rw f m.still;
}

fader_mute-IsReady :
    (f : FaderName) (held : Bool) (d : Device)
    → IsReady d
    → ((handle_fader_mute f held d).0 ≡ ok tt) × IsReady (handle_fader_mute f held d).1
fader_mute-IsReady f held d r =
    let s = handle_fader_mute-IsSound f held d r.sound in
    let u = (handle_fader_mute-Keeps f held).untouched d r.sound.link in
    (
      s.0,
      record {
        sound = s.1;
        knows =
            KnowsMic-eq d.profile (handle_fader_mute f held d).1.profile u.faders u.mute_chat
              r.knows;
      },
    )

lit_again : (d : Device) → IsReady d → Succeeds IsReady update_button_states d
lit_again d r =
    let q = update_button_states-Quiet in
    let s = q.same d r.sound.link in
    record {
      done = q.succeeds d r.sound.link;
      post = record {
        sound = IsSound-Same s r.sound;
        knows =
            KnowsMic-eq d.profile (update_button_states d).1.profile s.faders s.mute_chat r.knows;
      };
    }

cough_event-IsReady :
    (press release held held_called : Bool) (d : Device)
    → IsReady d
    → Succeeds IsReady (handle_cough_mute press release held held_called >> update_button_states) d
cough_event-IsReady press release held held_called d r =
    let s = handle_cough_mute-IsReady press release held held_called d r in
    Succeeds-bind IsReady (handle_cough_mute press release held held_called) update_button_states
      (record { done = s.0; post = s.1 }) lit_again

pub handle-IsReady : (event : Event) (d : Device) → IsReady d → Succeeds IsReady (handle event) d
unfolding handle
handle-IsReady (Event.fader_held f) d r =
    let s = fader_mute-IsReady f true d r in record { done = s.0; post = s.1 }
handle-IsReady (Event.fader_released f false) d r =
    let s = fader_mute-IsReady f false d r in record { done = s.0; post = s.1 }
handle-IsReady (Event.fader_released f true) d r = lit_again d r
handle-IsReady Event.cough_pressed d r = cough_event-IsReady true false false false d r
handle-IsReady Event.cough_held d r = cough_event-IsReady false false true false d r
handle-IsReady (Event.cough_released b) d r = cough_event-IsReady false true false b d r

-- Every device that fader and cough buttons lead to from a ready one, in any order and number, is
-- ready: the hardware has every channel muted or not as the profile wants it.
pub Leads-IsReady : {d e : Device} → Leads d e → IsReady d → IsReady e
Leads-IsReady here r = r
Leads-IsReady (after {e = e} l event) r = (handle-IsReady event e (Leads-IsReady l r)).post
