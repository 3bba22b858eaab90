-- ===== src/Device/Commands/Agreement.antt =====
-- `perform_command` and the mute state of the channels.
use goxlr_utility.Base.{
  ◌≡◌, ◌⊎◌, inl, inr, refl, ◌∙◌, Bool, true, false, not, Option, none, some, ite, if◌then◌else◌,
}
use goxlr_utility.Types.{ChannelName, InputDevice, OutputDevice, MuteFunction-discrete}
use goxlr_utility.Profile.{Profile}
use goxlr_utility.Profile.Mute.{get_mute_button_state, get_mute_chat_button_state, is_mic_on_fader}
use goxlr_utility.Profile.Router.{set_routing}
use goxlr_utility.Profile.Submix.{is_submix_enabled}
use goxlr_utility.Device.State.{Device, Action, Done, Error, ok, err, pure, raise}
use goxlr_utility.Device.Hardware.Quiet.{Quiet-bind, Succeeds, Succeeds-eq}
use goxlr_utility.Device.Mute.Steps.{apply_routing-Quiet}
use goxlr_utility.Device.Cough.Branches.{IsReady}
use goxlr_utility.Device.Faders.Ready.{set_fader-IsReady}
use goxlr_utility.Device.Command.{GoxlrCommand, MuteState}
use goxlr_utility.Device.Commands.{
  perform_command, reroute, equal, change_lock, change_submix_enabled, change_mute_function,
  change_cough_function, set_cough_state,
}
use goxlr_utility.Device.Commands.Steps.{
  Safe-Quiet, Safe-pure, Safe-if, Quiet-settings, IsReady-Same,
}
use goxlr_utility.Device.Commands.Unmuted.{
  load_submix_settings-Quiet, change_volume-Quiet, monitor-Quiet, change_submix_enabled-Quiet,
  set_mix_output-Quiet, reroute-Quiet,
}
use goxlr_utility.Device.Commands.Locking.{change_lock-Safe}
use goxlr_utility.Device.Commands.Muting.{
  Outcome, change_mute_function-Safe, set_fader_state-Outcome,
}
use goxlr_utility.Device.Commands.Coughing.{
  IsCalm, change_cough_function-IsReady, is_held-IsReady, set_cough_state-IsReady,
}

-- When a command keeps a device ready: the microphone goes to a fader only from another fader, and
-- the settings of the cough button change only while it mutes nothing.
unfoldable pub IsAllowed : GoxlrCommand → Device → Type 0
IsAllowed (GoxlrCommand.set_fader f c) d = c ≡ ChannelName.mic → is_mic_on_fader d.profile ≡ true
IsAllowed (GoxlrCommand.set_cough_mute_function b) d = IsCalm d
IsAllowed (GoxlrCommand.set_cough_is_hold b) d = IsCalm d
IsAllowed _ d = Unit {0}

unless_same :
    {P : Type 0} (t : Dec P) (k : Action Done) (d : Device)
    → IsReady d
    → Succeeds IsReady k d
    → Succeeds IsReady (ite t (pure tt) k) d
unless_same (yes p) k d r s = Safe-pure d r
unless_same (no n) k d r s = s

Outcome-eq : (m k : Action Done) (d : Device) → m d ≡ k d → Outcome k d → Outcome m d
Outcome-eq m k d e (inl s) = inl (Succeeds-eq m k e s)
Outcome-eq m k d e (inr q) = inr (e ∙ q)

rerouted :
    (i : InputDevice) (o : OutputDevice) (b : Bool) (d : Device) (found : Option Profile)
    → set_routing i o b d.profile ≡ found
    → IsReady d
    → Outcome (reroute i found) d
unfolding reroute
rerouted i o b d none e r = inr refl
rerouted i o b d (some p) e r =
    let s = reroute-Quiet i o b d p e r.sound.link in
    inl (record { done = s.done; post = IsReady-Same s.post r })

toggled :
    (state : MuteState) (d : Device) (toggles : Bool)
    → (get_mute_chat_button_state d.profile).mute_toggle ≡ toggles
    → IsReady d
    → Outcome (if not toggles then raise Error.bail else set_cough_state state) d
toggled state d true e r = inl (set_cough_state-IsReady state d r e)
toggled state d false e r = inr refl

performed :
    (c : GoxlrCommand) (d : Device) → IsReady d → IsAllowed c d → Outcome (perform_command c) d
unfolding perform_command IsAllowed
performed (GoxlrCommand.set_fader f c) d r a = inl (set_fader-IsReady f c d r a)
performed (GoxlrCommand.set_fader_mute_function f b) d r a =
    let s =
      unless_same (MuteFunction-discrete (get_mute_button_state d.profile f).mute_function b)
        (change_mute_function f b) d r (change_mute_function-Safe f b d r) in
    inl (record { done = s.done; post = s.post })
performed (GoxlrCommand.set_volume c v) d r a = inl (Safe-Quiet (change_volume-Quiet c v) d r)
performed (GoxlrCommand.set_router i o b) d r a =
    Outcome-eq (perform_command (GoxlrCommand.set_router i o b))
      (reroute i (set_routing i o b d.profile)) d refl (rerouted i o b d _ refl r)
performed (GoxlrCommand.set_cough_mute_function b) d r a =
    let s =
      unless_same (MuteFunction-discrete (get_mute_chat_button_state d.profile).mute_function b)
        (change_cough_function b) d r (change_cough_function-IsReady b d a r) in
    inl (record { done = s.done; post = s.post })
performed (GoxlrCommand.set_cough_is_hold b) d r a = inl (is_held-IsReady b d a r)
performed (GoxlrCommand.set_vc_mute_also_mute_cm b) d r a = inl (Safe-Quiet (Quiet-settings _) d r)
performed (GoxlrCommand.set_monitor_with_fx b) d r a = inl (
    Safe-Quiet (Quiet-bind _ _ (Quiet-settings _) (apply_routing-Quiet InputDevice.microphone)) d r)
performed (GoxlrCommand.set_lock_faders b) d r a =
    let s =
      Safe-if (equal d.settings.lock_faders b) (pure tt) (change_lock b) Safe-pure
        (change_lock-Safe b) d r in
    inl (record { done = s.done; post = s.post })
performed (GoxlrCommand.set_fader_mute_state f state) d r a = set_fader_state-Outcome f state d r
performed (GoxlrCommand.set_cough_mute_state state) d r a =
    Outcome-eq (perform_command (GoxlrCommand.set_cough_mute_state state))
      (if not (get_mute_chat_button_state d.profile).mute_toggle
        then raise Error.bail
        else set_cough_state state)
      d refl (toggled state d _ refl r)
performed (GoxlrCommand.set_sub_mix_enabled b) d r a =
    let s =
      Safe-if (equal (is_submix_enabled d.profile) b) (pure tt) (change_submix_enabled b) Safe-pure
        (Safe-Quiet (change_submix_enabled-Quiet b)) d r in
    inl (record { done = s.done; post = s.post })
performed (GoxlrCommand.set_sub_mix_output_mix o m) d r a =
    inl (
      Safe-Quiet (Quiet-bind _ _ (set_mix_output-Quiet o m) (load_submix_settings-Quiet false)) d r)
performed (GoxlrCommand.set_monitor_mix o) d r a =
    inl (Safe-Quiet (Quiet-bind _ _ (monitor-Quiet o) (load_submix_settings-Quiet false)) d r)

-- A command that is allowed on a ready device is done and leaves it ready, or it is an error that
-- changes nothing: no channel is on two faders, and the hardware has every channel muted or not
-- as the profile wants it.
pub perform_command-IsReady :
    (c : GoxlrCommand) (d : Device)
    → IsReady d
    → IsAllowed c d
    → (((perform_command c d).0 ≡ ok tt) × IsReady (perform_command c d).1)
      ⊎ (perform_command c d ≡ (err Error.bail, d))
perform_command-IsReady c d r a = elim (performed c d r a) [
  | inl s ↦ inl (s.done, s.post)
  | inr q ↦ inr q
]
