-- ===== src/Examples/Commanded.antt =====
-- The theorems on commands applied to a concrete device.
use goxlr_utility.Base.{◌≡◌, ◌⊎◌, refl}
use goxlr_utility.Types.{ChannelName, FaderName, MuteFunction}
use goxlr_utility.Profile.Mute.{is_mic_on_fader, get_mute_chat_button_state}
use goxlr_utility.Device.{Device, Error, ok, err}
use goxlr_utility.Device.Cough.Branches.{IsReady}
use goxlr_utility.Device.Session.{Event, handle}
use goxlr_utility.Device.Command.{GoxlrCommand}
use goxlr_utility.Device.Commands.{perform_command}
use goxlr_utility.Device.Commands.Agreement.{IsAllowed, perform_command-IsReady}
use goxlr_utility.Device.Commands.Reached.{Reaches, here, event, command, Reaches-IsReady}
use goxlr_utility.Examples.{open_device, open-IsReady}

-- The microphone moves from fader A to fader B.
abbrev move_mic : GoxlrCommand
move_mic = GoxlrCommand.set_fader FaderName.b ChannelName.mic

move_mic-IsAllowed : IsAllowed move_mic open_device
unfolding IsAllowed is_mic_on_fader
move_mic-IsAllowed q = refl

perform_command-IsReady_example :
    (((perform_command move_mic open_device).0 ≡ ok tt)
      × IsReady (perform_command move_mic open_device).1)
    ⊎ (perform_command move_mic open_device ≡ (err Error.bail, open_device))
perform_command-IsReady_example =
    perform_command-IsReady move_mic open_device open-IsReady move_mic-IsAllowed

-- The cough button is set to mute the stream while it is dark; then fader A's
-- button is held, and the volume of the chat set.
abbrev mute_stream : GoxlrCommand
mute_stream = GoxlrCommand.set_cough_mute_function MuteFunction.to_stream

mute_stream-IsAllowed : IsAllowed mute_stream open_device
unfolding IsAllowed get_mute_chat_button_state
mute_stream-IsAllowed = (refl, refl)

abbrev told : Device
told = (perform_command mute_stream open_device).1

abbrev shut : Device
shut = (handle (Event.fader_held FaderName.a) told).1

abbrev lowered : Device
lowered = (perform_command (GoxlrCommand.set_volume ChannelName.chat 20) shut).1

volume-IsAllowed : IsAllowed (GoxlrCommand.set_volume ChannelName.chat 20) shut
unfolding IsAllowed
volume-IsAllowed = tt

abbrev session : Reaches open_device lowered
session =
    command (event (command here mute_stream mute_stream-IsAllowed) (Event.fader_held FaderName.a))
      (GoxlrCommand.set_volume ChannelName.chat 20) volume-IsAllowed

Reaches-IsReady_example : IsReady lowered
Reaches-IsReady_example = Reaches-IsReady {d = open_device} {e = lowered} session open-IsReady
