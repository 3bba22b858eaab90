-- ===== src/Lib.antt =====
-- GoXLR Utility: the mixer's state, its commands and lights, and the handlers of its buttons.
--
-- The daemon keeps a profile (daemon/src/profile.rs over the profile crate) and turns the events of
-- a device into changes of the profile and requests to the hardware (daemon/src/device.rs over
-- the usb crate). The files follow that split:
--   Base       tests on numbers, lists as arrays, and field-less enums with their `as` and EnumIter.
--   Types      types/src/lib.rs: channels, faders, inputs, outputs, effect and microphone keys.
--   Usb        usb/src: buttons, states, colour targets and their positions (Colouring), routing
--              positions (Routing), command numbers (Command) and the requests (Requests); Wire the
--              bytes of requests and replies (device/base.rs), Perform `perform_request` of
--              device/libusb/device.rs.
--   Profile    State is the data, Mute the mute buttons and the cough button, Faders the
--              assignments and volumes, Router the routing table and the monitor mix, Lighting the
--              colour map, Submix the submix volumes, Conversion the two sets of names.
--   Device     State is the device and its actions, Routing `apply_routing`, Lights the button
--              states, colours and firmware tests, Mute `handle_fader_mute`, Cough
--              `handle_cough_mute`, Faders `set_fader` and the lock of the faders, Volumes
--              `update_volumes_to`, Inputs the presses, holds and releases that `update_state` and
--              `monitor_inputs` find, Session the mute buttons' events one after another,
--              Commands `perform_command` for the commands of the mixer, Submix
--              `load_submix_settings`, Loading `get_load_volume_order`, Hardware
--              what the requests sent so far make of the hardware, Speech the spoken messages.
--   Effects    profile/src/components: the pitch, gender and echo encoders, with i8 and i32 as
--              integers (Base.Int) and every cast to i8 written out.
--   Mic        the equalisers of the full device and the Mini and the compressor:
--              profile/src/microphone/equalizer.rs, equalizer_mini.rs and compressor.rs, and their
--              setters in daemon/src/mic_profile.rs.
--   Examples   a concrete device, and the theorems applied to it.
--
-- A handler is an `Action`: a function from a device to a result and a device. It keeps the
-- requests sent, the newest first, and the changes made before an error. `Link` stands for the USB
-- connection: a reliable one answers every request, a flaky one fails those that a function of
-- the requests before it picks. The functions of the source that return a tuple return a record.
-- The calls that a handler repeats are definitions of their own, named for what they do.
--
-- `IsSound` is a device between two events: the link is reliable, no channel is on two faders, a
-- blinking button is lit, and the last channel state sent for each channel is the one that the
-- mute buttons and the cough button want. `IsReady` adds that the cough button's settings know
-- the fader that has the microphone, and that without toggle the button does not blink. A command
-- `IsAllowed` when it is none that breaks this: the cough button's function and its hold mode change
-- only while it mutes nothing, and the microphone goes to a fader only from another.
--
-- Third-party code is not modelled: enum_map's maps are functions, strum's iterators are lists, the
-- scribbles renderer is the field `render` of a device. Logging is left out, and async calls are
-- made in the order of the code. Settings are read as fields of the device. Numbers are natural
-- numbers: discriminants, bytes, volumes and firmware versions, all below the width of their types.
-- A colour, a colour state and a blink that the source unwraps are present, so the panics on a
-- broken profile are not modelled. Loops run over the fixed lists of an enum's variants, and need
-- no fuel.
--
-- `perform_request` calls itself for a resync, for the reset of a full counter and, through
-- `trigger_disconnect`, for the check of the connection; it has fuel. A request other than a reset
-- is one call deeper than a retried one, which is one deeper than what a reset can call, and a
-- device that is not being disconnected adds two: so six is enough. The handle of rusb and the
-- channel that reports a disconnect are the record `Handle`, for any behaviour of them; byteorder
-- is the record `ByteOrder`, with what it documents in `IsByteOrder`. `Serves` is a handle whose
-- device answers every packet with its index within twenty reads. The sleeps are left out, and so
-- are the debug assertions of a release build.
--
-- The trackers of the buttons give the calls of the handlers instead of making them, since no
-- handler touches their state. The time is an argument, and is not assumed to grow: a difference
-- that the source would take below zero stops at 0. The f64 product of a volume and a submix ratio,
-- cast to u8, is a field of the profile.
--
-- An f32 of the equalisers is a whole number of units of 2^-149, an infinity or NaN (Base.Float):
-- comparisons and remainders of f32 values are exact, and nothing else is done with them there.
--
-- Not modelled: parsing and writing of profiles, the other effects and their encoders, the sampler,
-- the microphone's other parameters, the start-up and polling task of the USB back end, the back end for
-- the Windows driver, and the other programs of the repository (client, launcher, initialiser,
-- audio, ipc).
--
pub mod Base
pub mod Types
pub mod Usb
pub mod Profile
pub mod Device
pub mod Effects
pub mod Mic
pub mod Examples
