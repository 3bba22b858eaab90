-- ===== src/Device/Commands/Unmuted.antt =====
-- The commands that leave the mute state of the channels alone: volumes, routing and submixes.
use goxlr_utility.Base.{
  ℕ, ◌≡◌, refl, Bool, true, false, not, Option, none, some, List, [], ◌∷◌, if◌then◌else◌, ltb,
  arith,
}
use goxlr_utility.Types.{
  ChannelName, InputDevice, OutputDevice, SubMixChannelName, Mix, input_device_variants,
}
use goxlr_utility.Usb.{Request}
use goxlr_utility.Profile.{Profile}
use goxlr_utility.Profile.Router.{
  set_monitor_mix, leave_headphones, return_to_headphones, copy_to_headphones, write_headphones,
  set_monitor_routing, create_router, set_routing, store_headphones, get_router,
}
use goxlr_utility.Profile.Submix.{set_submix_volume, set_submix_enabled, set_mix_output}
use goxlr_utility.Device.State.{Device, Link, modify_profile, request}
use goxlr_utility.Device.Hardware.Quiet.{
  Quiet, Quiet-request, Quiet-modify, Quiet-here, Quiet-if, Quiet-bind, Quiet-pure, Succeeds, Same,
  Same-trans,
}
use goxlr_utility.Device.Mute.Steps.{step_rules, apply_routing-Quiet}
use goxlr_utility.Device.Volumes.{follow_link, update_submix_for}
use goxlr_utility.Device.Submix.{sync_linked, sync_submix_volume, sync_all, load_submix_settings}
use goxlr_utility.Device.Commands.{monitor, change_volume, change_submix_enabled, reroute}
use goxlr_utility.Device.Commands.Steps.{latch-Quiet, route_all-Quiet}

sub_volume-Quiet : (m : SubMixChannelName) (v : ℕ) → Quiet (request (Request.set_sub_volume m v))
sub_volume-Quiet m v = Quiet-request _ (λ c sent. refl)

set_submix_volume-Quiet :
    (m : SubMixChannelName) (v : ℕ) → Quiet (modify_profile (set_submix_volume m v))
set_submix_volume-Quiet m v = Quiet-modify _ (λ p. (refl, refl, refl))

follow_link-Quiet : (v : ℕ) (o : Option SubMixChannelName) → Quiet (follow_link v o)
unfolding follow_link
follow_link-Quiet v none = Quiet-here _ (λ d. Quiet-pure)
follow_link-Quiet v (some m) = Quiet-here _ λ d.
    Quiet-if _ _ _ (Quiet-bind _ _ (set_submix_volume-Quiet m _) (sub_volume-Quiet m _)) Quiet-pure

update_submix_for-Quiet : (c : ChannelName) (v : ℕ) → Quiet (update_submix_for c v)
unfolding update_submix_for
update_submix_for-Quiet c v = Quiet-here _ (λ d. Quiet-if _ _ _ (follow_link-Quiet v _) Quiet-pure)

sync_linked-Quiet : (c : ChannelName) (o : Option SubMixChannelName) → Quiet (sync_linked c o)
unfolding sync_linked
sync_linked-Quiet c none = Quiet-pure
sync_linked-Quiet c (some m) =
    search (step_rules, update_submix_for-Quiet, sub_volume-Quiet) depth 12

sync_all-Quiet : (cs : List ChannelName) → Quiet (sync_all cs)
unfolding sync_all sync_submix_volume
sync_all-Quiet [] = Quiet-pure
sync_all-Quiet (c ∷ rest) = Quiet-bind _ _ (sync_linked-Quiet c _) (sync_all-Quiet rest)

mixes-Quiet : (bytes : List ℕ) → Quiet (request (Request.set_channel_mixes bytes))
mixes-Quiet bytes = Quiet-request _ (λ c sent. refl)

monitored-Quiet : (m : _) → Quiet (request (Request.set_monitored_mix m))
monitored-Quiet m = Quiet-request _ (λ c sent. refl)

pub load_submix_settings-Quiet : (volumes : Bool) → Quiet (load_submix_settings volumes)
unfolding load_submix_settings
load_submix_settings-Quiet volumes =
    search (step_rules, mixes-Quiet, monitored-Quiet, sync_all-Quiet) depth 20

pub change_volume-Quiet : (c : ChannelName) (v : ℕ) → Quiet (change_volume c v)
unfolding change_volume
change_volume-Quiet c v = search (step_rules, update_submix_for-Quiet, latch-Quiet) depth 16

-- What `Quiet-modify` asks of a change of the profile.
record Kept (p q : Profile) : Type 0 where
  buttons : q.mute_buttons ≡ p.mute_buttons
  chat : q.mute_chat ≡ p.mute_chat
  channels : q.faders ≡ p.faders

write_headphones-Kept :
    (on : InputDevice → Bool) (inputs : List InputDevice) (p : Profile)
    → Kept p (write_headphones on inputs p)
unfolding write_headphones set_monitor_routing
write_headphones-Kept on [] p = record { buttons = refl; chat = refl; channels = refl }
write_headphones-Kept on (i ∷ rest) p =
    let k =
      write_headphones-Kept on rest (set_monitor_routing i OutputDevice.headphones (on i) p) in
    record { buttons = k.buttons; chat = k.chat; channels = k.channels }

copy-Kept :
    (o : OutputDevice) (inputs : List InputDevice) (p : Profile)
    → Kept p (copy_to_headphones o inputs p)
unfolding copy_to_headphones set_monitor_routing
copy-Kept o [] p = record { buttons = refl; chat = refl; channels = refl }
copy-Kept o (i ∷ rest) p =
    let k = copy-Kept o rest (set_monitor_routing i OutputDevice.headphones (get_router p i o) p) in
    record { buttons = k.buttons; chat = k.chat; channels = k.channels }

if-Kept : (b : Bool) (p q r : Profile) → Kept p q → Kept p r → Kept p (if b then q else r)
if-Kept true p q r h k = h
if-Kept false p q r h k = k

leave_headphones-Kept : (o : OutputDevice) (p : Profile) → Kept p (leave_headphones o p)
unfolding leave_headphones store_headphones
leave_headphones-Kept o p =
    let k =
      write_headphones-Kept (λ i. create_router p i o) input_device_variants
        (store_headphones o p) in
    record { buttons = k.buttons; chat = k.chat; channels = k.channels }

return_to_headphones-Kept : (p : Profile) → Kept p (return_to_headphones p)
unfolding return_to_headphones
return_to_headphones-Kept p =
    let k = write_headphones-Kept (λ i. ltb 0 (p.monitor_tree.routing i)) input_device_variants p in
    record { buttons = k.buttons; chat = k.chat; channels = k.channels }

monitored-Kept :
    (o : OutputDevice) {p r : Profile}
    → Kept (record p { monitor_tree = record p.monitor_tree { monitored_output = o } }) r
    → Kept p r
monitored-Kept o k = record { buttons = k.buttons; chat = k.chat; channels = k.channels }

set_monitor_mix-Kept : (o : OutputDevice) (p : Profile) → Kept p (set_monitor_mix o p)
unfolding set_monitor_mix
set_monitor_mix-Kept o p =
    let q = record p { monitor_tree = record p.monitor_tree { monitored_output = o } } in
    if-Kept _ p _ _ (record { buttons = refl; chat = refl; channels = refl })
      (if-Kept _ p _ _ (monitored-Kept o (leave_headphones-Kept o q)) (
        if-Kept _ p _ _ (monitored-Kept o (return_to_headphones-Kept q))
          (monitored-Kept o (copy-Kept o input_device_variants q))))

Quiet-Kept : (f : Profile → Profile) → ((p : Profile) → Kept p (f p)) → Quiet (modify_profile f)
Quiet-Kept f k = Quiet-modify f (λ p. ((k p).buttons, (k p).chat, (k p).channels))

pub monitor-Quiet : (o : OutputDevice) → Quiet (monitor o)
unfolding monitor
monitor-Quiet o =
    Quiet-bind _ _ (Quiet-Kept (set_monitor_mix o) (set_monitor_mix-Kept o))
      (route_all-Quiet input_device_variants)

pub change_submix_enabled-Quiet : (enabled : Bool) → Quiet (change_submix_enabled enabled)
unfolding change_submix_enabled set_submix_enabled
change_submix_enabled-Quiet enabled =
    Quiet-bind _ _ (Quiet-if (not enabled) _ _ (monitor-Quiet OutputDevice.headphones) Quiet-pure) (
      Quiet-bind _ _ (Quiet-modify (set_submix_enabled enabled) (λ p. (refl, refl, refl)))
        (load_submix_settings-Quiet true))

pub set_mix_output-Quiet :
    (o : OutputDevice) (m : Mix) → Quiet (modify_profile (set_mix_output o m))
unfolding set_mix_output
set_mix_output-Quiet o m = Quiet-modify (set_mix_output o m) (λ p. (refl, refl, refl))

set_routing-Kept :
    (i : InputDevice) (o : OutputDevice) (enabled : Bool) (p q : Profile)
    → set_routing i o enabled p ≡ some q
    → Kept p q
unfolding set_routing
set_routing-Kept i o enabled p q e = record {
  buttons = ground (arith, e);
  chat = ground (arith, e);
  channels = ground (arith, e);
}

pub reroute-Quiet :
    (i : InputDevice) (o : OutputDevice) (enabled : Bool) (d : Device) (p : Profile)
    → set_routing i o enabled d.profile ≡ some p
    → d.link ≡ Link.reliable
    → Succeeds (Same d) (reroute i (some p)) d
unfolding reroute
reroute-Quiet i o enabled d p e l =
    let k = set_routing-Kept i o enabled d.profile p e in
    let q = apply_routing-Quiet i in
    let d1 = record d { profile = p } in
    record {
      done = q.succeeds d1 l;
      post =
          Same-trans
            (record {
              link = refl;
              mute_buttons = k.buttons;
              mute_chat = k.chat;
              faders = k.channels;
              states = λ c. refl;
            })
            (q.same d1 l);
    }
