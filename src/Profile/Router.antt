-- ===== src/Profile/Router.antt =====
-- The routing table of a profile and its monitor mix, daemon/src/profile.rs.
pub mod Columns
pub mod Update
pub mod Monitor
use goxlr_utility.Base.{
  ℕ, Bool, true, false, not, ◌&&◌, Option, none, some, List, [], ◌∷◌, ◌==◌, update, if◌then◌else◌,
  ltb,
}
use goxlr_utility.Types.{
  InputDevice, OutputDevice, input_device_variants, input_device_enumeration,
  output_device_enumeration,
}
use goxlr_utility.Profile.State.{Profile, MonitorTree}

abbrev pub Router : Type 0
Router = OutputDevice → Bool

unfoldable pub get_router : Profile → InputDevice → Router
get_router p input output = ltb 0 (p.mixer_table input output)

unfoldable pub get_monitoring_mix : Profile → OutputDevice
get_monitoring_mix p = p.monitor_tree.monitored_output

abbrev pub is_headphones : OutputDevice → Bool
is_headphones output = output == OutputDevice.headphones

-- The headphones column comes from the monitor tree while another output is monitored.
unfoldable pub create_router : Profile → InputDevice → Router
unfolding get_router get_monitoring_mix
create_router p input output =
    if not (is_headphones (get_monitoring_mix p)) && is_headphones output
    then ltb 0 (p.monitor_tree.routing input)
    else get_router p input output

abbrev pub volume_of : Bool → ℕ
volume_of enabled = if enabled then 8192 else 0

abbrev pub set_cell : InputDevice → OutputDevice → ℕ → Profile → Profile
set_cell input output value p = record p {
  mixer_table = update p.mixer_table input (update (p.mixer_table input) output value);
}

unfoldable pub set_monitor_routing : InputDevice → OutputDevice → Bool → Profile → Profile
set_monitor_routing input output enabled p = set_cell input output (volume_of enabled) p

abbrev pub set_stored : InputDevice → ℕ → Profile → Profile
set_stored input value p = record p {
  monitor_tree = record p.monitor_tree { routing = update p.monitor_tree.routing input value };
}

-- `none` is the `bail!`.
unfoldable pub set_routing : InputDevice → OutputDevice → Bool → Profile → Option Profile
unfolding get_monitoring_mix
set_routing input output enabled p =
    let monitoring = get_monitoring_mix p in
    let value = volume_of enabled in
    let elsewhere = not (is_headphones monitoring) in
    if (input == InputDevice.chat) && (output == OutputDevice.chat_mic)
    then none
    else if elsewhere && is_headphones output
    then some (set_stored input value p)
    else if elsewhere && (monitoring == output)
    then some (set_cell input OutputDevice.headphones value (set_cell input output value p))
    else some (set_cell input output value p)

-- the loop of `set_monitor_mix` that stores the headphones' routing
unfoldable pub stored_routing :
    (InputDevice → Router) → List InputDevice → (InputDevice → ℕ) → InputDevice → ℕ
stored_routing router [] map = map
stored_routing router (input ∷ rest) map =
    stored_routing router rest
      (if router input OutputDevice.headphones then update map input 8192 else map)

-- its loops that write the headphones' column
unfoldable pub write_headphones : (InputDevice → Bool) → List InputDevice → Profile → Profile
unfolding set_monitor_routing
write_headphones on [] p = p
write_headphones on (input ∷ rest) p =
    write_headphones on rest (set_monitor_routing input OutputDevice.headphones (on input) p)

unfoldable pub copy_to_headphones : OutputDevice → List InputDevice → Profile → Profile
unfolding set_monitor_routing get_router
copy_to_headphones device [] p = p
copy_to_headphones device (input ∷ rest) p =
    copy_to_headphones device rest
      (set_monitor_routing input OutputDevice.headphones (get_router p input device) p)

-- What `set_monitor_mix` stores on leaving the headphones, and the mix that it gives them; `p` is
-- the profile in which the monitored output is the new one already.
unfoldable pub store_headphones : OutputDevice → Profile → Profile
unfolding create_router stored_routing
store_headphones device p = record p {
  monitor_tree = record p.monitor_tree {
    routing = stored_routing (create_router p) input_device_variants (λ _. 0);
    headphone_mix = p.mix_routing OutputDevice.headphones;
  };
  mix_routing = update p.mix_routing OutputDevice.headphones (p.mix_routing device);
}

unfoldable pub leave_headphones : OutputDevice → Profile → Profile
unfolding create_router store_headphones write_headphones
leave_headphones device p =
    write_headphones (λ input. create_router p input device) input_device_variants
      (store_headphones device p)

unfoldable pub return_to_headphones : Profile → Profile
unfolding write_headphones
return_to_headphones p =
    let q =
      write_headphones (λ input. ltb 0 (p.monitor_tree.routing input)) input_device_variants p in
    record q {
      mix_routing = update q.mix_routing OutputDevice.headphones q.monitor_tree.headphone_mix;
    }

unfoldable pub set_monitor_mix : OutputDevice → Profile → Profile
unfolding leave_headphones return_to_headphones copy_to_headphones
set_monitor_mix device p =
    let output = p.monitor_tree.monitored_output in
    let q = record p { monitor_tree = record p.monitor_tree { monitored_output = device } } in
    if output == device
    then p
    else if not (is_headphones device) && is_headphones output
    then leave_headphones device q
    else if is_headphones device && not (is_headphones output)
    then return_to_headphones q
    else copy_to_headphones device input_device_variants q
