-- ===== src/Profile/Router/Update.antt =====
-- `set_routing` and the router.
use goxlr_utility.Base.{◌≡◌, Bool, ◌&&◌, some, ◌==◌, if◌then◌else◌, arith}
use goxlr_utility.Types.{
  InputDevice, OutputDevice, input_device_enumeration, output_device_enumeration,
}
use goxlr_utility.Profile.State.{Profile}
use goxlr_utility.Profile.Router.{create_router, get_router, get_monitoring_mix, set_routing}

-- Where `set_routing` does not refuse, the router of the profile changes at that input and output
-- to the value set, whatever output is monitored, and nowhere else.
pub create_router-set_routing :
    (p q : Profile) (i j : InputDevice) (o u : OutputDevice) (enabled : Bool)
    → set_routing i o enabled p ≡ some q
    → create_router q j u ≡ (if (j == i) && (u == o) then enabled else create_router p j u)
unfolding create_router get_router get_monitoring_mix set_routing
create_router-set_routing p q i j o u enabled e = ground (arith, e)
