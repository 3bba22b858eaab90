-- ===== src/Profile/Router/Monitor.antt =====
-- What `set_monitor_mix` makes of the headphones.
use goxlr_utility.Base.{◌≡◌, ◌≢◌, refl, ◌∙◌, sym, ap, Bool, false, some, ◌==◌, ◌≟◌, ltb, arith}
use goxlr_utility.Types.{
  InputDevice, OutputDevice-discrete, OutputDevice, input_device_variants, input_device_enumeration,
  output_device_enumeration,
}
use goxlr_utility.Profile.State.{Profile}
use goxlr_utility.Profile.Router.{
  create_router, get_router, get_monitoring_mix, set_routing, copy_to_headphones, leave_headphones,
  store_headphones, return_to_headphones, set_monitor_mix,
}
use goxlr_utility.Profile.Router.Columns.{
  write_headphones_elsewhere, write_headphones_tree, copy_elsewhere, write_headphones_here,
  copy_here, stored_column,
}

-- The headphones follow the monitored output.
pub record IsMonitored (p : Profile) : Type 0 where
  pub follows :
      (i : InputDevice)
      → get_router p i OutputDevice.headphones ≡ get_router p i (get_monitoring_mix p)

-- On a profile whose headphones have the routing of the monitored output, whatever output that is,
-- a route that set_routing does not refuse leaves the headphones with it, and the same output is
-- monitored.
pub set_routing-IsMonitored :
    (p q : Profile) (i : InputDevice) (o : OutputDevice) (enabled : Bool)
    → IsMonitored p
    → set_routing i o enabled p ≡ some q
    → IsMonitored q × (get_monitoring_mix q ≡ get_monitoring_mix p)
unfolding set_routing get_router get_monitoring_mix
set_routing-IsMonitored p q i o enabled m e =
    (record { follows = λ j. ground (arith, e, m.follows j) }, ground (arith, e))

differ : (a b : OutputDevice) → a ≢ b → (a == b) ≡ false
differ a b n = ground (arith, n)

monitored_by : (d : OutputDevice) (p : Profile) → Profile
monitored_by d p = record p { monitor_tree = record p.monitor_tree { monitored_output = d } }

left :
    (d : OutputDevice) (p : Profile)
    → p.monitor_tree.monitored_output ≡ OutputDevice.headphones
    → d ≢ OutputDevice.headphones
    → set_monitor_mix d p ≡ leave_headphones d (monitored_by d p)
unfolding set_monitor_mix monitored_by
left d p e n = ground (arith, e, n)

returned :
    (p : Profile)
    → p.monitor_tree.monitored_output ≢ OutputDevice.headphones
    → set_monitor_mix OutputDevice.headphones p
      ≡ return_to_headphones (monitored_by OutputDevice.headphones p)
unfolding set_monitor_mix monitored_by OutputDevice-discrete
returned p n = rw (differ p.monitor_tree.monitored_output OutputDevice.headphones n) refl

moved :
    (d : OutputDevice) (p : Profile)
    → p.monitor_tree.monitored_output ≢ OutputDevice.headphones
    → p.monitor_tree.monitored_output ≢ d
    → d ≢ OutputDevice.headphones
    → set_monitor_mix d p ≡ copy_to_headphones d input_device_variants (monitored_by d p)
unfolding set_monitor_mix monitored_by
moved d p n m o =
    rw
      (
        differ p.monitor_tree.monitored_output d m,
        differ p.monitor_tree.monitored_output OutputDevice.headphones n,
        differ d OutputDevice.headphones o,
      )
      refl

left_column :
    (d : OutputDevice) (p : Profile) (i : InputDevice)
    → d ≢ OutputDevice.headphones
    → create_router (monitored_by d p) i d ≡ get_router p i d
unfolding create_router monitored_by get_monitoring_mix get_router
left_column d p i n = rw (differ d OutputDevice.headphones n) refl

left_here :
    (d : OutputDevice) (q : Profile) (i : InputDevice)
    → get_router (leave_headphones d q) i OutputDevice.headphones ≡ create_router q i d
unfolding leave_headphones
left_here d q i = write_headphones_here (λ j. create_router q j d) (store_headphones d q) i

-- The column of the headphones once another output is monitored.
set_monitor_mix_column :
    (d : OutputDevice) (p : Profile) (i : InputDevice)
    → p.monitor_tree.monitored_output ≢ d
    → d ≢ OutputDevice.headphones
    → get_router (set_monitor_mix d p) i OutputDevice.headphones ≡ get_router p i d
unfolding leave_headphones get_router monitored_by
set_monitor_mix_column d p i m n =
    elim (p.monitor_tree.monitored_output ≟ OutputDevice.headphones) [
      | yes e ↦ rw (left d p e n) (left_here d (monitored_by d p) i ∙ left_column d p i n)
      | no o ↦ rw (moved d p o m n) (copy_here d (monitored_by d p) i)
    ]

-- Returning writes what is stored.
set_monitor_mix_back :
    (p : Profile) (i : InputDevice)
    → p.monitor_tree.monitored_output ≢ OutputDevice.headphones
    → get_router (set_monitor_mix OutputDevice.headphones p) i OutputDevice.headphones
      ≡ ltb 0 (p.monitor_tree.routing i)
unfolding return_to_headphones monitored_by get_router
set_monitor_mix_back p i n = rw (returned p n) (
    write_headphones_here (λ j. ltb 0 (p.monitor_tree.routing j))
      (monitored_by OutputDevice.headphones p) i)

left_output :
    (d : OutputDevice) (q : Profile)
    → (leave_headphones d q).monitor_tree.monitored_output ≡ q.monitor_tree.monitored_output
unfolding leave_headphones store_headphones
left_output d q =
    ap (λ t. t.monitored_output)
      (write_headphones_tree (λ j. create_router q j d) input_device_variants
        (store_headphones d q))

left_routing :
    (d : OutputDevice) (q : Profile) (i : InputDevice)
    → ltb 0 ((leave_headphones d q).monitor_tree.routing i)
      ≡ create_router q i OutputDevice.headphones
unfolding leave_headphones store_headphones
left_routing d q i =
    ap (λ t. ltb 0 (t.routing i))
      (write_headphones_tree (λ j. create_router q j d) input_device_variants
        (store_headphones d q))
    ∙ stored_column (create_router q) i

held_column :
    (d : OutputDevice) (p : Profile) (i : InputDevice)
    → d ≢ OutputDevice.headphones
    → create_router (monitored_by d p) i OutputDevice.headphones ≡ ltb 0 (p.monitor_tree.routing i)
unfolding create_router monitored_by get_monitoring_mix OutputDevice-discrete
held_column d p i n = rw (differ d OutputDevice.headphones n) refl

-- What leaving the headphones stores is what was stored before, on or off.
left_stored :
    (d : OutputDevice) (p : Profile) (i : InputDevice)
    → p.monitor_tree.monitored_output ≡ OutputDevice.headphones
    → d ≢ OutputDevice.headphones
    → ((set_monitor_mix d p).monitor_tree.monitored_output
        ≡ (monitored_by d p).monitor_tree.monitored_output)
      × (ltb 0 ((set_monitor_mix d p).monitor_tree.routing i) ≡ ltb 0 (p.monitor_tree.routing i))
left_stored d p i e n =
    rw (left d p e n)
      (left_output d (monitored_by d p), left_routing d (monitored_by d p) i ∙ held_column d p i n)

-- Monitoring another output and going back to the headphones restores the routing that the monitor
-- tree held before, and not the one that the headphones had.
pub set_monitor_mix-back :
    (d : OutputDevice) (p : Profile) (i : InputDevice)
    → p.monitor_tree.monitored_output ≡ OutputDevice.headphones
    → d ≢ OutputDevice.headphones
    → get_router
        (set_monitor_mix OutputDevice.headphones (set_monitor_mix d p))
        i
        OutputDevice.headphones
      ≡ ltb 0 (p.monitor_tree.routing i)
unfolding monitored_by
set_monitor_mix-back d p i e n =
    let s = left_stored d p i e n in
    set_monitor_mix_back (set_monitor_mix d p) i (λ q. n (sym s.0 ∙ q)) ∙ s.1

elsewhere_left :
    (d : OutputDevice) (q : Profile) (i : InputDevice) (o : OutputDevice)
    → o ≢ OutputDevice.headphones
    → get_router (leave_headphones d q) i o ≡ get_router q i o
unfolding leave_headphones store_headphones get_router
elsewhere_left d q i o n = ap (ltb 0) (
    write_headphones_elsewhere (λ j. create_router q j d) input_device_variants
      (store_headphones d q) i o n)

elsewhere_moved :
    (d : OutputDevice) (q : Profile) (i : InputDevice) (o : OutputDevice)
    → o ≢ OutputDevice.headphones
    → get_router (copy_to_headphones d input_device_variants q) i o ≡ get_router q i o
unfolding get_router
elsewhere_moved d q i o n = ap (ltb 0) (copy_elsewhere d input_device_variants q i o n)

set_monitor_mix_elsewhere :
    (d : OutputDevice) (p : Profile) (i : InputDevice) (o : OutputDevice)
    → p.monitor_tree.monitored_output ≢ d
    → d ≢ OutputDevice.headphones
    → o ≢ OutputDevice.headphones
    → get_router (set_monitor_mix d p) i o ≡ get_router p i o
unfolding monitored_by get_router
set_monitor_mix_elsewhere d p i o m n k =
    elim (p.monitor_tree.monitored_output ≟ OutputDevice.headphones) [
      | yes e ↦ rw (left d p e n) (elsewhere_left d (monitored_by d p) i o k)
      | no e ↦ rw (moved d p e m n) (elsewhere_moved d (monitored_by d p) i o k)
    ]

-- Monitoring a new output other than the headphones gives the headphones the routing of that
-- output, whichever output was monitored before, and leaves the routing of every other output.
pub set_monitor_mix-follows :
    (d : OutputDevice) (p : Profile) (i : InputDevice) (o : OutputDevice)
    → p.monitor_tree.monitored_output ≢ d
    → d ≢ OutputDevice.headphones
    → o ≢ OutputDevice.headphones
    → (get_router (set_monitor_mix d p) i OutputDevice.headphones ≡ get_router p i d)
      × (get_router (set_monitor_mix d p) i o ≡ get_router p i o)
set_monitor_mix-follows d p i o m n k =
    (set_monitor_mix_column d p i m n, set_monitor_mix_elsewhere d p i o m n k)
