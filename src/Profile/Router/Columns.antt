-- ===== src/Profile/Router/Columns.antt =====
-- The loops of `set_monitor_mix`, column by column.
use goxlr_utility.Base.{
  Bool-cases, inl, inr, ℕ, ◌≡◌, ◌≢◌, refl, ◌∙◌, Bool, true, false, List, [], ◌∷◌, ◌++◌, update,
  if◌then◌else◌, ltb, arith,
}
use goxlr_utility.Types.{
  InputDevice, InputDevice-discrete, OutputDevice-discrete, OutputDevice, input_device_variants,
  input_device_enumeration, output_device_enumeration,
}
use goxlr_utility.Profile.State.{Profile}
use goxlr_utility.Profile.Router.{
  Router, get_router, set_monitor_routing, stored_routing, write_headphones, copy_to_headphones,
}

pub write_headphones_elsewhere :
    (on : InputDevice → Bool) (is : List InputDevice) (p : Profile) (i : InputDevice)
    (o : OutputDevice)
    → o ≢ OutputDevice.headphones
    → (write_headphones on is p).mixer_table i o ≡ p.mixer_table i o
unfolding write_headphones set_monitor_routing
write_headphones_elsewhere on [] p i o n = refl
write_headphones_elsewhere on (j ∷ is) p i o n =
    write_headphones_elsewhere on is _ i o n ∙ ground (arith, n)

pub write_headphones_tree :
    (on : InputDevice → Bool) (is : List InputDevice) (p : Profile)
    → (write_headphones on is p).monitor_tree ≡ p.monitor_tree
unfolding write_headphones set_monitor_routing
write_headphones_tree on [] p = refl
write_headphones_tree on (j ∷ is) p = write_headphones_tree on is _

pub copy_elsewhere :
    (d : OutputDevice) (is : List InputDevice) (p : Profile) (i : InputDevice) (o : OutputDevice)
    → o ≢ OutputDevice.headphones
    → (copy_to_headphones d is p).mixer_table i o ≡ p.mixer_table i o
unfolding copy_to_headphones set_monitor_routing
copy_elsewhere d [] p i o n = refl
copy_elsewhere d (j ∷ is) p i o n = copy_elsewhere d is _ i o n ∙ ground (arith, n)

copy_tree :
    (d : OutputDevice) (is : List InputDevice) (p : Profile)
    → (copy_to_headphones d is p).monitor_tree ≡ p.monitor_tree
unfolding copy_to_headphones set_monitor_routing
copy_tree d [] p = refl
copy_tree d (j ∷ is) p = copy_tree d is _

volume_on : (b : Bool) → ltb 0 (if b then 8192 else 0) ≡ b
volume_on true = refl
volume_on false = refl

-- A column that is written for every input.
pub write_headphones_here :
    (on : InputDevice → Bool) (p : Profile) (i : InputDevice)
    → get_router (write_headphones on input_device_variants p) i OutputDevice.headphones ≡ on i
unfolding write_headphones set_monitor_routing get_router InputDevice-discrete OutputDevice-discrete
write_headphones_here on p InputDevice.microphone = volume_on (on InputDevice.microphone)
write_headphones_here on p InputDevice.chat = volume_on (on InputDevice.chat)
write_headphones_here on p InputDevice.music = volume_on (on InputDevice.music)
write_headphones_here on p InputDevice.game = volume_on (on InputDevice.game)
write_headphones_here on p InputDevice.console = volume_on (on InputDevice.console)
write_headphones_here on p InputDevice.line_in = volume_on (on InputDevice.line_in)
write_headphones_here on p InputDevice.system = volume_on (on InputDevice.system)
write_headphones_here on p InputDevice.samples = volume_on (on InputDevice.samples)

pub copy_here :
    (d : OutputDevice) (p : Profile) (i : InputDevice)
    → get_router (copy_to_headphones d input_device_variants p) i OutputDevice.headphones
      ≡ get_router p i d
unfolding copy_to_headphones set_monitor_routing get_router InputDevice-discrete
    OutputDevice-discrete
copy_here d p InputDevice.microphone = volume_on (ltb 0 (p.mixer_table InputDevice.microphone d))
copy_here d p InputDevice.chat = volume_on (ltb 0 (p.mixer_table InputDevice.chat d))
copy_here d p InputDevice.music = volume_on (ltb 0 (p.mixer_table InputDevice.music d))
copy_here d p InputDevice.game = volume_on (ltb 0 (p.mixer_table InputDevice.game d))
copy_here d p InputDevice.console = volume_on (ltb 0 (p.mixer_table InputDevice.console d))
copy_here d p InputDevice.line_in = volume_on (ltb 0 (p.mixer_table InputDevice.line_in d))
copy_here d p InputDevice.system = volume_on (ltb 0 (p.mixer_table InputDevice.system d))
copy_here d p InputDevice.samples = volume_on (ltb 0 (p.mixer_table InputDevice.samples d))

stored_off :
    (r : InputDevice → Router) (is : List InputDevice) (m : InputDevice → ℕ) (i : InputDevice)
    → r i OutputDevice.headphones ≡ false
    → stored_routing r is m i ≡ m i
unfolding stored_routing
stored_off r [] m i e = refl
stored_off r (j ∷ is) m i e = stored_off r is _ i e ∙ ground (arith, e)

stored_on :
    (r : InputDevice → Router) (is : List InputDevice) (m : InputDevice → ℕ) (i : InputDevice)
    → m i ≡ 8192
    → stored_routing r is m i ≡ 8192
unfolding stored_routing
stored_on r [] m i h = h
stored_on r (j ∷ is) m i h = stored_on r is _ i (ground (arith, h))

store_one :
    (r : InputDevice → Router) (m : InputDevice → ℕ) (i : InputDevice)
    → r i OutputDevice.headphones ≡ true
    → (if r i OutputDevice.headphones then update m i 8192 else m) i ≡ 8192
store_one r m i e = ground (arith, e)

stored_at :
    (r : InputDevice → Router) (before after : List InputDevice) (m : InputDevice → ℕ)
    (i : InputDevice)
    → r i OutputDevice.headphones ≡ true
    → stored_routing r (before ++ i ∷ after) m i ≡ 8192
unfolding stored_routing
stored_at r [] after m i e = stored_on r after _ i (store_one r m i e)
stored_at r (j ∷ before) after m i e = stored_at r before after _ i e

stored_here :
    (r : InputDevice → Router) (m : InputDevice → ℕ) (i : InputDevice)
    → r i OutputDevice.headphones ≡ true
    → stored_routing r input_device_variants m i ≡ 8192
stored_here r m InputDevice.microphone e =
    stored_at r ([])
      (InputDevice.chat ∷ InputDevice.music ∷ InputDevice.game ∷ InputDevice.console
        ∷ InputDevice.line_in ∷ InputDevice.system ∷ InputDevice.samples ∷ [])
      m InputDevice.microphone e
stored_here r m InputDevice.chat e =
    stored_at r (InputDevice.microphone ∷ [])
      (InputDevice.music ∷ InputDevice.game ∷ InputDevice.console ∷ InputDevice.line_in
        ∷ InputDevice.system ∷ InputDevice.samples ∷ [])
      m InputDevice.chat e
stored_here r m InputDevice.music e =
    stored_at r (InputDevice.microphone ∷ InputDevice.chat ∷ [])
      (InputDevice.game ∷ InputDevice.console ∷ InputDevice.line_in ∷ InputDevice.system
        ∷ InputDevice.samples ∷ [])
      m InputDevice.music e
stored_here r m InputDevice.game e =
    stored_at r (InputDevice.microphone ∷ InputDevice.chat ∷ InputDevice.music ∷ [])
      (InputDevice.console ∷ InputDevice.line_in ∷ InputDevice.system ∷ InputDevice.samples ∷ []) m
      InputDevice.game e
stored_here r m InputDevice.console e =
    stored_at r
      (InputDevice.microphone ∷ InputDevice.chat ∷ InputDevice.music ∷ InputDevice.game ∷ [])
      (InputDevice.line_in ∷ InputDevice.system ∷ InputDevice.samples ∷ []) m InputDevice.console e
stored_here r m InputDevice.line_in e =
    stored_at r
      (InputDevice.microphone ∷ InputDevice.chat ∷ InputDevice.music ∷ InputDevice.game
        ∷ InputDevice.console ∷ [])
      (InputDevice.system ∷ InputDevice.samples ∷ []) m InputDevice.line_in e
stored_here r m InputDevice.system e =
    stored_at r
      (InputDevice.microphone ∷ InputDevice.chat ∷ InputDevice.music ∷ InputDevice.game
        ∷ InputDevice.console ∷ InputDevice.line_in ∷ [])
      (InputDevice.samples ∷ []) m InputDevice.system e
stored_here r m InputDevice.samples e =
    stored_at r
      (InputDevice.microphone ∷ InputDevice.chat ∷ InputDevice.music ∷ InputDevice.game
        ∷ InputDevice.console ∷ InputDevice.line_in ∷ InputDevice.system ∷ [])
      ([]) m InputDevice.samples e

-- What is stored is the headphones' column, as far as on and off go.
pub stored_column :
    (r : InputDevice → Router) (i : InputDevice)
    → ltb 0 (stored_routing r input_device_variants (λ _. 0) i) ≡ r i OutputDevice.headphones
stored_column r i = elim (Bool-cases (r i OutputDevice.headphones)) [
  | inl e ↦ rw (stored_here r (λ _. 0) i e, e) refl
  | inr e ↦ rw (stored_off r input_device_variants (λ _. 0) i e, e) refl
]
