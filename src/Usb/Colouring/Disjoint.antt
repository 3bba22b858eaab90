-- ===== src/Usb/Colouring/Disjoint.antt =====
-- The places of the colours in the map, and how they lie to each other.
use goxlr_utility.Base.{
  ℕ, zero, suc, ◌+◌, ◌%◌, ◌<◌, ◌≤◌, ◌≡◌, ◌≢◌, ◌⊎◌, refl, ap, Bool, true, false, Option, none, some,
  List, [], ◌∷◌, eqb, ltb, ◌&&◌, if◌then◌else◌, arith,
}
use goxlr_utility.Usb.ColourTarget.{ColourTargets, colour_targets_variants}
use goxlr_utility.Usb.Colouring.{get_colour_count, position}

-- The target and the colour that start at a given position: the first that does, over the targets
-- and the three colours that a target can have.
first_at : Bool → ℕ → List ColourTargets → Option (ColourTargets × ℕ)
first_at format n [] = none
first_at format n (t ∷ rest) =
    if eqb (position t 0 format) n
    then some (t, 0)
    else if eqb (position t 1 format) n && ltb 1 (get_colour_count t)
    then some (t, 1)
    else if eqb (position t 2 format) n && ltb 2 (get_colour_count t)
    then some (t, 2)
    else first_at format n rest

owner : Bool → ℕ → Option (ColourTargets × ℕ)
unfolding first_at get_colour_count position
owner format n = first_at format n colour_targets_variants

owner-position :
    (format : Bool) (t : ColourTargets) (i : ℕ)
    → i < get_colour_count t
    → owner format (position t i format) ≡ some (t, i)
unfolding owner
owner-position true ColourTargets.fader1_mute zero h = refl
owner-position true _ zero h = refl
owner-position false ColourTargets.fader1_mute zero h = refl
owner-position false _ zero h = refl
owner-position true ColourTargets.scribble1 (suc i) h = absurd (omega arith)
owner-position true ColourTargets.scribble2 (suc i) h = absurd (omega arith)
owner-position true ColourTargets.scribble3 (suc i) h = absurd (omega arith)
owner-position true ColourTargets.scribble4 (suc i) h = absurd (omega arith)
owner-position false ColourTargets.scribble1 (suc i) h = absurd (omega arith)
owner-position false ColourTargets.scribble2 (suc i) h = absurd (omega arith)
owner-position false ColourTargets.scribble3 (suc i) h = absurd (omega arith)
owner-position false ColourTargets.scribble4 (suc i) h = absurd (omega arith)
owner-position true _ (suc zero) h = refl
owner-position false _ (suc zero) h = refl
owner-position true ColourTargets.pitch_encoder (suc (suc zero)) h = refl
owner-position true ColourTargets.gender_encoder (suc (suc zero)) h = refl
owner-position true ColourTargets.reverb_encoder (suc (suc zero)) h = refl
owner-position true ColourTargets.echo_encoder (suc (suc zero)) h = refl
owner-position false ColourTargets.pitch_encoder (suc (suc zero)) h = refl
owner-position false ColourTargets.gender_encoder (suc (suc zero)) h = refl
owner-position false ColourTargets.reverb_encoder (suc (suc zero)) h = refl
owner-position false ColourTargets.echo_encoder (suc (suc zero)) h = refl
owner-position _ _ (suc (suc i)) h = absurd (omega arith)

aligned : (format : Bool) (t : ColourTargets) (i : ℕ) → position t i format % 4 ≡ 0
unfolding position
aligned true ColourTargets.fader1_mute i = ground arith
aligned true _ i = ground arith
aligned false ColourTargets.fader1_mute i = ground arith
aligned false _ i = ground arith

-- The bytes of a map in each format.
abbrev pub map_size : Bool → ℕ
map_size true = 520
map_size false = 328

-- In both formats, the four bytes of each colour that a target has lie inside the map.
pub position_range :
    (format : Bool) (t : ColourTargets) (i : ℕ)
    → i < get_colour_count t
    → position t i format + 4 ≤ map_size format
unfolding position get_colour_count
position_range true ColourTargets.fader1_mute i h = ground arith
position_range true _ i h = ground arith
position_range false ColourTargets.fader1_mute i h = ground arith
position_range false _ i h = ground arith

same_owner :
    (format : Bool) (t u : ColourTargets) (i j : ℕ)
    → i < get_colour_count t
    → j < get_colour_count u
    → position t i format ≡ position u j format
    → (t ≡ u) × (i ≡ j)
same_owner format t u i j h k e =
    let p = owner-position format t i h in
    let q = owner-position format u j k in
    let r = ap (owner format) e in (cc (p, q, r), cc (p, q, r))

-- In both formats, the four bytes of two different colours, of one target or of two, do not
-- overlap: the one's bytes end before the other's begin.
pub position_apart :
    (format : Bool) (t u : ColourTargets) (i j : ℕ)
    → i < get_colour_count t
    → j < get_colour_count u
    → ¬ ((t ≡ u) × (i ≡ j))
    → (position t i format + 4 ≤ position u j format)
      ⊎ (position u j format + 4 ≤ position t i format)
position_apart format t u i j h k apart =
    let different : position t i format ≢ position u j format =
      λ e. apart (same_owner format t u i j h k e) in
    grind (arith, aligned format t i, aligned format u j)
