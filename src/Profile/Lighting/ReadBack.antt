-- ===== src/Profile/Lighting/ReadBack.antt =====
-- The bytes of the colour map at the place of a colour.
use goxlr_utility.Base.{
  ℕ, zero, suc, ◌+◌, ◌<◌, ◌≤◌, ◌≡◌, ◌⊎◌, inl, inr, refl, ◌∙◌, Bool, some, List, [], ◌∷◌, get_elem?,
  length, set, replicate, length-set, get_elem?-set_self, get_elem?-set_ne, find_index, index, eqb,
  Bool-cases, arith, ◌≟◌,
}
use native.Mathlib.Nat.{add-zero}
use native.Mathlib.Decide.{ℕ_discrete}
use goxlr_utility.Usb.{
  ColourTargets, colour_targets_variants, colour_targets_enumeration, find_index-colour_targets,
}
use goxlr_utility.Usb.Colouring.{get_colour_count, position}
use goxlr_utility.Usb.Colouring.Disjoint.{position_apart, position_range}
use goxlr_utility.Profile.State.{Profile}
use goxlr_utility.Profile.Lighting.{
  Bytes4, lighting, copy_from_slice, paint_colours, paint_targets, get_colour_map,
}

abbrev pub byte : Bytes4 → ℕ → ℕ
byte (b0, b1, b2, b3) zero = b0
byte (b0, b1, b2, b3) (suc zero) = b1
byte (b0, b1, b2, b3) (suc (suc zero)) = b2
byte (b0, b1, b2, b3) (suc (suc (suc k))) = b3

length-copy_from_slice :
    (a : List ℕ) (n : ℕ) (b : Bytes4) → length (copy_from_slice a n b) ≡ length a
unfolding copy_from_slice
length-copy_from_slice a n (b0, b1, b2, b3) = simp length-set

copy_from_slice_outside :
    (a : List ℕ) (n c : ℕ) (b : Bytes4)
    → (c < n) ⊎ (n + 4 ≤ c)
    → get_elem? (copy_from_slice a n b) c ≡ get_elem? a c
unfolding copy_from_slice
copy_from_slice_outside a n c (b0, b1, b2, b3) h =
    get_elem?-set_ne (set (set (set a n b0) (n + 1) b1) (n + 2) b2) (n + 3) c b3 (omega arith)
    ∙ get_elem?-set_ne (set (set a n b0) (n + 1) b1) (n + 2) c b2 (omega arith)
    ∙ get_elem?-set_ne (set a n b0) (n + 1) c b1 (omega arith)
    ∙ get_elem?-set_ne a n c b0 (omega arith)

copy_from_slice_inside :
    (a : List ℕ) (n k : ℕ) (b : Bytes4)
    → n + 4 ≤ length a
    → k < 4
    → get_elem? (copy_from_slice a n b) (n + k) ≡ some (byte b k)
unfolding copy_from_slice
copy_from_slice_inside a n k (b0, b1, b2, b3) h l =
    let a1 : List ℕ = set a n b0 in
    let a2 : List ℕ = set a1 (n + 1) b1 in
    let a3 : List ℕ = set a2 (n + 2) b2 in
    let e1 = length-set a n b0 in
    let e2 = length-set a1 (n + 1) b1 in
    let e3 = length-set a2 (n + 2) b2 in
    inside k l (get_elem?-set_self a3 (n + 3) b3 (omega arith))
      (get_elem?-set_ne a3 (n + 3) (n + 2) b3 (omega arith)
        ∙ get_elem?-set_self a2 (n + 2) b2 (omega arith))
      (get_elem?-set_ne a3 (n + 3) (n + 1) b3 (omega arith)
        ∙ get_elem?-set_ne a2 (n + 2) (n + 1) b2 (omega arith)
        ∙ get_elem?-set_self a1 (n + 1) b1 (omega arith))
      (get_elem?-set_ne a3 (n + 3) n b3 (omega arith)
        ∙ get_elem?-set_ne a2 (n + 2) n b2 (omega arith)
        ∙ get_elem?-set_ne a1 (n + 1) n b1 (omega arith)
        ∙ get_elem?-set_self a n b0 (omega arith))
  where
    painted : List ℕ
    painted = set (set (set (set a n b0) (n + 1) b1) (n + 2) b2) (n + 3) b3

    inside :
        (j : ℕ)
        → j < 4
        → get_elem? painted (n + 3) ≡ some b3
        → get_elem? painted (n + 2) ≡ some b2
        → get_elem? painted (n + 1) ≡ some b1
        → get_elem? painted n ≡ some b0
        → get_elem? painted (n + j) ≡ some (byte (b0, b1, b2, b3) j)
    inside zero m p3 p2 p1 p0 = rw add-zero p0
    inside (suc zero) m p3 p2 p1 p0 = p1
    inside (suc (suc zero)) m p3 p2 p1 p0 = p2
    inside (suc (suc (suc zero))) m p3 p2 p1 p0 = p3
    inside (suc (suc (suc (suc j)))) m p3 p2 p1 p0 = absurd (omega arith)

length-paint_colours :
    (bytes : ColourTargets → ℕ → Bytes4) (format : Bool) (u : ColourTargets) (j left : ℕ)
    (a : List ℕ)
    → length (paint_colours bytes format u j left a) ≡ length a
unfolding paint_colours
length-paint_colours bytes format u j zero a = refl
length-paint_colours bytes format u j (suc left) a =
    length-paint_colours bytes format u (suc j) left _
    ∙ length-copy_from_slice a (position u j format) (bytes u j)

-- A byte that already holds what colour `i` of `t` wants keeps it, whatever valid colour is painted.
module _ (bytes : ColourTargets → ℕ → Bytes4) (format : Bool) (t : ColourTargets) (i k : ℕ) where
  abbrev Painted : List ℕ → Type 0
  Painted a = get_elem? a (position t i format + k) ≡ some (byte (bytes t i) k)

  module _ (valid : i < get_colour_count t) (four : k < 4) where
    step_keeps :
        (u : ColourTargets) (j : ℕ) (a : List ℕ)
        → j < get_colour_count u
        → 520 ≤ length a
        → Painted a
        → Painted (copy_from_slice a (position u j format) (bytes u j))
    step_keeps u j a h l p = elim (u ≟ t) [
      | yes e ↦ elim (ℕ_discrete j i) [
        | yes f ↦
            rw (e, f) (copy_from_slice_inside a (position t i format) k (bytes t i) (room l) four)
        | no f ↦
            copy_from_slice_outside a (position u j format) _ (bytes u j) (aside λ q. f q.1) ∙ p
      ]
      | no e ↦ copy_from_slice_outside a (position u j format) _ (bytes u j) (aside λ q. e q.0) ∙ p
    ]
      where
        room : 520 ≤ length a → position t i format + 4 ≤ length a
        room l = grind (arith, position_range format t i valid)

        aside :
            ¬ ((u ≡ t) × (j ≡ i))
            → (position t i format + k < position u j format)
              ⊎ (position u j format + 4 ≤ position t i format + k)
        aside n = grind (arith, position_apart format u t j i h valid n)

    colours_keep :
        (u : ColourTargets) (j left : ℕ) (a : List ℕ)
        → j + left ≤ get_colour_count u
        → 520 ≤ length a
        → Painted a
        → Painted (paint_colours bytes format u j left a)
    unfolding paint_colours
    colours_keep u j zero a h l p = p
    colours_keep u j (suc left) a h l p =
        colours_keep u (suc j) left (copy_from_slice a (position u j format) (bytes u j))
          (omega arith) (omega (arith, length-copy_from_slice a (position u j format) (bytes u j)))
          (step_keeps u j a (omega arith) l p)

    targets_keep :
        (us : List ColourTargets) (a : List ℕ)
        → 520 ≤ length a
        → Painted a
        → Painted (paint_targets bytes format us a)
    unfolding paint_targets
    targets_keep [] a l p = p
    targets_keep (u ∷ us) a l p =
        targets_keep us (paint_colours bytes format u 0 (get_colour_count u) a)
          (rw length-paint_colours l) (colours_keep u 0 (get_colour_count u) a (omega arith) l p)

    -- The loop over the colours of `t` comes to colour `i`.
    colours_paint :
        (j left : ℕ) (a : List ℕ)
        → j + left ≡ get_colour_count t
        → j ≤ i
        → 520 ≤ length a
        → Painted (paint_colours bytes format t j left a)
    unfolding paint_colours
    colours_paint j zero a h m l = absurd (omega arith)
    colours_paint j (suc left) a h m l =
        let b : List ℕ = copy_from_slice a (position t j format) (bytes t j) in
        let room : 520 ≤ length b =
          omega (arith, length-copy_from_slice a (position t j format) (bytes t j)) in
        elim (ℕ_discrete i j) [
          | yes e ↦ colours_keep t (suc j) left b (omega arith) room (here j a l e)
          | no e ↦ colours_paint (suc j) left b (omega arith) (omega arith) room
        ]
      where
        here :
            (j : ℕ) (a : List ℕ)
            → 520 ≤ length a
            → i ≡ j
            → Painted (copy_from_slice a (position t j format) (bytes t j))
        here j a l e = rw (← e) (
            copy_from_slice_inside a (position t i format) k (bytes t i)
              (grind (arith, position_range format t i valid)) four)

    -- So does the loop over the targets come to `t`.
    targets_paint :
        (us : List ColourTargets) (a : List ℕ)
        → find_index (index t) us ≡ some t
        → 520 ≤ length a
        → Painted (paint_targets bytes format us a)
    unfolding paint_targets find_index
    targets_paint [] a f l = cc
    targets_paint (u ∷ us) a f l =
        let b : List ℕ = paint_colours bytes format u 0 (get_colour_count u) a in
        let room : 520 ≤ length b = rw length-paint_colours l in
        elim (Bool-cases (eqb (index u) (index t))) [
          | inl e ↦ targets_keep us b room (found u a l (rw e at f))
          | inr e ↦ targets_paint us b (rw e at f) room
        ]
      where
        found :
            (u : ColourTargets) (a : List ℕ)
            → 520 ≤ length a
            → some u ≡ some t
            → Painted (paint_colours bytes format u 0 (get_colour_count u) a)
        found u a l e =
            let same : u ≡ t = cc in
            rw same (colours_paint 0 (get_colour_count t) a (omega arith) (omega arith) l)

-- In the whole map of 520 bytes, painted in either format, the four bytes at the position of a
-- colour are those that `lighting` gives for it: no colour painted later overwrites one before.
pub get_colour_map_reads :
    (p : Profile) (format blank_mute : Bool) (t : ColourTargets) (i k : ℕ)
    → i < get_colour_count t
    → k < 4
    → get_elem? (get_colour_map p format blank_mute) (position t i format + k)
      ≡ some (byte (lighting p blank_mute t i) k)
unfolding get_colour_map
get_colour_map_reads p format blank_mute t i k valid four =
    targets_paint (lighting p blank_mute) format t i k valid four colour_targets_variants
      (replicate 520 0) (find_index-colour_targets t) (omega arith)

length-paint_targets :
    (bytes : ColourTargets → ℕ → Bytes4) (format : Bool) (us : List ColourTargets) (a : List ℕ)
    → length (paint_targets bytes format us a) ≡ length a
unfolding paint_targets
length-paint_targets bytes format [] a = refl
length-paint_targets bytes format (u ∷ us) a =
    length-paint_targets bytes format us _
    ∙ length-paint_colours bytes format u 0 (get_colour_count u) a

pub length-get_colour_map :
    (p : Profile) (format blank_mute : Bool) → length (get_colour_map p format blank_mute) ≡ 520
unfolding get_colour_map
length-get_colour_map p format blank_mute =
    length-paint_targets (lighting p blank_mute) format colour_targets_variants (replicate 520 0)
