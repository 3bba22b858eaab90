-- ===== src/Base/Enum.antt =====
-- Rust's field-less enums: `PartialEq` and `as` on discriminants, strum's `EnumIter`, and the maps
-- of the `enum_map` crate, whose index and update are those of a function.
use Prim.Native.Nat.{ℕ}
use mathlib.Core.Path.{◌≡◌, refl, sym, ap, subst}
use mathlib.Core.Logic.{◌≢◌, ite, if_pos, if_neg}
use mathlib.Core.Bool.{Bool, true, false}
use mathlib.Core.List.{List, [], ◌∷◌}
use mathlib.Core.Option.{Option, none, some}
use goxlr_utility.Base.Tests.{eqb, if◌then◌else◌}

-- `index` is the discriminant, `iter` the variants in the order of their declaration.
pub record Enumeration {ℓ} (A : Type ℓ) : Type ℓ where
  pub discriminant : A → ℕ
  pub variants : List A
  pub discrete : Discrete A

module _ {ℓ} {A : Type ℓ} ⦃e : Enumeration A⦄ where
  abbrev pub index : A → ℕ
  index = e.discriminant

  abbrev pub iter : List A
  iter = e.variants

  infix 50 ◌≟◌ ◌==◌
  abbrev pub ◌≟◌ : Discrete A
  a ≟ b = e.discrete a b

  abbrev pub ◌==◌ : A → A → Bool
  a == b = elim (e.discrete a b) [ yes _ ↦ true | no _ ↦ false ]

  -- `map[k] = v`
  abbrev pub update {κ} : {V : Type κ} → (A → V) → A → V → A → V
  update m k v j = ite (e.discrete j k) v (m j)

  pub update_self {κ} : {V : Type κ} (m : A → V) (k : A) (v : V) → update m k v k ≡ v
  update_self m k v = if_pos (e.discrete k k) refl v (m k)

  pub update_ne {κ} : {V : Type κ} (m : A → V) (k j : A) (v : V) → j ≢ k → update m k v j ≡ m j
  update_ne m k j v h = if_neg (e.discrete j k) h v (m j)

  -- a property of every entry
  pub update_all {κ κ'} :
      {V : Type κ} (P : A → V → Type κ') (m : A → V) (k : A) (v : V)
      → P k v
      → ((j : A) → P j (m j))
      → (j : A) → P j (update m k v j)
  update_all P m k v p h j = elim (e.discrete j k) [
    | yes q ↦ subst (λ o. P o (update m k v o)) (sym q) (subst (P k) (sym (update_self m k v)) p)
    | no n ↦ subst (P j) (sym (update_ne m k j v n)) (h j)
  ]

-- The first variant of a discriminant. A type whose variants it finds again has an injective `as`.
unfoldable pub find_index {ℓ} : {A : Type ℓ} ⦃e : Enumeration A⦄ → ℕ → List A → Option A
find_index n [] = none
find_index n (x ∷ xs) = if eqb (index x) n then some x else find_index n xs

pub find_index-injective {ℓ} :
    {A : Type ℓ} ⦃e : Enumeration A⦄ (xs : List A) {x y : A}
    → find_index (index x) xs ≡ some x
    → find_index (index y) xs ≡ some y
    → index x ≡ index y
    → x ≡ y
find_index-injective xs {x} {y} p q h = cc (p, q, ap (λ n. find_index n xs) h)
