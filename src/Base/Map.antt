-- ===== src/Base/Map.antt =====
-- `BTreeMap` and `BTreeSet`: the entries in the order of their keys, as iteration shows them.
pub mod Laws
pub mod Sums
pub mod Totals
pub mod Ext
use openqbw.Base.{ℕ, ◌≡◌, refl, List, [], ◌∷◌, Bool, true, false, Option, none, some, is_some}
use openqbw.Base.Int.{ℤ, pos, ◌+ℤ◌}
use openqbw.Base.Order.{Ord}
use Prim.Native.Nat.{Ordering}
use Prim.Native.Nat.Ordering.{lt, eq, gt}

abbrev pub Map {ℓ κ} : Type ℓ → Type κ → Type (ℓ ⊔ κ)
Map K V = List (K × V)

module _ {ℓ} {K : Type ℓ} ⦃o : Ord K⦄ where
  module _ {κ} {V : Type κ} where
    unfoldable pub get : K → Map K V → Option V
    get k [] = none
    get k ((j, v) ∷ m) = elim (o.cmp k j) [ eq ↦ some v | _ ↦ get k m ]

    unfoldable pub insert : K → V → Map K V → Map K V
    insert k v [] = (k, v) ∷ []
    insert k v ((j, w) ∷ m) = elim (o.cmp k j) [
      | lt ↦ (k, v) ∷ (j, w) ∷ m
      | eq ↦ (k, v) ∷ m
      | gt ↦ (j, w) ∷ insert k v m
    ]

    abbrev pub contains_key : K → Map K V → Bool
    contains_key k m = is_some (get k m)

    abbrev pub values : Map K V → List V
    values [] = []
    values ((k, v) ∷ m) = v ∷ values m

    abbrev pub keys : Map K V → List K
    keys [] = []
    keys ((k, v) ∷ m) = k ∷ keys m

  -- `*m.entry(k).or_default() += a` on a map of sums
  unfoldable pub entry_add : K → ℤ → Map K ℤ → Map K ℤ
  entry_add k a [] = (k, pos 0 +ℤ a) ∷ []
  entry_add k a ((j, w) ∷ m) = elim (o.cmp k j) [
    | lt ↦ (k, pos 0 +ℤ a) ∷ (j, w) ∷ m
    | eq ↦ (j, w +ℤ a) ∷ m
    | gt ↦ (j, w) ∷ entry_add k a m
  ]

  -- `m.get(k).unwrap_or(&0)`
  abbrev pub get_or_zero : K → Map K ℤ → ℤ
  get_or_zero k m = elim (get k m) [ none ↦ pos 0 | some v ↦ v ]
