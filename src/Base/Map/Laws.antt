-- ===== src/Base/Map/Laws.antt =====
-- Lookups after an insertion, and the order of the keys.
use openqbw.Base.{◌≡◌, refl, [], ◌∷◌, false, none, some, arith, if◌then◌else◌, inl, inr}
use openqbw.Base.Order.{Ord, ◌=?◌, Ordering-cases}
use openqbw.Base.Map.{Map, get, insert}
use Prim.Native.Nat.Ordering.{lt}

module _ {ℓ κ} {K : Type ℓ} {V : Type κ} ⦃o : Ord K⦄ where
  -- `k` stands before every key of the map.
  abbrev pub Below : K → Map K V → Type 0
  Below k [] = Unit
  Below k ((j, v) ∷ m) = o.cmp k j ≡ lt

  abbrev pub IsSorted : Map K V → Type 0
  IsSorted [] = Unit
  IsSorted ((k, v) ∷ m) = Below k m × IsSorted m

  pub get-insert :
      (k j : K) (v : V) (m : Map K V) → get j (insert k v m) ≡ (if j =? k then some v else get j m)
  unfolding get insert
  get-insert k j v [] = ground arith
  get-insert k j v ((i, w) ∷ m) =
      ground (arith, o.eq_of_cmp k i, o.eq_of_cmp j k, o.cmp_refl j, get-insert k j v m)

  pub Below-trans : (j k : K) (m : Map K V) → o.cmp j k ≡ lt → Below k m → Below j m
  Below-trans j k [] h b = tt
  Below-trans j k ((i, w) ∷ m) h b = o.lt_trans j k i h b

  pub get_of_Below : (k : K) (m : Map K V) → Below k m → IsSorted m → get k m ≡ none
  unfolding get
  get_of_Below k [] b s = refl
  get_of_Below k ((i, w) ∷ m) b s = ground (arith, get_of_Below k m (Below-trans k i m b s.0) s.1)

  pub insert-Below :
      (j k : K) (v : V) (m : Map K V) → o.cmp j k ≡ lt → Below j m → Below j (insert k v m)
  unfolding insert
  insert-Below j k v [] h b = h
  insert-Below j k v ((i, w) ∷ m) h b = ground arith

  pub insert-IsSorted : (k : K) (v : V) (m : Map K V) → IsSorted m → IsSorted (insert k v m)
  unfolding insert
  insert-IsSorted k v [] s = (tt, tt)
  insert-IsSorted k v ((i, w) ∷ m) s = elim (Ordering-cases (o.cmp k i)) [
    | inl e ↦ rw (e, insert) (e, s)
    | inr (inl e) ↦ rw (e, insert) (rw (o.eq_of_cmp k i e) s.0, s.1)
    | inr (inr e) ↦
        rw (e, insert) (insert-Below i k v m (o.lt_of_gt k i e) s.0, insert-IsSorted k v m s.1)
  ]

  pub get_tail : (k j : K) (v : V) (m : Map K V) → (k =? j) ≡ false → get k ((j, v) ∷ m) ≡ get k m
  unfolding get
  get_tail k j v m h = ground arith

  pub get_head : (k : K) (v : V) (m : Map K V) → get k ((k, v) ∷ m) ≡ some v
  unfolding get
  get_head k v m = rw (o.cmp_refl k, get)
