-- ===== src/Base/Map/Sums.antt =====
-- Maps of sums: what `entry_add` does to each sum and to their total.
use openqbw.Base.{◌≡◌, [], ◌∷◌, arith, if◌then◌else◌, inl, inr}
use openqbw.Base.Int.{ℤ, pos, ◌+ℤ◌, int_laws}
use openqbw.Base.Order.{Ord, ◌=?◌, Ordering-cases}
use openqbw.Base.Sum.{sum_of}
use openqbw.Base.Map.{Map, get, entry_add, get_or_zero, values}
use openqbw.Base.Map.Laws.{Below, IsSorted, Below-trans, get_of_Below}
use Prim.Native.Nat.Ordering.{lt}

module _ {ℓ} {K : Type ℓ} ⦃o : Ord K⦄ where
  pub sum-entry_add :
      (k : K) (a : ℤ) (m : Map K ℤ)
      → sum_of (λ v. v) (values (entry_add k a m)) ≡ sum_of (λ v. v) (values m) +ℤ a
  unfolding sum_of entry_add
  sum-entry_add k a [] = omega int_laws
  sum-entry_add k a ((j, w) ∷ m) = grind (int_laws, sum-entry_add k a m)

  entry_add-Below :
      (j k : K) (a : ℤ) (m : Map K ℤ) → o.cmp j k ≡ lt → Below j m → Below j (entry_add k a m)
  unfolding entry_add
  entry_add-Below j k a [] h b = h
  entry_add-Below j k a ((i, w) ∷ m) h b = ground arith

  pub entry_add-IsSorted : (k : K) (a : ℤ) (m : Map K ℤ) → IsSorted m → IsSorted (entry_add k a m)
  unfolding entry_add
  entry_add-IsSorted k a [] s = (tt, tt)
  entry_add-IsSorted k a ((i, w) ∷ m) s = elim (Ordering-cases (o.cmp k i)) [
    | inl e ↦ rw (e, entry_add) (e, s)
    | inr (inl e) ↦ rw (e, entry_add) s
    | inr (inr e) ↦
        rw (e, entry_add)
          (entry_add-Below i k a m (o.lt_of_gt k i e) s.0, entry_add-IsSorted k a m s.1)
  ]

  -- Only the sum of the given key moves.
  pub get_or_zero-entry_add :
      (k j : K) (a : ℤ) (m : Map K ℤ)
      → IsSorted m
      → get_or_zero j (entry_add k a m) ≡ (if j =? k then get_or_zero j m +ℤ a else get_or_zero j m)
  unfolding get entry_add
  get_or_zero-entry_add k j a [] s = ground arith
  get_or_zero-entry_add k j a ((i, w) ∷ m) s = ground (
    arith,
    o.eq_of_cmp k i,
    o.eq_of_cmp j k,
    o.cmp_refl j,
    o.cmp_refl k,
    o.lt_of_gt k i,
    get_or_zero-entry_add k j a m s.1,
    get_of_Below k m,
    Below-trans k i m,
  )

  pub get_or_zero_head : (k : K) (v : ℤ) (m : Map K ℤ) → get_or_zero k ((k, v) ∷ m) ≡ v
  unfolding get
  get_or_zero_head k v m = rw (o.cmp_refl k, get_or_zero, get)

  -- Behind the first key, a sorted map has no sum of that key, and all others.
  pub get_or_zero_tail :
      (k t : K) (v : ℤ) (m : Map K ℤ)
      → IsSorted ((k, v) ∷ m)
      → get_or_zero t m ≡ (if t =? k then pos 0 else get_or_zero t ((k, v) ∷ m))
  unfolding get
  get_or_zero_tail k t v m s = elim (Ordering-cases (o.cmp t k)) [
    | inl e ↦ rw (e, get_or_zero, get, ◌=?◌)
    | inr (inl e) ↦
        rw (e, ◌=?◌) (rw (get_of_Below t m (rw (o.eq_of_cmp t k e) s.0) s.1, get_or_zero))
    | inr (inr e) ↦ rw (e, get_or_zero, get, ◌=?◌)
  ]
