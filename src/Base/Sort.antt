-- ===== src/Base/Sort.antt =====
-- `slice::sort_by`, a stable sort. A stable sort has one result, so insertion sort stands for it.
use openqbw.Base.{◌≡◌, ◌≢◌, refl, sym, List, [], ◌∷◌, All, DistinctBy, arith, inl, inr}
use openqbw.Base.Int.{ℤ, ◌+ℤ◌, int_laws}
use openqbw.Base.Order.{Ordering-cases}
use openqbw.Base.Sum.{sum_of}
use mathlib.Core.List.{Perm}
use mathlib.Core.List.Perm
use Prim.Native.Nat.{Ordering}
use Prim.Native.Nat.Ordering.{lt, gt}

module _ {ℓ} {A : Type ℓ} (cmp : A → A → Ordering) where
  unfoldable pub insert_by : A → List A → List A
  insert_by x [] = x ∷ []
  insert_by x (y ∷ ys) = elim (cmp x y) [ gt ↦ y ∷ insert_by x ys | _ ↦ x ∷ y ∷ ys ]

  unfoldable pub sort_by : List A → List A
  unfolding insert_by
  sort_by [] = []
  sort_by (x ∷ xs) = insert_by x (sort_by xs)

  insert_by-perm : (x : A) (ys : List A) → Perm (insert_by x ys) (x ∷ ys)
  unfolding insert_by
  insert_by-perm x [] = Perm.refl (x ∷ [])
  insert_by-perm x (y ∷ ys) = elim (Ordering-cases (cmp x y)) [
    | inl e ↦ rw (e, insert_by) (Perm.refl _)
    | inr (inl e) ↦ rw (e, insert_by) (Perm.refl _)
    | inr (inr e) ↦
        rw (e, insert_by) (Perm.trans (Perm.cons y (insert_by-perm x ys)) (Perm.swap x y ys))
  ]

  pub sort_by-perm : (xs : List A) → Perm (sort_by xs) xs
  unfolding sort_by
  sort_by-perm [] = Perm.refl []
  sort_by-perm (x ∷ xs) = Perm.trans (insert_by-perm x (sort_by xs)) (Perm.cons x (sort_by-perm xs))

  -- No element comes before a smaller one that follows it.
  abbrev pub IsOrdered : List A → Type 0
  IsOrdered [] = Unit
  IsOrdered (x ∷ []) = Unit
  IsOrdered (x ∷ y ∷ ys) = (cmp x y ≢ gt) × IsOrdered (y ∷ ys)

  module _ (lt_of_gt : (a b : A) → cmp a b ≡ gt → cmp b a ≡ lt) where
    insert_by-IsOrdered : (x : A) (ys : List A) → IsOrdered ys → IsOrdered (insert_by x ys)
    unfolding insert_by
    insert_by-IsOrdered x [] s = tt
    insert_by-IsOrdered x (y ∷ []) s = ground (arith, lt_of_gt x y)
    insert_by-IsOrdered x (y ∷ z ∷ zs) s =
        ground (arith, lt_of_gt x y, lt_of_gt x z, insert_by-IsOrdered x (z ∷ zs) s.1)

    pub sort_by-IsOrdered : (xs : List A) → IsOrdered (sort_by xs)
    unfolding sort_by
    sort_by-IsOrdered [] = tt
    sort_by-IsOrdered (x ∷ xs) = insert_by-IsOrdered x (sort_by xs) (sort_by-IsOrdered xs)

  sum_of-insert_by :
      (f : A → ℤ) (x : A) (ys : List A) → sum_of f (insert_by x ys) ≡ f x +ℤ sum_of f ys
  unfolding sum_of insert_by
  sum_of-insert_by f x [] = refl
  sum_of-insert_by f x (y ∷ ys) = elim (Ordering-cases (cmp x y)) [
    | inl e ↦ rw (e, insert_by)
    | inr (inl e) ↦ rw (e, insert_by)
    | inr (inr e) ↦ rw (e, insert_by) (rw (sum_of-insert_by f x ys) (omega int_laws))
  ]

  pub sum_of-sort_by : (f : A → ℤ) (xs : List A) → sum_of f (sort_by xs) ≡ sum_of f xs
  unfolding sum_of sort_by
  sum_of-sort_by f [] = refl
  sum_of-sort_by f (x ∷ xs) = rw (sum_of-insert_by f x (sort_by xs), sum_of-sort_by f xs)

  insert_by-All {κ} :
      (P : A → Type κ) (x : A) (ys : List A) → P x → All P ys → All P (insert_by x ys)
  unfolding insert_by
  insert_by-All P x [] p h = (p, tt)
  insert_by-All P x (y ∷ ys) p h = elim (Ordering-cases (cmp x y)) [
    | inl e ↦ rw (e, insert_by) (p, h)
    | inr (inl e) ↦ rw (e, insert_by) (p, h)
    | inr (inr e) ↦ rw (e, insert_by) (h.0, insert_by-All P x ys p h.1)
  ]

  pub sort_by-All {κ} : (P : A → Type κ) (xs : List A) → All P xs → All P (sort_by xs)
  unfolding sort_by
  sort_by-All P [] h = tt
  sort_by-All P (x ∷ xs) h = insert_by-All P x (sort_by xs) h.0 (sort_by-All P xs h.1)

  module _ {κ} {K : Type κ} (key : A → K) where
    insert_by-DistinctBy :
        (x : A) (ys : List A)
        → All (λ y. ¬ (key x ≡ key y)) ys
        → DistinctBy key ys
        → DistinctBy key (insert_by x ys)
    unfolding insert_by
    insert_by-DistinctBy x [] h d = (tt, tt)
    insert_by-DistinctBy x (y ∷ ys) h d = elim (Ordering-cases (cmp x y)) [
      | inl e ↦ rw (e, insert_by) (h, d)
      | inr (inl e) ↦ rw (e, insert_by) (h, d)
      | inr (inr e) ↦
          rw (e, insert_by)
            (
              insert_by-All (λ z. ¬ (key y ≡ key z)) x ys (λ q. h.0 (sym q)) d.0,
              insert_by-DistinctBy x ys h.1 d.1,
            )
    ]

    pub sort_by-DistinctBy : (xs : List A) → DistinctBy key xs → DistinctBy key (sort_by xs)
    unfolding sort_by
    sort_by-DistinctBy [] d = tt
    sort_by-DistinctBy (x ∷ xs) d =
        insert_by-DistinctBy x (sort_by xs) (sort_by-All (λ y. ¬ (key x ≡ key y)) xs d.0)
          (sort_by-DistinctBy xs d.1)
