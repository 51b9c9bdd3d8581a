-- ===== src/Base/Map/Totals.antt =====
-- A map of sums filled from a list: each element adds its amount under its key.
use openqbw.Base.{◌≡◌, refl, ◌∙◌, List, [], ◌∷◌, some, if◌then◌else◌, inl, inr, Bool-cases, All}
use openqbw.Base.Int.{ℤ, pos, ◌+ℤ◌, int_laws}
use openqbw.Base.Order.{Ord, ◌=?◌, Ordering-cases}
use Prim.Native.Nat.Ordering.{lt, eq, gt}
use openqbw.Base.Sum.{sum_of, sum_of-zero, sum_of-add}
use openqbw.Base.Map.{Map, get, entry_add, get_or_zero, values}
use openqbw.Base.Map.Laws.{Below, IsSorted, Below-trans, get_of_Below}
use openqbw.Base.Map.Sums.{sum-entry_add, entry_add-IsSorted, get_or_zero-entry_add}

module _ {ℓ κ} {K : Type ℓ} {A : Type κ} ⦃o : Ord K⦄ (key : A → K) (amount : A → ℤ) where
  unfoldable pub fill : Map K ℤ → List A → Map K ℤ
  fill m [] = m
  fill m (x ∷ xs) = fill (entry_add (key x) (amount x) m) xs

  -- What `x` adds to the sum of `j`.
  abbrev pub share : K → A → ℤ
  share j x = if j =? key x then amount x else pos 0

  pub fill-IsSorted : (m : Map K ℤ) (xs : List A) → IsSorted m → IsSorted (fill m xs)
  unfolding fill
  fill-IsSorted m [] s = s
  fill-IsSorted m (x ∷ xs) s =
      fill-IsSorted (entry_add (key x) (amount x) m) xs (entry_add-IsSorted (key x) (amount x) m s)

  pub sum-fill :
      (m : Map K ℤ) (xs : List A)
      → sum_of (λ v. v) (values (fill m xs)) ≡ sum_of (λ v. v) (values m) +ℤ sum_of amount xs
  unfolding fill sum_of
  sum-fill m [] = omega int_laws
  sum-fill m (x ∷ xs) =
      rw (sum-fill (entry_add (key x) (amount x) m) xs, sum-entry_add (key x) (amount x) m)
        (omega int_laws)

  pub get_or_zero-fill :
      (j : K) (m : Map K ℤ) (xs : List A)
      → IsSorted m
      → get_or_zero j (fill m xs) ≡ get_or_zero j m +ℤ sum_of (share j) xs
  unfolding fill sum_of
  get_or_zero-fill j m [] s = omega int_laws
  get_or_zero-fill j m (x ∷ xs) s =
      get_or_zero-fill j (entry_add (key x) (amount x) m) xs
        (entry_add-IsSorted (key x) (amount x) m s)
      ∙ rw (get_or_zero-entry_add (key x) j (amount x) m s) (elim (Bool-cases (j =? key x)) [
        | inl e ↦ rw e (omega int_laws)
        | inr e ↦ rw e (omega int_laws)
      ])

  -- From the empty map, each sum is that of its key's shares, and their total that of the amounts.
  pub get_or_zero-fill_empty :
      (j : K) (xs : List A) → get_or_zero j (fill [] xs) ≡ sum_of (share j) xs
  unfolding get
  get_or_zero-fill_empty j xs = get_or_zero-fill j [] xs tt ∙ omega int_laws

  pub sum-fill_empty : (xs : List A) → sum_of (λ v. v) (values (fill [] xs)) ≡ sum_of amount xs
  unfolding sum_of
  sum-fill_empty xs = sum-fill [] xs ∙ omega int_laws

  -- Summed over values that meet each key of the list once, the shares are the whole.
  pub sum-share {μ} :
      {B : Type μ} (id : B → K) (bs : List B) (xs : List A)
      → All (λ x. sum_of (λ b. share (id b) x) bs ≡ amount x) xs
      → sum_of (λ b. sum_of (share (id b)) xs) bs ≡ sum_of amount xs
  unfolding sum_of
  sum-share id bs [] h = sum_of-zero bs
  sum-share id bs (x ∷ xs) h =
      sum_of-add (λ b. share (id b) x) (λ b. sum_of (share (id b)) xs) bs
      ∙ rw (h.0, sum-share id bs xs h.1)

module _ {ℓ κ} {K : Type ℓ} {B : Type κ} ⦃o : Ord K⦄ (id : B → K) where
  -- Each value stands under its own key.
  abbrev pub IsKeyed : Map K B → Type ℓ
  IsKeyed [] = Unit
  IsKeyed ((k, b) ∷ m) = (k ≡ id b) × IsKeyed m

  abbrev at : K → ℤ → B → ℤ
  at k x b = if id b =? k then x else pos 0

  sum-at_of_Below :
      (k : K) (x : ℤ) (m : Map K B)
      → Below k m
      → IsSorted m
      → IsKeyed m
      → sum_of (at k x) (values m) ≡ pos 0
  unfolding sum_of
  sum-at_of_Below k x [] b s d = refl
  sum-at_of_Below k x ((j, v) ∷ m) b s d =
      let apart : o.cmp (id v) k ≡ gt = rw d.0 at (o.gt_of_lt k j b) in
      rw (apart, ◌=?◌)
        (rw (sum-at_of_Below k x m (Below-trans k j m b s.0) s.1 d.1) (omega int_laws))

  -- In a sorted map whose values stand under their own keys, one value meets a key that is there.
  pub sum-at :
      (k : K) (x : ℤ) (m : Map K B) {v : B}
      → get k m ≡ some v
      → IsSorted m
      → IsKeyed m
      → sum_of (at k x) (values m) ≡ x
  unfolding sum_of get
  sum-at k x [] g s d = cc
  sum-at k x ((j, v) ∷ m) g s d = elim (Ordering-cases (o.cmp k j)) [
    | inl e ↦ cc (get_of_Below k m (Below-trans k j m e s.0) s.1, rw (e, get) at g)
    | inr (inl e) ↦
        let same : k ≡ j = o.eq_of_cmp k j e in
        let here : o.cmp (id v) k ≡ eq = rw (← d.0, ← same) (o.cmp_refl k) in
        rw (here, ◌=?◌) (rw (sum-at_of_Below k x m (rw same s.0) s.1 d.1) (omega int_laws))
    | inr (inr e) ↦
        let apart : o.cmp (id v) k ≡ lt = rw d.0 at (o.lt_of_gt k j e) in
        rw (apart, ◌=?◌) (rw (sum-at k x m (rw (e, get) at g) s.1 d.1) (omega int_laws))
  ]
