-- ===== src/Accounting/Hierarchy/Rooted.antt =====
-- What the check of the account hierarchy means: parent links that lead to a top-level account.
use openqbw.Base.{
  ℕ, zero, suc, ◌≡◌, ◌<◌, ◌≤◌, refl, sym, ap, if◌then◌else◌, List, [], ◌∷◌, none, some, arith, All,
  inl, inr, Bool-cases, false, ◌||◌, ok, err, panic, stuck, ◌⊎◌, Option-cases, All-map,
}
use openqbw.Base.Text.{text_ord}
use openqbw.Base.Order.{◌=?◌, eq_of_=?}
use openqbw.Base.Map.{Map, get}
use openqbw.Base.Set.{contains}
use openqbw.Accounting.Types.{AccountId, Account}
use openqbw.Accounting.Errors.{account_hierarchy_cycle}
use openqbw.Accounting.Hierarchy.{walk_parents}

-- The account `k` is known, and `n` parent links lead from it to an account without a parent.
pub data Rooted (m : Map AccountId Account) : ℕ → AccountId → Type 0 where
  top :
      {k : AccountId} (a : Account)
      → get k m ≡ some a
      → a.parent_account_id ≡ none
      → Rooted m zero k
  child :
      {n : ℕ} {k : AccountId} (a : Account) (p : AccountId)
      → get k m ≡ some a
      → a.parent_account_id ≡ some p
      → Rooted m n p
      → Rooted m (suc n) k

module _ (m : Map AccountId Account) where
  -- The number of links is determined.
  Rooted-unique : {n n' : ℕ} {k : AccountId} → Rooted m n k → Rooted m n' k → n ≡ n'
  Rooted-unique (top a g t) (top b h u) = refl
  Rooted-unique (top a g t) (child b q h u s) =
      let same : a ≡ b = cc in cc (ap (λ (x : Account). x.parent_account_id) same)
  Rooted-unique (child a p g t r) (top b h u) =
      let same : a ≡ b = cc in cc (ap (λ (x : Account). x.parent_account_id) same)
  Rooted-unique (child a p g t r) (child b q h u s) =
      let same : a ≡ b = cc in
      let one : q ≡ p = cc (ap (λ (x : Account). x.parent_account_id) same) in
      ap suc (Rooted-unique r (rw one at s))

  -- One round of the loop.
  module _ (fuel : ℕ) (id : AccountId) (visited : List AccountId) (cursor : AccountId) where
    pub walk_missing : get cursor m ≡ none → walk_parents (suc fuel) m id visited cursor ≡ panic
    unfolding walk_parents
    walk_missing missing = rw (missing, walk_parents)

    pub walk_top :
        (a : Account)
        → get cursor m ≡ some a
        → a.parent_account_id ≡ none
        → walk_parents (suc fuel) m id visited cursor ≡ ok tt
    unfolding walk_parents
    walk_top a found no_parent = rw (found, walk_parents) (rw no_parent)

    pub walk_step :
        (a : Account) (p : AccountId)
        → get cursor m ≡ some a
        → a.parent_account_id ≡ some p
        → walk_parents (suc fuel) m id visited cursor ≡ (
            if contains cursor visited || p =? id
            then err (account_hierarchy_cycle id)
            else walk_parents fuel m id (cursor ∷ visited) p)
    unfolding walk_parents
    walk_step a p found parent = rw (found, walk_parents) (rw parent)

  -- A walk that ends well has found the top.
  pub walk-Rooted :
      (fuel : ℕ) (id : AccountId) (visited : List AccountId) (cursor : AccountId)
      → walk_parents fuel m id visited cursor ≡ ok tt
      → (n : ℕ) × Rooted m n cursor
  unfolding walk_parents
  walk-Rooted zero id visited cursor e = cc
  walk-Rooted (suc fuel) id visited cursor e = elim (Option-cases (get cursor m)) [
    | inl missing ↦ cc (walk_missing fuel id visited cursor missing, e)
    | inr (a, found) ↦ elim (Option-cases a.parent_account_id) [
      | inl no_parent ↦ (zero, top a found no_parent)
      | inr (p, parent) ↦
          let step = walk_step fuel id visited cursor a p found parent in
          elim (Bool-cases (contains cursor visited || p =? id)) [
            | inl cycle ↦ cc (rw cycle at step, e)
            | inr on ↦
                let later : walk_parents fuel m id (cursor ∷ visited) p ≡ ok tt =
                  cc (rw on at step, e) in
                let (n, r) = walk-Rooted fuel id (cursor ∷ visited) p later in
                (suc n, child a p found parent r)
          ]
    ]
  ]

  -- Each visited account is farther from the top than the cursor is.
  abbrev pub Farther : ℕ → AccountId → Type 0
  Farther n k = (d : ℕ) × (n < d) × Rooted m d k

  pub not-contains-Farther :
      (n : ℕ) (k : AccountId) (visited : List AccountId)
      → Rooted m n k
      → All (Farther n) visited
      → contains k visited ≡ false
  unfolding contains
  not-contains-Farther n k [] r h = refl
  not-contains-Farther n k (j ∷ visited) r ((d, far, s), h) = elim (Bool-cases (k =? j)) [
    | inl e ↦
        let same : j ≡ k = sym (eq_of_=? k j e) in
        absurd (omega (arith, Rooted-unique r (rw same at s)))
    | inr e ↦ rw e (not-contains-Farther n k visited r h)
  ]

  -- A parent that is nearer to the top than the account `id` is not `id`.
  pub not-top :
      (p id : AccountId) (n d : ℕ) → Rooted m n p → n < d → Rooted m d id → (p =? id) ≡ false
  not-top p id n d r lt s = elim (Bool-cases (p =? id)) [
    | inl e ↦
        let same : id ≡ p = sym (eq_of_=? p id e) in
        absurd (omega (arith, Rooted-unique r (rw same at s)))
    | inr e ↦ e
  ]

  -- From a rooted account the walk finds no cycle and misses no account.
  pub walk_of_Rooted :
      (fuel : ℕ) (id : AccountId) (visited : List AccountId) (cursor : AccountId) (n d : ℕ)
      → Rooted m n cursor
      → All (Farther n) visited
      → n ≤ d
      → Rooted m d id
      → (walk_parents fuel m id visited cursor ≡ ok tt)
        ⊎ (walk_parents fuel m id visited cursor ≡ stuck)
  walk_of_Rooted zero id visited cursor n d r h le s = inr (unfold walk_parents in refl)
  walk_of_Rooted (suc fuel) id visited cursor zero d (top a g t) h le s =
      inl (walk_top fuel id visited cursor a g t)
  walk_of_Rooted (suc fuel) id visited cursor (suc n) d (child a p g t r) h le s =
      let here : Rooted m (suc n) cursor = child a p g t r in
      let fresh = not-contains-Farther (suc n) cursor visited here h in
      let apart : (p =? id) ≡ false = not-top p id n d r le s in
      rw (walk_step fuel id visited cursor a p g t) (
        rw fresh (
          rw apart (
            walk_of_Rooted fuel id (cursor ∷ visited) p n d r
              (
                (suc n, omega arith, here),
                All-map (Farther (suc n)) (Farther n) (λ k (e, far, q). (e, omega arith, q)) visited
                    h,
              )
              (omega arith) s)))
