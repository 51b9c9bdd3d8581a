-- ===== src/Accounting/Hierarchy/Exact.antt =====
-- The check of the hierarchy accepts exactly the charts whose every account is rooted.
use openqbw.Base.{
  ℕ, zero, suc, ◌≡◌, ◌↔◌, refl, ap, ◌∙◌, List, [], ◌∷◌, none, some, arith, inl, inr, Bool-cases,
  true, ok, err, Option-cases, length, if◌then◌else◌, not, >>=-eq-ok, All, All-map, is_some,
}
use openqbw.Base.Text.{text_ord}
use openqbw.Base.Order.{◌=?◌, =?_of_ne}
use openqbw.Base.Map.{Map, get, values, contains_key}
use openqbw.Base.Map.Laws.{get_tail, get_head, get_of_Below}
use mathlib.Core.Path.{subst}
use openqbw.Accounting.Types.{AccountId, Account}
use openqbw.Accounting.Errors.{Result, self_parent_account, unknown_parent_account}
use openqbw.Accounting.Validity.{IsChart}
use openqbw.Accounting.Hierarchy.{
  walk_parents, validate_account, validate_accounts, validate_account_hierarchy,
}
use openqbw.Accounting.Hierarchy.Rooted.{Rooted, top, child, walk-Rooted, walk_of_Rooted, not-top}
use openqbw.Accounting.Hierarchy.Termination.{walk_from_start-ne-stuck}

-- In a chart each account is found under its id.
abbrev pub IsFound : Map AccountId Account → Account → Type 0
IsFound m a = get a.id m ≡ some a

IsFound-behind :
    (k : AccountId) (b : Account) (m : Map AccountId Account)
    → IsChart ((k, b) ∷ m)
    → (a : Account) → IsFound m a
    → IsFound ((k, b) ∷ m) a
IsFound-behind k b m c a h =
    let apart : ¬ (a.id ≡ k) =
      λ e. cc (get_of_Below k m c.sorted.0 c.sorted.1, ap (λ (x : AccountId). get x m) e, h) in
    get_tail a.id k b m (=?_of_ne a.id k apart) ∙ h

pub values-IsFound : (m : Map AccountId Account) → IsChart m → All (IsFound m) (values m)
values-IsFound [] c = tt
values-IsFound ((k, b) ∷ m) c = (
  subst (λ (j : AccountId). get j ((k, b) ∷ m) ≡ some b) c.keyed.0 (get_head k b m),
  All-map (IsFound m) (IsFound ((k, b) ∷ m)) (IsFound-behind k b m c) (values m)
      (values-IsFound m (record { sorted = c.sorted.1; keyed = c.keyed.1 })),
)

abbrev pub IsRooted : Map AccountId Account → Account → Type 0
IsRooted m a = (n : ℕ) × Rooted m n a.id

module _ (m : Map AccountId Account) where
  -- The round of one account with a parent.
  abbrev linked : Account → AccountId → Result (Unit {0})
  linked a p =
      if p =? a.id
      then err (self_parent_account a.id)
      else if not (contains_key p m)
      then err (unknown_parent_account a.id p)
      else walk_parents (suc (length m)) m a.id [] a.id

  linked-IsRooted : (a : Account) (p : AccountId) → linked a p ≡ ok tt → IsRooted m a
  linked-IsRooted a p e = elim (Bool-cases (p =? a.id)) [
    | inl self ↦ cc (rw self at e)
    | inr other ↦ elim (Bool-cases (contains_key p m)) [
      | inl known ↦ walk-Rooted m (suc (length m)) a.id [] a.id (rw known at (rw other at e))
      | inr unknown ↦ cc (rw unknown at (rw other at e))
    ]
  ]

  validate_account-IsRooted :
      (a : Account) → IsFound m a → validate_account m a ≡ ok tt → IsRooted m a
  unfolding validate_account
  validate_account-IsRooted a found e = elim (Option-cases a.parent_account_id) [
    | inl no_parent ↦ (zero, top a found no_parent)
    | inr (p, parent) ↦ linked-IsRooted a p (rw (parent, validate_account) at e)
  ]

  Rooted-contains : {n : ℕ} {k : AccountId} → Rooted m n k → contains_key k m ≡ true
  Rooted-contains (top a g t) = ap is_some g
  Rooted-contains (child a p g t r) = ap is_some g

  linked_of_Rooted :
      (a : Account) (p : AccountId) (n : ℕ)
      → Rooted m n p
      → Rooted m (suc n) a.id
      → linked a p ≡ ok tt
  linked_of_Rooted a p n r s = rw (not-top m p a.id n (suc n) r (omega arith) s) (
      rw (Rooted-contains r)
        (elim (walk_of_Rooted m (suc (length m)) a.id [] a.id (suc n) (suc n) s tt (omega arith)
          s) [ inl done ↦ done | inr out ↦ absurd (walk_from_start-ne-stuck m a.id out) ]))

  validate_account_of_Rooted :
      (a : Account) {n : ℕ} {k : AccountId}
      → k ≡ a.id
      → IsFound m a
      → Rooted m n k
      → validate_account m a ≡ ok tt
  unfolding validate_account
  validate_account_of_Rooted a e found (top b g t) =
      let same : b ≡ a = cc (g, found, ap (λ (x : AccountId). get x m) e) in
      let no_parent : a.parent_account_id ≡ none =
        subst (λ (x : Account). x.parent_account_id ≡ none) same t in
      rw (no_parent, validate_account)
  validate_account_of_Rooted a e found (child {n = n} b p g t r) =
      let same : b ≡ a = cc (g, found, ap (λ (x : AccountId). get x m) e) in
      let parent : a.parent_account_id ≡ some p =
        subst (λ (x : Account). x.parent_account_id ≡ some p) same t in
      rw (parent, validate_account) (linked_of_Rooted a p n r (child a p found parent r))

  validate_accounts_iff :
      (accounts : List Account)
      → All (IsFound m) accounts
      → (validate_accounts m accounts ≡ ok tt) ↔ All (IsRooted m) accounts
  unfolding validate_accounts
  validate_accounts_iff [] h = (λ e. tt, λ r. refl)
  validate_accounts_iff (a ∷ rest) h = (
    λ e.
        let (_, here, later) = >>=-eq-ok (validate_account m a) _ e in
        (validate_account-IsRooted a h.0 here, (validate_accounts_iff rest h.1).0 later),
    λ r. rw (validate_account_of_Rooted a refl h.0 r.0.1) ((validate_accounts_iff rest h.1).1 r.1),
  )

-- The check of the hierarchy of a chart succeeds exactly when from every account the parent links lead,
-- through known accounts, to an account without a parent.
pub validate_account_hierarchy_iff :
    (m : Map AccountId Account)
    → IsChart m
    → (validate_account_hierarchy m ≡ ok tt) ↔ All (IsRooted m) (values m)
unfolding validate_account_hierarchy
validate_account_hierarchy_iff m c = validate_accounts_iff m (values m) (values-IsFound m c)
