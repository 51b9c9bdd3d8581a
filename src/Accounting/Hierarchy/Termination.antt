-- ===== src/Accounting/Hierarchy/Termination.antt =====
-- The walk over the parents ends: it visits each account of the chart at most once.
use openqbw.Base.{
  ℕ, zero, suc, ◌≡◌, ◌≢◌, ◌<◌, ◌≤◌, refl, sym, ◌∙◌, List, [], ◌∷◌, some, arith, inl, inr,
  Bool-cases, false, ok, err, panic, stuck, Option-cases, length, if◌then◌else◌, not, ◌>>◌,
}
use openqbw.Base.Text.{text_ord}
use openqbw.Base.Order.{◌=?◌, =?_sym, eq_of_=?}
use openqbw.Base.Map.{Map, get, values, contains_key}
use openqbw.Base.Set.{contains}
use openqbw.Accounting.Types.{AccountId, Account}
use openqbw.Accounting.Errors.{Result, self_parent_account, unknown_parent_account}
use openqbw.Accounting.Hierarchy.{
  walk_parents, validate_account, validate_accounts, validate_account_hierarchy,
}
use openqbw.Accounting.Hierarchy.Rooted.{walk_missing, walk_top, walk_step}
use openqbw.Base.Map.Laws.{get_tail}

-- How many keys of the map are not visited.
unfoldable pub fresh_keys : Map AccountId Account → List AccountId → ℕ
fresh_keys [] visited = 0
fresh_keys ((k, a) ∷ m) visited =
    if contains k visited then fresh_keys m visited else suc (fresh_keys m visited)

pub fresh_keys-le :
    (m : Map AccountId Account) (visited : List AccountId) → fresh_keys m visited ≤ length m
unfolding fresh_keys
fresh_keys-le [] visited = omega arith
fresh_keys-le ((k, a) ∷ m) visited = ground (arith, fresh_keys-le m visited)

fresh_keys_mono :
    (m : Map AccountId Account) (visited : List AccountId) (c : AccountId)
    → fresh_keys m (c ∷ visited) ≤ fresh_keys m visited
unfolding fresh_keys contains
fresh_keys_mono [] visited c = omega arith
fresh_keys_mono ((k, a) ∷ m) visited c = ground (arith, fresh_keys_mono m visited c)

-- Visiting a known account that was not visited leaves fewer.
pub fresh_keys-lt :
    (m : Map AccountId Account) (visited : List AccountId) (c : AccountId) {a : Account}
    → get c m ≡ some a
    → contains c visited ≡ false
    → fresh_keys m (c ∷ visited) < fresh_keys m visited
unfolding fresh_keys contains
fresh_keys-lt [] visited c g n = unfold get in cc
fresh_keys-lt ((k, b) ∷ m) visited c g n = elim (Bool-cases (k =? c)) [
  | inl e ↦
      let same : c ≡ k = sym (eq_of_=? k c e) in
      let new : contains k visited ≡ false = rw same at n in
      rw e (rw new (omega (arith, fresh_keys_mono m visited c)))
  | inr e ↦
      let behind = sym (get_tail c k b m (=?_sym k c e)) ∙ g in
      let ih = fresh_keys-lt m visited c behind n in
      elim (Bool-cases (contains k visited)) [
        | inl old ↦ rw e (rw old ih)
        | inr new ↦ rw e (rw new (omega (arith, ih)))
      ]
]

then-ne-stuck : (r s : Result (Unit {0})) → r ≢ stuck → s ≢ stuck → (r >> s) ≢ stuck
then-ne-stuck (ok u) s hr hs e = hs e
then-ne-stuck (err x) s hr hs e = cc
then-ne-stuck panic s hr hs e = cc
then-ne-stuck stuck s hr hs e = hr refl

module _ (m : Map AccountId Account) where
  walk-ne-stuck :
      (fuel : ℕ) (id : AccountId) (visited : List AccountId) (cursor : AccountId)
      → fresh_keys m visited < fuel
      → walk_parents fuel m id visited cursor ≢ stuck
  walk-ne-stuck zero id visited cursor h e = absurd (omega arith)
  walk-ne-stuck (suc fuel) id visited cursor h e = elim (Option-cases (get cursor m)) [
    | inl missing ↦ cc (walk_missing m fuel id visited cursor missing, e)
    | inr (a, found) ↦ elim (Option-cases a.parent_account_id) [
      | inl no_parent ↦ cc (walk_top m fuel id visited cursor a found no_parent, e)
      | inr (p, parent) ↦
          let step = walk_step m fuel id visited cursor a p found parent in
          elim (Bool-cases (contains cursor visited)) [
            | inl seen ↦ cc (rw seen at step, e)
            | inr new ↦ elim (Bool-cases (p =? id)) [
              | inl cycle ↦ cc (rw cycle at (rw new at step), e)
              | inr on ↦
                  walk-ne-stuck fuel id (cursor ∷ visited) p
                    (omega (arith, fresh_keys-lt m visited cursor found new))
                    (cc (rw on at (rw new at step), e))
            ]
          ]
    ]
  ]

  -- The fuel that the check of one account gives is enough.
  pub walk_from_start-ne-stuck : (id : AccountId) → walk_parents (suc (length m)) m id [] id ≢ stuck
  walk_from_start-ne-stuck id =
      walk-ne-stuck (suc (length m)) id [] id (omega (arith, fresh_keys-le m []))

  linked-ne-stuck :
      (a : Account) (p : AccountId)
      → (if p =? a.id
          then err (self_parent_account a.id)
          else if not (contains_key p m)
          then err (unknown_parent_account a.id p)
          else walk_parents (suc (length m)) m a.id [] a.id)
        ≢ stuck
  linked-ne-stuck a p e = elim (Bool-cases (p =? a.id)) [
    | inl self ↦ cc (rw self at e)
    | inr other ↦ elim (Bool-cases (contains_key p m)) [
      | inl known ↦ walk_from_start-ne-stuck a.id (rw known at (rw other at e))
      | inr unknown ↦ cc (rw unknown at (rw other at e))
    ]
  ]

  validate_account-ne-stuck : (a : Account) → validate_account m a ≢ stuck
  unfolding validate_account
  validate_account-ne-stuck a e = elim (Option-cases a.parent_account_id) [
    | inl no_parent ↦ cc (rw (no_parent, validate_account) at e)
    | inr (p, parent) ↦ linked-ne-stuck a p (rw (parent, validate_account) at e)
  ]

  validate_accounts-ne-stuck : (accounts : List Account) → validate_accounts m accounts ≢ stuck
  unfolding validate_accounts
  validate_accounts-ne-stuck [] e = cc
  validate_accounts-ne-stuck (a ∷ rest) e =
      then-ne-stuck (validate_account m a) (validate_accounts m rest) (validate_account-ne-stuck a)
        (validate_accounts-ne-stuck rest) e

-- The check of the hierarchy ends on every chart: no walk over the parents uses up its fuel.
pub validate_account_hierarchy-ne-stuck :
    (m : Map AccountId Account) → validate_account_hierarchy m ≢ stuck
unfolding validate_account_hierarchy
validate_account_hierarchy-ne-stuck m = validate_accounts-ne-stuck m (values m)
