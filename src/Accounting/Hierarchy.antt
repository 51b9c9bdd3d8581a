-- ===== src/Accounting/Hierarchy.antt =====
-- `validate_account_hierarchy` of crates/openqbw/src/accounting.rs.
pub mod Rooted
pub mod Termination
pub mod Exact
pub mod Panics
use openqbw.Base.{
  ℕ, zero, suc, List, [], ◌∷◌, Option, none, some, Outcome, ok, err, panic, stuck, ◌>>=◌, ◌>>◌,
  Bool, not, ◌||◌, length, if◌then◌else◌,
}
use openqbw.Base.Text.{Text, text_ord}
use openqbw.Base.Order.{◌=?◌}
use openqbw.Base.Map.{Map, get, contains_key, values}
use openqbw.Base.Set.{contains}
use openqbw.Accounting.Types.{AccountId, Account}
use openqbw.Accounting.Errors.{
  Result, self_parent_account, unknown_parent_account, account_hierarchy_cycle,
}

-- The `while let` loop over the parents of the account `id`: `accounts[&cursor]` panics where the
-- cursor is no key. The first argument is fuel.
unfoldable pub walk_parents :
    ℕ → Map AccountId Account → AccountId → List AccountId → AccountId → Result (Unit {0})
unfolding get contains
walk_parents zero m id visited cursor = stuck
walk_parents (suc fuel) m id visited cursor = elim (get cursor m) [
  | none ↦ panic
  | some account ↦ elim account.parent_account_id [
    | none ↦ ok tt
    | some next_parent ↦
        let rest = walk_parents fuel m id (cursor ∷ visited) next_parent in
        if contains cursor visited || next_parent =? id
        then err (account_hierarchy_cycle id)
        else rest
  ]
]

-- One round of the `for` loop. The loop below visits no key twice, so it needs one round more than
-- there are accounts.
unfoldable pub validate_account : Map AccountId Account → Account → Result (Unit {0})
unfolding walk_parents
validate_account m account = elim account.parent_account_id [
  | none ↦ ok tt
  | some parent_id ↦
      if parent_id =? account.id
      then err (self_parent_account account.id)
      else if not (contains_key parent_id m)
      then err (unknown_parent_account account.id parent_id)
      else walk_parents (suc (length m)) m account.id [] account.id
]

unfoldable pub validate_accounts : Map AccountId Account → List Account → Result (Unit {0})
unfolding validate_account
validate_accounts m [] = ok tt
validate_accounts m (account ∷ rest) = validate_account m account >> validate_accounts m rest

unfoldable pub validate_account_hierarchy : Map AccountId Account → Result (Unit {0})
unfolding validate_accounts
validate_account_hierarchy m = validate_accounts m (values m)
