-- ===== src/Accounting/Hierarchy/Panics.antt =====
-- A missing grandparent: the check indexes the chart with an id that no account has.
use openqbw.Base.{◌≡◌, ◌≢◌, ap, [], ◌∷◌, none, some, false, panic, length, ℕ, suc}
use openqbw.Base.Text.{text_ord}
use openqbw.Base.Order.{◌=?◌, =?_of_ne}
use openqbw.Base.Map.{Map, get}
use openqbw.Base.Map.Laws.{get_head}
use openqbw.Base.Set.{contains}
use openqbw.Accounting.Types.{AccountId, Account}
use openqbw.Accounting.Hierarchy.{walk_parents, validate_account, validate_account_hierarchy}
use openqbw.Accounting.Hierarchy.Rooted.{walk_missing, walk_step}

-- A known key is not a missing one.
apart :
    (m : Map AccountId Account) (j k : AccountId) {a : Account}
    → get j m ≡ none
    → get k m ≡ some a
    → (j =? k) ≡ false
apart m j k gone found = =?_of_ne j k (λ e. cc (gone, found, ap (λ (x : AccountId). get x m) e))

-- The walk passes from the account to its parent and on to the missing one.
walk_panics :
    (m : Map AccountId Account) (fuel : ℕ) (a b : Account) (parent missing : AccountId)
    → get a.id m ≡ some a
    → a.parent_account_id ≡ some parent
    → (parent =? a.id) ≡ false
    → get parent m ≡ some b
    → b.parent_account_id ≡ some missing
    → get missing m ≡ none
    → walk_parents (suc (suc (suc fuel))) m a.id [] a.id ≡ panic
unfolding contains
walk_panics m fuel a b parent missing ga pa ne gb pb gone =
    rw (walk_step m (suc (suc fuel)) a.id [] a.id a parent ga pa) (
      rw ne (
        rw (walk_step m (suc fuel) a.id (a.id ∷ []) parent b missing gb pb) (
          rw ne (
            rw (apart m missing a.id gone ga)
              (walk_missing m fuel a.id (parent ∷ a.id ∷ []) missing gone)))))

-- If the parent of the chart's first account is another known account, and the parent of that one is
-- missing from the chart, then the check panics: it does not report the missing parent.
pub validate_account_hierarchy_panics :
    (a b : Account) (parent missing : AccountId) (c : AccountId × Account)
    (rest : Map AccountId Account)
    → let m : Map AccountId Account = (a.id, a) ∷ c ∷ rest in
      a.parent_account_id ≡ some parent
      → parent ≢ a.id
      → get parent m ≡ some b
      → b.parent_account_id ≡ some missing
      → get missing m ≡ none
      → validate_account_hierarchy m ≡ panic
unfolding validate_account_hierarchy validate_account
validate_account_hierarchy_panics a b parent missing c rest pa ne gb pb gone =
    let other = =?_of_ne parent a.id ne in
    rw (pa, validate_account)
      (rw other (
        rw gb (
          rw (
            walk_panics ((a.id, a) ∷ c ∷ rest) (length rest) a b parent missing
              (get_head a.id a (c ∷ rest)) pa other gb pb gone))))
