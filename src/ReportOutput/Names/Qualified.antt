-- ===== src/ReportOutput/Names/Qualified.antt =====
-- What `account_full_names` gives: each account's name, behind those of the accounts that hold it.
use openqbw.Base.{◌≡◌, List, [], ◌∷◌, ◌++◌, none, some}
use openqbw.Base.Map.{Map, get}
use openqbw.Base.Text.{Text, text_ord}
use openqbw.Accounting.Types.{AccountId, Account}
use openqbw.Accounting.Hierarchy.Rooted.{Rooted}
use openqbw.ReportOutput.Names.{join_colon}

-- The names from the top of the hierarchy down to the account `k`.
pub data Qualified (m : Map AccountId Account) : AccountId → List Text → Type 0 where
  alone :
      {k : AccountId} (a : Account)
      → get k m ≡ some a
      → a.parent_account_id ≡ none
      → Qualified m k (a.name ∷ [])
  below :
      {k : AccountId} {names : List Text} (a : Account) (p : AccountId)
      → get k m ≡ some a
      → a.parent_account_id ≡ some p
      → Qualified m p names
      → Qualified m k (names ++ (a.name ∷ []))

-- The account `k` has its names, joined by colons, for its full name.
abbrev pub IsNamed : Map AccountId Account → Map AccountId Text → AccountId → Type 0
IsNamed m result k =
    (names : List Text) × Qualified m k names × (get k result ≡ some (join_colon names))
