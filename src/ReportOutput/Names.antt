-- ===== src/ReportOutput/Names.antt =====
-- `account_full_names` and `account_display_names`: names qualified by the accounts' hierarchy.
pub mod Termination
pub mod Indexed
pub mod Qualified
use openqbw.Base.{
  ℕ, zero, suc, Bool, true, false, not, ◌&&◌, List, [], ◌∷◌, ◌++◌, Option, none, some, ok, err,
  stuck, ◌>>=◌, length, ◌==◌, if◌then◌else◌,
}
use openqbw.Base.Map.{Map, get, insert}
use openqbw.Base.Order.{◌=?◌}
use openqbw.Base.Set.{contains}
use openqbw.Base.Text.{Text, codes, text_ord}
use openqbw.Accounting.Types.{AccountId, Account, AccountActivity, active, inactive, unknown}
use openqbw.Accounting.Types.Classification.{
  account_type_eq, QuickBooksAccountClassification, materialized_code,
}
use openqbw.ReportOutput.Errors.{
  Output, conflicting_account_metadata, missing_parent_account, account_hierarchy_cycle,
}

abbrev pub option_eq {ℓ} : {A : Type ℓ} → (A → A → Bool) → Option A → Option A → Bool
option_eq same none none = true
option_eq same (some a) (some b) = same a b
option_eq same none (some b) = false
option_eq same (some a) none = false

abbrev pub text_eq : Text → Text → Bool
text_eq s t = s =? t

abbrev pub bool_eq : Bool → Bool → Bool
bool_eq true b = b
bool_eq false b = not b

abbrev pub activity_code : AccountActivity → ℕ
activity_code active = 0
activity_code inactive = 1
activity_code unknown = 2

abbrev pub classification_eq :
    QuickBooksAccountClassification → QuickBooksAccountClassification → Bool
unfolding materialized_code
classification_eq a b = materialized_code a == materialized_code b

-- The derived `==` of accounts
unfoldable pub account_eq : Account → Account → Bool
unfolding account_type_eq classification_eq
account_eq a b =
    text_eq a.id b.id
    && (option_eq text_eq a.account_number b.account_number
        && (text_eq a.name b.name
            && (option_eq text_eq a.parent_account_id b.parent_account_id
                && (account_type_eq a.account_type b.account_type
                    && (option_eq classification_eq a.quickbooks_classification
                          b.quickbooks_classification
                        && (bool_eq a.is_active b.is_active
                            && activity_code a.activity == activity_code b.activity))))))

-- The first loop of both functions: the accounts by their ids.
unfoldable pub index_accounts :
    Map AccountId Account → List Account → Output (Map AccountId Account)
unfolding get insert account_eq
index_accounts by_id [] = ok by_id
index_accounts by_id (account ∷ rest) = elim (get account.id by_id) [
  | none ↦ index_accounts (insert account.id account by_id) rest
  | some existing ↦
      if not (account_eq existing account)
      then err (conflicting_account_metadata account.id)
      else index_accounts by_id rest
]

-- The `loop` over the parents in `account_full_names`; the names are gathered from the leaf up, each
-- before those that it holds. The first argument is fuel.
unfoldable pub collect_components :
    ℕ
    → Map AccountId Account
    → AccountId
    → List AccountId
    → List Text
    → AccountId
    → Output (List Text)
unfolding get contains
collect_components zero by_id account_id seen components current_id = stuck
collect_components (suc fuel) by_id account_id seen components current_id =
    elim (contains current_id seen) [
      | true ↦ err (account_hierarchy_cycle current_id)
      | false ↦ elim (get current_id by_id) [
        | none ↦ err (missing_parent_account account_id current_id)
        | some account ↦ elim account.parent_account_id [
          | none ↦ ok (account.name ∷ components)
          | some parent ↦
              collect_components fuel by_id account_id (current_id ∷ seen)
                (account.name ∷ components) parent
        ]
      ]
    ]

-- `components.join(":")`
unfoldable pub join_colon : List Text → Text
join_colon [] = []
join_colon (name ∷ []) = name
join_colon (name ∷ next ∷ rest) = name ++ 58 ∷ join_colon (next ∷ rest)

-- The loop visits no account twice, so it needs one round more than there are accounts.
unfoldable pub full_name_of : Map AccountId Account → AccountId → Output Text
unfolding collect_components join_colon
full_name_of by_id account_id =
    collect_components (suc (length by_id)) by_id account_id [] [] account_id >>= λ components.
    ok (join_colon components)

unfoldable pub full_names_from :
    Map AccountId Account → Map AccountId Text → Map AccountId Account → Output (Map AccountId Text)
unfolding full_name_of insert
full_names_from by_id result [] = ok result
full_names_from by_id result ((account_id, account) ∷ rest) =
    full_name_of by_id account_id >>= λ name.
    full_names_from by_id (insert account_id name result) rest

unfoldable pub account_full_names : List Account → Output (Map AccountId Text)
unfolding index_accounts full_names_from
account_full_names accounts = index_accounts [] accounts >>= λ by_id. full_names_from by_id [] by_id

-- `account_full_names_with_catalog`
unfoldable pub account_full_names_with_catalog :
    List Account → List Account → Output (Map AccountId Text)
unfolding account_full_names
account_full_names_with_catalog account_catalog report_accounts =
    account_full_names (account_catalog ++ report_accounts)

-- The `loop` in `account_display_names`: the nearest account number. The first argument is fuel.
unfoldable pub nearest_number :
    ℕ → Map AccountId Account → AccountId → List AccountId → Account → Output (Option Text)
unfolding get contains
nearest_number zero by_id account_id seen current = stuck
nearest_number (suc fuel) by_id account_id seen current = elim (contains current.id seen) [
  | true ↦ err (account_hierarchy_cycle account_id)
  | false ↦ elim current.account_number [
    | some number ↦ ok (some number)
    | none ↦ elim current.parent_account_id [
      | none ↦ ok none
      | some parent_id ↦ elim (get parent_id by_id) [
        | none ↦ err (missing_parent_account account_id parent_id)
        | some parent ↦ nearest_number fuel by_id account_id (current.id ∷ seen) parent
      ]
    ]
  ]
]

abbrev not_in_report : Text
not_in_report = codes "<account missing from report>"

-- `account_full_name`, and `account_display_name` on the map of labels
unfoldable pub lookup_name : Map AccountId Text → AccountId → Output Text
unfolding get
lookup_name names account_id = elim (get account_id names) [
  | none ↦ err (missing_parent_account account_id not_in_report)
  | some name ↦ ok name
]

-- `format!("{number} · {full_name}")`
abbrev pub label : Option Text → Text → Text
label (some number) full_name = number ++ 32 ∷ 0xb7 ∷ 32 ∷ full_name
label none full_name = full_name

unfoldable pub display_names_from :
    Map AccountId Account
    → Map AccountId Text
    → Map AccountId Text
    → Map AccountId Account
    → Output (Map AccountId Text)
unfolding nearest_number lookup_name insert
display_names_from by_id full_names result [] = ok result
display_names_from by_id full_names result ((account_id, account) ∷ rest) =
    nearest_number (suc (length by_id)) by_id account_id [] account >>= λ number.
    lookup_name full_names account_id >>= λ full_name.
    display_names_from by_id full_names (insert account_id (label number full_name) result) rest

unfoldable pub account_display_names :
    List Account → Map AccountId Text → Output (Map AccountId Text)
unfolding index_accounts display_names_from
account_display_names accounts full_names =
    index_accounts [] accounts >>= λ by_id. display_names_from by_id full_names [] by_id

-- `account_display_names_with_catalog`
unfoldable pub account_display_names_with_catalog :
    List Account → List Account → Map AccountId Text → Output (Map AccountId Text)
unfolding account_display_names
account_display_names_with_catalog account_catalog report_accounts full_names =
    account_display_names (account_catalog ++ report_accounts) full_names
