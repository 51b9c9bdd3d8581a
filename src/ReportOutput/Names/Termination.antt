-- ===== src/ReportOutput/Names/Termination.antt =====
-- The loops over the hierarchy end: each visits an account at most once.
use openqbw.Base.{
  ℕ, zero, suc, ◌<◌, ◌≡◌, refl, true, List, [], ◌∷◌, some, ok, arith, Bool-cases, Option-cases, inl,
  inr, length, is_settled, is_settled->>=, All, ok_injective,
}
use openqbw.Base.Map.{Map, get, insert, values}
use openqbw.Base.Set.{contains}
use openqbw.Base.Text.{Text, text_ord}
use openqbw.Accounting.Types.{AccountId, Account}
use openqbw.Accounting.Hierarchy.Exact.{IsFound, values-IsFound}
use openqbw.Accounting.Validity.{IsChart, insert-IsChart, empty_IsChart}
use openqbw.Base.Map.Ext.{get-values}
use mathlib.Core.Path.{subst}
use openqbw.Accounting.Hierarchy.Termination.{fresh_keys, fresh_keys-le, fresh_keys-lt}
use openqbw.ReportOutput.Names.{
  index_accounts, collect_components, full_name_of, full_names_from, account_full_names,
  nearest_number, lookup_name, display_names_from, account_display_names, account_eq, label,
}

-- The first loop ends, with a chart if it succeeds.
index_accounts-is_settled :
    (by_id : Map AccountId Account) (accounts : List Account)
    → is_settled (index_accounts by_id accounts) ≡ true
unfolding index_accounts
index_accounts-is_settled by_id [] = refl
index_accounts-is_settled by_id (a ∷ rest) = elim (Option-cases (get a.id by_id)) [
  | inl new ↦ rw (new, index_accounts) (index_accounts-is_settled (insert a.id a by_id) rest)
  | inr (b, old) ↦ elim (Bool-cases (account_eq b a)) [
    | inl same ↦ rw (old, index_accounts) (rw same (index_accounts-is_settled by_id rest))
    | inr other ↦ rw (old, index_accounts) (rw other)
  ]
]

pub index_accounts-IsChart :
    (m : Map AccountId Account) (accounts : List Account) {by_id : Map AccountId Account}
    → IsChart m
    → index_accounts m accounts ≡ ok by_id
    → IsChart by_id
unfolding index_accounts
index_accounts-IsChart m [] c e = subst IsChart (ok_injective e) c
index_accounts-IsChart m (a ∷ rest) c e = elim (Option-cases (get a.id m)) [
  | inl new ↦
      index_accounts-IsChart (insert a.id a m) rest (insert-IsChart a m c)
        (rw (new, index_accounts) at e)
  | inr (b, old) ↦ elim (Bool-cases (account_eq b a)) [
    | inl same ↦ index_accounts-IsChart m rest c (rw same at (rw (old, index_accounts) at e))
    | inr other ↦ cc (rw other at (rw (old, index_accounts) at e))
  ]
]

module _ (by_id : Map AccountId Account) where
  pub collect_components-is_settled :
      (fuel : ℕ) (id : AccountId) (seen : List AccountId) (components : List Text)
      (current : AccountId)
      → fresh_keys by_id seen < fuel
      → is_settled (collect_components fuel by_id id seen components current) ≡ true
  unfolding collect_components
  collect_components-is_settled zero id seen components current h = absurd (omega arith)
  collect_components-is_settled (suc fuel) id seen components current h =
      elim (Bool-cases (contains current seen)) [
        | inl old ↦ rw (old, collect_components)
        | inr new ↦ elim (Option-cases (get current by_id)) [
          | inl gone ↦ rw (new, collect_components) (rw (gone, collect_components))
          | inr (account, found) ↦
              rw (new, collect_components)
                (rw (found, collect_components)
                  (elim (Option-cases account.parent_account_id) [
                    | inl top ↦ rw (top, collect_components)
                    | inr (parent, up) ↦
                        rw (up, collect_components)
                          (collect_components-is_settled fuel id (current ∷ seen)
                            (account.name ∷ components) parent
                            (omega (arith, fresh_keys-lt by_id seen current found new)))
                  ]))
        ]
      ]

  full_names_from-is_settled :
      (result : Map AccountId Text) (m : Map AccountId Account)
      → is_settled (full_names_from by_id result m) ≡ true
  unfolding full_names_from full_name_of
  full_names_from-is_settled result [] = refl
  full_names_from-is_settled result ((id, account) ∷ rest) =
      is_settled->>= (full_name_of by_id id) _
        (is_settled->>= (collect_components (suc (length by_id)) by_id id [] [] id) _
          (collect_components-is_settled (suc (length by_id)) id [] [] id
            (omega (arith, fresh_keys-le by_id [])))
          (λ components _. refl))
        (λ name _. full_names_from-is_settled (insert id name result) rest)

  module _ (found : All (IsFound by_id) (values by_id)) where
    nearest_number-is_settled :
        (fuel : ℕ) (id : AccountId) (seen : List AccountId) (current : Account)
        → get current.id by_id ≡ some current
        → fresh_keys by_id seen < fuel
        → is_settled (nearest_number fuel by_id id seen current) ≡ true
    unfolding nearest_number
    nearest_number-is_settled zero id seen current g h = absurd (omega arith)
    nearest_number-is_settled (suc fuel) id seen current g h =
        elim (Bool-cases (contains current.id seen)) [
          | inl old ↦ rw (old, nearest_number)
          | inr new ↦
              rw (new, nearest_number)
                (elim (Option-cases current.account_number) [
                  | inr (number, has) ↦ rw (has, nearest_number)
                  | inl none_here ↦
                      rw (none_here, nearest_number)
                        (elim (Option-cases current.parent_account_id) [
                          | inl top ↦ rw (top, nearest_number)
                          | inr (p, up) ↦
                              rw (up, nearest_number)
                                (elim (Option-cases (get p by_id)) [
                                  | inl gone ↦ rw (gone, nearest_number)
                                  | inr (parent, known) ↦
                                      rw (known, nearest_number)
                                        (nearest_number-is_settled fuel id (current.id ∷ seen)
                                          parent
                                          (get-values (IsFound by_id) p parent by_id found known)
                                          (omega
                                            (arith, fresh_keys-lt by_id seen current.id g new)))
                                ])
                        ])
                ])
        ]

    lookup_name-is_settled :
        (names : Map AccountId Text) (id : AccountId) → is_settled (lookup_name names id) ≡ true
    unfolding lookup_name
    lookup_name-is_settled names id = elim (Option-cases (get id names)) [
      | inl gone ↦ rw (gone, lookup_name)
      | inr (name, here) ↦ rw (here, lookup_name)
    ]

    display_names_from-is_settled :
        (full_names result : Map AccountId Text) (m : Map AccountId Account)
        → All (IsFound by_id) (values m)
        → is_settled (display_names_from by_id full_names result m) ≡ true
    unfolding display_names_from
    display_names_from-is_settled full_names result [] h = refl
    display_names_from-is_settled full_names result ((id, account) ∷ rest) h =
        is_settled->>= (nearest_number (suc (length by_id)) by_id id [] account) _
          (nearest_number-is_settled (suc (length by_id)) id [] account h.0
            (omega (arith, fresh_keys-le by_id [])))
          (λ number _.
            is_settled->>= (lookup_name full_names id) _ (lookup_name-is_settled full_names id)
              (λ full_name _.
                display_names_from-is_settled full_names (insert id (label number full_name) result)
                  rest h.1))

-- Both functions end with the names or with an error value, whatever the accounts and the links
-- between them: no loop runs on, and no index panics.
pub account_names-is_settled :
    (accounts : List Account) (full_names : Map AccountId Text)
    → (is_settled (account_full_names accounts) ≡ true)
      × (is_settled (account_display_names accounts full_names) ≡ true)
unfolding account_full_names account_display_names
account_names-is_settled accounts full_names = (
  is_settled->>= (index_accounts [] accounts) _ (index_accounts-is_settled [] accounts)
      (λ by_id _. full_names_from-is_settled by_id [] by_id),
  is_settled->>= (index_accounts [] accounts) _ (index_accounts-is_settled [] accounts) (λ by_id e.
      let found = values-IsFound by_id (index_accounts-IsChart [] accounts empty_IsChart e) in
      display_names_from-is_settled by_id found full_names [] by_id found),
)
