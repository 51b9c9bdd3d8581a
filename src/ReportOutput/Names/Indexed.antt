-- ===== src/ReportOutput/Names/Indexed.antt =====
-- The index of the accounts by their ids.
use openqbw.Base.{
  ◌==◌, ◌&&◌, ◌≡◌, refl, ap, ◌∙◌, true, List, [], ◌∷◌, Bool, Option, none, some, ok, ok_injective,
  arith, Bool-cases, Option-cases, inl, inr, All,
}
use openqbw.Base.Map.{Map, get, insert}
use openqbw.Base.Map.Laws.{get-insert}
use openqbw.Base.Order.{◌=?◌, =?_refl, eq_of_=?}
use openqbw.Base.Text.{Text, text_ord}
use openqbw.Accounting.Types.{AccountId, Account, AccountActivity}
use openqbw.Accounting.Types.Classification.{
  account_type_eq, QuickBooksAccountClassification, materialized_code,
}
use openqbw.Statements.Totals.{eq_of_type_eq}
use openqbw.ReportOutput.Names.{
  option_eq, text_eq, bool_eq, activity_code, classification_eq, account_eq, index_accounts,
}

eq_of_option_eq :
    {A : Type 0} (same : A → A → Bool) (s t : Option A)
    → ((a b : A) → same a b ≡ true → a ≡ b)
    → option_eq same s t ≡ true
    → s ≡ t
eq_of_option_eq same none none h e = refl
eq_of_option_eq same (some a) (some b) h e = ap some (h a b e)
eq_of_option_eq same none (some b) h e = absurd (cc e)
eq_of_option_eq same (some a) none h e = absurd (cc e)

eq_of_text_eq : (s t : Text) → text_eq s t ≡ true → s ≡ t
eq_of_text_eq s t e = eq_of_=? s t e

eq_of_classification_eq :
    (c d : QuickBooksAccountClassification) → classification_eq c d ≡ true → c ≡ d
unfolding materialized_code
eq_of_classification_eq c d e = ground arith

eq_of_bool_eq : (b c : Bool) → bool_eq b c ≡ true → b ≡ c
eq_of_bool_eq b c e = ground arith

eq_of_activity : (a b : AccountActivity) → (activity_code a == activity_code b) ≡ true → a ≡ b
eq_of_activity a b e = ground arith

both : (b c : Bool) → (b && c) ≡ true → (b ≡ true) × (c ≡ true)
both b c e = ground arith

eq_of_account_eq : (a b : Account) → account_eq a b ≡ true → a ≡ b
unfolding account_eq
eq_of_account_eq a b e =
    let (id, e1) = both (text_eq a.id b.id) _ e in
    let (number, e2) = both (option_eq text_eq a.account_number b.account_number) _ e1 in
    let (name, e3) = both (text_eq a.name b.name) _ e2 in
    let (parent, e4) = both (option_eq text_eq a.parent_account_id b.parent_account_id) _ e3 in
    let (kind, e5) = both (account_type_eq a.account_type b.account_type) _ e4 in
    let (class, e6) =
      both (option_eq classification_eq a.quickbooks_classification b.quickbooks_classification) _
        e5 in
    let (is_active, activity) = both (bool_eq a.is_active b.is_active) _ e6 in
    λ i. record {
      id = eq_of_text_eq a.id b.id id i;
      account_number =
          eq_of_option_eq text_eq a.account_number b.account_number eq_of_text_eq number i;
      name = eq_of_text_eq a.name b.name name i;
      parent_account_id =
          eq_of_option_eq text_eq a.parent_account_id b.parent_account_id eq_of_text_eq parent i;
      account_type = eq_of_type_eq a.account_type b.account_type kind i;
      quickbooks_classification =
          eq_of_option_eq classification_eq a.quickbooks_classification b.quickbooks_classification
            eq_of_classification_eq class i;
      is_active = eq_of_bool_eq a.is_active b.is_active is_active i;
      activity = eq_of_activity a.activity b.activity activity i;
    }

-- A new account leaves what was found.
get-insert_new :
    (k : AccountId) (b a : Account) (m : Map AccountId Account)
    → get a.id m ≡ none
    → get k m ≡ some b
    → get k (insert a.id a m) ≡ some b
get-insert_new k b a m new h = elim (Bool-cases (k =? a.id)) [
  | inl e ↦ absurd (cc (ap (λ (x : AccountId). get x m) (eq_of_=? k a.id e), new, h))
  | inr e ↦ get-insert a.id k a m ∙ rw e h
]

module _ {by_id : Map AccountId Account} where
  -- What was in the map stays, and each account given is found under its id.
  pub index_accounts-get :
      (m : Map AccountId Account) (accounts : List Account)
      → index_accounts m accounts ≡ ok by_id
      → ((k : AccountId) (b : Account) → get k m ≡ some b → get k by_id ≡ some b)
        × All (λ a. get a.id by_id ≡ some a) accounts
  unfolding index_accounts
  index_accounts-get m [] e = (λ k b h. rw (← ok_injective e) h, tt)
  index_accounts-get m (a ∷ rest) e = elim (Option-cases (get a.id m)) [
    | inl new ↦
        let (kept, all) =
          index_accounts-get (insert a.id a m) rest (rw (new, index_accounts) at e) in
        (
          λ k b h. kept k b (get-insert_new k b a m new h),
          (kept a.id a (get-insert a.id a.id a m ∙ rw (=?_refl a.id) refl), all),
        )
    | inr (b, old) ↦ elim (Bool-cases (account_eq b a)) [
      | inl same ↦
          let (kept, all) =
            index_accounts-get m rest (rw same at (rw (old, index_accounts) at e)) in
          (kept, (kept a.id a (old ∙ ap some (eq_of_account_eq b a same)), all))
      | inr other ↦ absurd (cc (rw other at (rw (old, index_accounts) at e)))
    ]
  ]
