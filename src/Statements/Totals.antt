-- ===== src/Statements/Totals.antt =====
-- The totals of the sections, as sums over the chart.
use openqbw.Base.{
  ◌≡◌, sym, ap, ◌∙◌, List, [], ◌∷◌, none, some, ok, >>=-eq-ok, true, not, ◌&&◌, arith, All, inl,
  inr, Bool-cases, Option-cases, if◌then◌else◌,
}
use openqbw.Base.Int.{ℤ, pos, ◌+ℤ◌, eq_ℤ, int_laws}
use openqbw.Base.Text.{text_ord}
use openqbw.Base.Order.{eq_of_=?}
use openqbw.Base.Map.{Map, get_or_zero}
use openqbw.Base.Sum.{sum_of}
use openqbw.Accounting.Types.{AccountId, Account, TrialBalanceOptions}
use openqbw.Accounting.Types.Classification.{
  AccountType, QuickBooksAccountClassification, trial_balance_type, account_type_eq,
}
use openqbw.Statements.Types.{Section, section_eq, FinancialStatementRow}
use openqbw.Statements.Sections.{
  validate_classification, validated_list, section_for, presented_amount, account_row, section_rows,
}

-- An account with a QuickBooks classification that agrees with its type.
abbrev pub IsClassified : Account → Type 0
IsClassified a =
    (c : QuickBooksAccountClassification) × (a.quickbooks_classification ≡ some c)
    × (a.account_type ≡ trial_balance_type c)

pub eq_of_type_eq : (s t : AccountType) → account_type_eq s t ≡ true → s ≡ t
unfolding account_type_eq
eq_of_type_eq AccountType.asset t h = ground arith
eq_of_type_eq AccountType.liability t h = ground arith
eq_of_type_eq AccountType.equity t h = ground arith
eq_of_type_eq AccountType.income t h = ground arith
eq_of_type_eq AccountType.expense t h = ground arith
eq_of_type_eq AccountType.cost_of_goods_sold t h = ground arith
eq_of_type_eq (AccountType.other x) (AccountType.other y) h = ap AccountType.other (eq_of_=? x y h)
eq_of_type_eq (AccountType.other x) t h = cc

validate_classification_inv :
    (a r : Account) → validate_classification a ≡ ok r → (r ≡ a) × IsClassified a
unfolding validate_classification
validate_classification_inv a r e = elim (Option-cases a.quickbooks_classification) [
  | inl missing ↦ ground arith
  | inr (c, found) ↦ elim (Bool-cases (account_type_eq (trial_balance_type c) a.account_type)) [
    | inl same ↦
        (ground arith, (c, found, sym (eq_of_type_eq (trial_balance_type c) a.account_type same)))
    | inr differs ↦ ground arith
  ]
]

pub validated_list_inv :
    (accounts r : List Account)
    → validated_list accounts ≡ ok r
    → (r ≡ accounts) × All IsClassified accounts
unfolding validated_list
validated_list_inv [] r e = (cc, tt)
validated_list_inv (a ∷ rest) r e =
    let (a', one, e1) = >>=-eq-ok (validate_classification a) _ e in
    let (rest', later, e2) = >>=-eq-ok (validated_list rest) _ e1 in
    let (same, classified) = validate_classification_inv a a' one in
    let (same_rest, all) = validated_list_inv rest rest' later in
    (cc (e2, same, same_rest), (classified, all))

-- The amount that an account adds to a section.
abbrev pub in_section : Map AccountId ℤ → Section → Account → ℤ
in_section balances section a = elim (section_for a) [
  | none ↦ pos 0
  | some s ↦ if section_eq s section then presented_amount balances a else pos 0
]

added_total :
    (amount : ℤ) (r' r : List FinancialStatementRow × ℤ) (t : ℤ)
    → r.1 ≡ amount +ℤ r'.1
    → r'.1 ≡ t
    → r.1 ≡ amount +ℤ t
added_total amount r' r t e h = rw (e, h)

-- The total of a section is the sum of its accounts' presented amounts.
pub section_rows-total :
    (balances : Map AccountId ℤ) (section : Section) (options : TrialBalanceOptions)
    (accounts : List Account) (r : List FinancialStatementRow × ℤ)
    → section_rows balances section options accounts ≡ ok r
    → r.1 ≡ sum_of (in_section balances section) accounts
unfolding section_rows sum_of
section_rows-total balances section options [] r e = ground arith
section_rows-total balances section options (a ∷ rest) r e = elim (Option-cases (section_for a)) [
  | inl unclassified ↦ cc (rw (unclassified, section_rows) at e)
  | inr (s, found) ↦ elim (Bool-cases (section_eq s section)) [
    | inr elsewhere ↦
        rw (found, in_section)
          (rw elsewhere (
            section_rows-total balances section options rest r
              (rw elsewhere at (rw (found, section_rows) at e))
            ∙ omega int_laws))
    | inl here ↦
        elim (Bool-cases
          (eq_ℤ (get_or_zero a.id balances) (pos 0) && not options.include_zero_balance_accounts)) [
            | inl skip ↦
                let e1 = rw skip at (rw here at (rw (found, section_rows) at e)) in
                let (r', later, e2) = >>=-eq-ok (section_rows balances section options rest) _ e1 in
                rw (found, in_section)
                  (rw here (
                    added_total (presented_amount balances a) r' r _ (cc e2)
                      (section_rows-total balances section options rest r' later)))
            | inr list ↦
                let e1 = rw list at (rw here at (rw (found, section_rows) at e)) in
                let (row, _, e2) = >>=-eq-ok (account_row balances section a) _ e1 in
                let (r', later, e3) = >>=-eq-ok (section_rows balances section options rest) _ e2 in
                rw (found, in_section)
                  (rw here (
                    added_total (presented_amount balances a) r' r _ (cc e3)
                      (section_rows-total balances section options rest r' later)))
          ]
  ]
]
