-- ===== src/Accounting/Construct.antt =====
-- The constructors and accessors of identifiers, accounts, amounts and postings.
pub mod Columns
use openqbw.Base.{
  ℕ, Bool, true, false, ◌||◌, Option, none, some, ok, err, panic, ◌>>=◌, if◌then◌else◌,
}
use openqbw.Base.Int.{ℤ, pos, neg, ltb_ℤ, leb_ℤ, eq_ℤ, i64_min}
use openqbw.Base.Text.{Text, codes, is_blank}
use openqbw.Accounting.Types.{
  AccountId, TransactionId, PostingId, AccountingDate, AccountActivity, active, inactive, unknown,
  Account, DebitCredit, debit, credit, DebitCreditAmount, PostingProvenance, CurrentState, Posting,
}
use openqbw.Accounting.Types.Classification.{AccountType, QuickBooksAccountClassification}
use openqbw.Accounting.Errors.{
  Result, empty_identifier, empty_account_name, empty_account_number, invalid_minor_units,
  invalid_provenance,
}

-- `AccountId::new`
unfoldable pub new_account_id : Text → Result AccountId
new_account_id value = if is_blank value then err (empty_identifier (codes "account")) else ok value

-- `TransactionId::new`
unfoldable pub new_transaction_id : Text → Result TransactionId
new_transaction_id value =
    if is_blank value then err (empty_identifier (codes "transaction")) else ok value

-- `PostingId::new`
unfoldable pub new_posting_id : Text → Result PostingId
new_posting_id value = if is_blank value then err (empty_identifier (codes "posting")) else ok value

-- `AccountActivity::known_bool`
unfoldable pub known_bool : AccountActivity → Option Bool
known_bool active = some true
known_bool inactive = some false
known_bool unknown = none

-- `Account::new`
unfoldable pub new_account : AccountId → Text → AccountType → Bool → Result Account
new_account id name account_type is_active =
    if is_blank name
    then err (empty_account_name id)
    else ok (record {
      id = id;
      account_number = none;
      name = name;
      parent_account_id = none;
      account_type = account_type;
      quickbooks_classification = none;
      is_active = is_active;
      activity = if is_active then active else inactive;
    })

-- `Account::new_with_unknown_activity`
unfoldable pub new_with_unknown_activity : AccountId → Text → AccountType → Result Account
unfolding new_account
new_with_unknown_activity id name account_type = do
  account ← new_account id name account_type false
  ok (record account { activity = unknown })

-- `Account::with_activity`
unfoldable pub with_activity : Account → AccountActivity → Account
unfolding known_bool
with_activity account activity = record account {
  is_active = elim (known_bool activity) [ none ↦ false | some b ↦ b ];
  activity = activity;
}

-- `Account::with_quickbooks_classification`
unfoldable pub with_quickbooks_classification : Account → QuickBooksAccountClassification → Account
with_quickbooks_classification account c = record account { quickbooks_classification = some c }

-- `Account::with_hierarchy`
unfoldable pub with_hierarchy : Account → Option Text → Option AccountId → Result Account
with_hierarchy account number parent =
    if elim number [ none ↦ false | some n ↦ is_blank n ]
    then err (empty_account_number account.id)
    else ok (record account { account_number = number; parent_account_id = parent })

-- `DebitCreditAmount::new`
unfoldable pub new_amount : DebitCredit → ℤ → Result DebitCreditAmount
new_amount side minor_units =
    if leb_ℤ minor_units (pos 0) || eq_ℤ minor_units i64_min
    then err (invalid_minor_units minor_units)
    else ok (record { side = side; minor_units = minor_units })

-- `DebitCreditAmount::signed_minor_units`; the `expect` on `checked_neg` is a panic.
unfoldable pub signed_amount : DebitCreditAmount → Result ℤ
unfolding neg
signed_amount amount = elim amount.side [
  | debit ↦ ok amount.minor_units
  | credit ↦ if eq_ℤ amount.minor_units i64_min then panic else ok (neg amount.minor_units)
]

-- `PostingProvenance::new`
unfoldable pub new_provenance : Text → Option ℕ → Option ℕ → Text → Result PostingProvenance
new_provenance source_row page_number slot_number decoder =
    if is_blank source_row || is_blank decoder
    then err invalid_provenance
    else ok (record {
      source_row = source_row;
      page_number = page_number;
      slot_number = slot_number;
      decoder = decoder;
    })

-- `Posting::new`
unfoldable pub new_posting :
    TransactionId
    → PostingId
    → AccountId
    → AccountingDate
    → DebitCreditAmount
    → CurrentState
    → PostingProvenance
    → Option Text
    → Option Text
    → Result Posting
unfolding signed_amount
new_posting transaction_id id account_id date amount state provenance transaction_type memo = do
  signed ← signed_amount amount
  ok (record {
    transaction_id = transaction_id;
    id = id;
    account_id = account_id;
    date = date;
    signed_minor_units = signed;
    current_state = state;
    provenance = provenance;
    transaction_type = transaction_type;
    memo = memo;
  })

-- `Posting::debit_minor_units`
unfoldable pub debit_minor_units : Posting → Option ℤ
debit_minor_units p = if ltb_ℤ (pos 0) p.signed_minor_units then some p.signed_minor_units else none

-- `Posting::credit_minor_units`. The negation is made before the test: of i64::MIN it overflows,
-- which is a panic where overflow is checked.
unfoldable pub credit_minor_units : Posting → Result (Option ℤ)
unfolding neg
credit_minor_units p =
    if eq_ℤ p.signed_minor_units i64_min
    then panic
    else ok (if ltb_ℤ p.signed_minor_units (pos 0) then some (neg p.signed_minor_units) else none)
