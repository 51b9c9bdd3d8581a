-- ===== src/Rows/Tables.antt =====
-- crates/openqbw/src/enterprise24_accounting_table.rs: the accounting tables of Enterprise 24.
use openqbw.Base.{
  ℕ, ◌≡◌, ◌↔◌, Bool, true, false, ◌&&◌, Outcome, ok, err, ◌==◌, if◌then◌else◌, arith,
}

pub data AccountingTable : Type 0 where
  account_internal account_user bill_payment_check_header bill_payment_check_line bill_header
        bill_line check_header check_line deposit_header deposit_line general_journal_header
        general_journal_line :
      AccountingTable

unfoldable pub table_id : AccountingTable → ℕ
table_id account_internal = 3025
table_id account_user = 3026
table_id bill_payment_check_header = 3038
table_id bill_payment_check_line = 3039
table_id bill_header = 3040
table_id bill_line = 3042
table_id check_header = 3045
table_id check_line = 3047
table_id deposit_header = 3068
table_id deposit_line = 3069
table_id general_journal_header = 3076
table_id general_journal_line = 3078

unfoldable pub is_posting_table : AccountingTable → Bool
is_posting_table bill_payment_check_line = true
is_posting_table bill_line = true
is_posting_table check_line = true
is_posting_table deposit_line = true
is_posting_table general_journal_line = true
is_posting_table _ = false

unfoldable pub is_transaction_header_table : AccountingTable → Bool
is_transaction_header_table bill_payment_check_header = true
is_transaction_header_table bill_header = true
is_transaction_header_table check_header = true
is_transaction_header_table deposit_header = true
is_transaction_header_table general_journal_header = true
is_transaction_header_table _ = false

-- `UnsupportedEnterprise24AccountingTable`
pub data UnsupportedTable : Type 0 where
  unsupported_table : ℕ → UnsupportedTable

-- `TryFrom<u32>`
unfoldable pub table_of_id : ℕ → Outcome UnsupportedTable AccountingTable
table_of_id id =
    if id == 3025
    then ok account_internal
    else if id == 3026
    then ok account_user
    else if id == 3038
    then ok bill_payment_check_header
    else if id == 3039
    then ok bill_payment_check_line
    else if id == 3040
    then ok bill_header
    else if id == 3042
    then ok bill_line
    else if id == 3045
    then ok check_header
    else if id == 3047
    then ok check_line
    else if id == 3068
    then ok deposit_header
    else if id == 3069
    then ok deposit_line
    else if id == 3076
    then ok general_journal_header
    else if id == 3078
    then ok general_journal_line
    else err (unsupported_table id)

table_of_id-eq-ok : (id : ℕ) (t : AccountingTable) → table_of_id id ≡ ok t → table_id t ≡ id
unfolding table_of_id table_id
table_of_id-eq-ok id t e = ground arith

table_of_id-table_id : (t : AccountingTable) → table_of_id (table_id t) ≡ ok t
unfolding table_of_id table_id
table_of_id-table_id t = ground arith

-- A number is that of a table exactly when the conversion of the number gives the table, and no table
-- carries both postings and transaction headers.
pub table_of_id-iff-table_id :
    (id : ℕ) (t : AccountingTable)
    → ((table_of_id id ≡ ok t) ↔ (table_id t ≡ id))
      × ((is_posting_table t && is_transaction_header_table t) ≡ false)
unfolding is_posting_table is_transaction_header_table
table_of_id-iff-table_id id t =
    ((table_of_id-eq-ok id t, λ e. rw (← e) (table_of_id-table_id t)), ground arith)
