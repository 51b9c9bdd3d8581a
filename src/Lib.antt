-- ===== src/Lib.antt =====
-- The accounting core of openqbw: from postings to the General Ledger, the Trial Balances and the
-- financial statements, with the codecs and row parsers that feed it.
--
-- The program reads a QuickBooks Desktop company file and turns it into a normalized ledger: a chart
-- of accounts and a list of postings. Every report is then computed from that ledger alone. Paths are
-- those of crates/openqbw/src/, but for those of Reconcile and ReportOutput.
--
--   Base: lists, outcomes (`Outcome E A` is `Result<A, E>` with two more ends: `panic`, where the code
--   panics, and `stuck`, where a loop's fuel is used up), integers over the native naturals, texts as
--   lists of character codes, sorted association lists for `BTreeMap`, lists of keys for `BTreeSet`,
--   the stable sort, sums, and byte arithmetic.
--   Dates: quickbooks_date.rs (Dates/QuickBooksDate, the four-byte dates), date.rs (Dates/SaDay, the
--   SQL Anywhere day numbers) and materialized_posting_date.rs (Dates/PostingDate, the minute counts
--   of posting rows; the page store's calendar, `SaDate`, is a parameter).
--   Balance: quickbooks_balance.rs, the six-byte balances and their reading as cents.
--   Cents: materialized_numeric.rs, the base-100 cents tokens of posting rows.
--   Accounting: accounting.rs and the classification of materialized_account_type_mapping.rs. Types
--   and Errors hold the data, Construct the constructors, Hierarchy `validate_account_hierarchy`,
--   NewLedger `Ledger::new`, Reports the General Ledger and both Trial Balances. Validity is the
--   invariant of a ledger; Selection, Balanced, GeneralLedger and TrialBalance hold the proofs.
--   Contract: decoder_contract.rs, the hand-off of decoded accounts and postings to the ledger
--   (Contract/Build holds `LedgerAdapter::build`'s theorems).
--   Drec: cindex_drec.rs, the sparse directory records. Schema holds the descriptors, Parse
--   `parse_drec`, Encode `encode_drec` and the constructors; Words, Values, Readings, Places, Steps and
--   Written the lemmas of Forward (writing, then reading) and Backward (reading, then writing).
--   Rows: single rows of the materialized tables. LongValue is long_value_ref.rs, BillHeader and
--   BillLine materialized_bill_header.rs and materialized_bill_posting.rs, VoidCompanion
--   materialized_check_void_companion.rs, Deposit materialized_deposit_posting.rs, MasterRow
--   materialized_transaction_master.rs, Tables enterprise24_accounting_table.rs. An index behind the end of a row is a panic.
--   FkGraph: fkgraph.rs, the matching of column names with table names, without the catalog readers.
--   Statements: financial_statements.rs, Profit & Loss and Balance Sheet, each row by row. NetIncome is
--   what Profit & Loss ends with.
--   Reconcile: crates/openqbw-cli/src/trial_balance_reconciliation.rs. Csv is the state machine of
--   `parse_csv_records`, Decode the bytes' decoding, Money `parse_money_cents`, Native and Normalized
--   the readers of the two kinds of export, Compare `from_balances` and `reconcile_trial_balances`.
--   ReportOutput: the Trial Balance of crates/openqbw-cli/src/report_output.rs as a CSV text, which the
--   readers of Reconcile read back. Csv is the writer of rows, Names the accounts' names by their
--   hierarchy, Checks the tests before the report is written, GeneralLedger `validate_general_ledger`;
--   Accepted and GeneralLedger/Accepted run them on the reports of a ledger.
--   Examples: a small ledger and concrete bytes, on which the definitions are run.
--
-- A loop over a list is a structural recursion. Three kinds of loop need fuel. The loop of `parse_drec` gets one
-- round more than there are bytes behind the flag, which is enough since a round reads an ordinal of
-- two bytes. The walks over an account's parents, in `validate_account_hierarchy` and in the two
-- functions of names, get one round more than there are accounts, which is enough since they stop at
-- the first account that they see twice. The digits of a number `n` get `n + 1` rounds, each of which
-- divides by ten.
--
-- Amounts and dates are integers without a bound: the code's i64 amounts are tested where the code
-- tests them (`checked_neg`, `try_from`), the sum of `unix_day_to_sa_day`, which takes any i64,
-- panics on overflow as in a build that checks it, and the code's i128 sums, which cannot overflow
-- on fewer than 2^63 postings of 64 bits, are taken as exact. Maps are compared by the order of the
-- character codes, which for texts is that of their UTF-8 bytes.
--
-- Not modelled: the display texts and plain getters, the page decoders and the other row decoders, the
-- schema adapters and the extraction pipeline on top of the page store, whose code is not part of
-- the repository, the other reports and readers of the command line, its JSON texts and database, and the Python bindings.
pub mod Base
pub mod Dates
pub mod Balance
pub mod Cents
pub mod Drec
pub mod Accounting
pub mod Rows
pub mod FkGraph
pub mod Reconcile
pub mod ReportOutput
pub mod Contract
pub mod Statements
pub mod Examples
