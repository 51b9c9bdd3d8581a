-- ===== src/Accounting.antt =====
-- crates/openqbw/src/accounting.rs, with the account classification of
-- crates/openqbw/src/materialized_account_type_mapping.rs: the normalized ledger and its reports.
pub mod Types
pub mod Errors
pub mod Construct
pub mod Hierarchy
pub mod NewLedger
pub mod Reports
pub mod Validity
pub mod Selection
pub mod Balanced
pub mod GeneralLedger
pub mod TrialBalance
