-- ===== src/Reconcile.antt =====
-- crates/openqbw-cli/src/trial_balance_reconciliation.rs: Trial Balances read from CSV exports, and
-- their comparison to the cent.
pub mod Errors
pub mod Csv
pub mod Compare
pub mod Decode
pub mod Money
pub mod Columns
pub mod Native
pub mod Normalized
