-- ===== src/ReportOutput.antt =====
-- crates/openqbw-cli/src/report_output.rs: the reports as CSV texts.
pub mod Csv
pub mod Errors
pub mod Names
pub mod Checks
pub mod TrialBalance
pub mod Accepted
pub mod GeneralLedger
