-- ===== src/Statements.antt =====
-- crates/openqbw/src/financial_statements.rs: Profit & Loss and Balance Sheet.
pub mod Types
pub mod Sections
pub mod ProfitAndLoss
pub mod BalanceSheet
pub mod Totals
pub mod NetIncome
