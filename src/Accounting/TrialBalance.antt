-- ===== src/Accounting/TrialBalance.antt =====
-- The Trial Balances: their rows, their totals, and when they are refused.
pub mod Rows
pub mod Net
pub mod Plain
pub mod Accrual
pub mod AccrualReport
