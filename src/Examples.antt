-- ===== src/Examples.antt =====
-- Concrete inputs, runs of the definitions on them, and the theorems there.
mod Data
mod Codecs
mod Ledgers
mod Statements
mod Records
mod Handoff
mod Materialized
mod Graph
pub mod Exports
