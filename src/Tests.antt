-- ===== src/Tests.antt =====
-- Runs of the definitions on concrete values, and the theorems at inputs that meet their hypotheses.
mod Filter
mod PlanCache
mod Transaction
mod RangeIndex
mod RowId
mod PreparedStatements
mod BlindIndex
mod InvertedIndex
mod IndexTable
mod IndexRebuild
mod Match
