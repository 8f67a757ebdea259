-- ===== src/Statistics.antt =====
-- The statistics of a table: `TableStatistics` of backends/mysql/src/providers/table_provider.rs.
-- `P` stands for DataFusion's `Precision<usize>`, an estimate of a number of rows.
use secure_fusion.Prelude.{
  ℕ, ◌-◌, ◌*◌, String, Bool, true, false, Option, none, some, List, ltb, if◌then◌else◌,
}

-- The operations of `Precision<usize>` that the source calls.
pub record Estimates (P : Type 0) : Type 0 where
  pub min : P → P → P
  pub add : P → P → P
  pub sub : P → P → P

-- `last_update` is a time in seconds.
pub record TableStatistics (P : Type 0) : Type 0 where
  pub update_signal : Bool
  pub table_reference : String
  pub last_update : ℕ
  pub num_rows : P
  pub indexing_columns : List (String × P)

-- `Duration::from_hours(4)`, in seconds.
abbrev pub refresh_freq : ℕ
refresh_freq = 4 * 3600

-- The result of `refresh_if_needed`: `Ok(None)`, `Ok(Some(..))` or an error.
pub data Refreshed (P : Type 0) : Type 0 where
  unchanged : Refreshed P
  refreshed : TableStatistics P → Refreshed P
  failed : Refreshed P

module _ {P : Type 0} (build_for_table : String → Option (TableStatistics P)) where
  -- The query of the server, once it is decided on.
  unfoldable pub rebuild : TableStatistics P → TableStatistics P × Refreshed P
  rebuild stats = elim (build_for_table stats.table_reference) [
    | some value ↦ (stats, refreshed value)
    | none ↦ (record stats { update_signal = false }, failed)
  ]

  -- `TableStatistics::refresh_if_needed`: the statistics with their signal, and the result. The swap
  -- sets the signal and gives its former value.
  unfoldable pub refresh_if_needed : (now : ℕ) → TableStatistics P → TableStatistics P × Refreshed P
  refresh_if_needed now stats =
      if ltb refresh_freq (now - stats.last_update)
      then (if stats.update_signal
          then rebuild (record stats { update_signal = true })
          else (record stats { update_signal = true }, unchanged))
      else (stats, unchanged)
