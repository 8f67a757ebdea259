-- ===== src/RangeIndex/Planning.antt =====
-- How a range index takes part in the planning of a scan: `logical_support_options` and
-- `logical_query` of backends/mysql/src/metadata/indices/range_queries.rs.
use secure_fusion.Prelude.{◌≡◌, refl, String, true, Option, some}
use secure_fusion.Run.{Run, returns, plan_error}
use secure_fusion.Sql.{SqlExpr}
use secure_fusion.Statistics.{Estimates, TableStatistics}
use secure_fusion.Filter.{IndexableFilterExpr, and, or, not}
use secure_fusion.Filter.Comparison.{Comparisons, optimize_cmp}
use secure_fusion.Filter.Split.{SupportOptions, split, split_not, keep_supported}
use secure_fusion.RangeIndex.{
  RangeIndex, RangeEstimates, is_indexable_expr_supported, indexable_query_to_expr,
}

-- The answer of a support test. A test that panics ends the planning, and the split gets no answer:
-- `on_panic` stands for it, and may be anything.
abbrev pub answer : {P : Type 0} → (on_panic : Option P) → Run (Option P) → Option P
answer on_panic (returns p) = p
answer on_panic _ = on_panic

module _ {ℓ} {E : Type ℓ} (index : RangeIndex) where
  -- `RangeIndex::logical_support_options`.
  unfoldable pub logical_support_options :
      {P : Type 0} → (on_panic : Option P) → RangeEstimates P → SupportOptions E P
  logical_support_options on_panic estimates = record {
    supports_not = true;
    supports_or = true;
    is_supported = λ f stats. answer on_panic (is_indexable_expr_supported index estimates f stats);
  }

  -- `RangeIndex::logical_query`, which makes a fixed strategy of the filter on the buckets.
  unfoldable pub logical_query : Comparisons → String → IndexableFilterExpr E → Run SqlExpr
  logical_query cmp table filter = indexable_query_to_expr index (optimize_cmp cmp filter) table

  module _ {P : Type 0} (ops : Estimates P) (estimates : RangeEstimates P) (on_panic : Option P)
      (stats : TableStatistics P) where
    split-supported :
        (f : IndexableFilterExpr E) (p : P)
        → is_indexable_expr_supported index estimates f stats ≡ returns (some p)
        → split ops (logical_support_options on_panic estimates) stats f
          ≡ keep_supported ops (logical_support_options on_panic estimates) stats f p
    unfolding split logical_support_options
    split-supported (and l r) p h = rw (h, split, logical_support_options) refl
    split-supported (or l r) p h = rw (h, split, logical_support_options) refl
    split-supported (not e) p h = rw (h, split, logical_support_options) refl
    split-supported _ p h = rw (h, split, logical_support_options) refl

    -- The negation of a filter that a range index supports is handed to the index as a whole, and the
    -- index then fails with a plan error: it claims to support NOT, and has no query for it. The support
    -- test returns on the filter.
    pub logical_query-not_fails :
        (cmp : Comparisons) (table : String) (f : IndexableFilterExpr E) (p : P)
        → is_indexable_expr_supported index estimates f stats ≡ returns (some p)
        → ((split ops (logical_support_options on_panic estimates) stats (not f)).supported
            ≡ some (not f))
          × (logical_query cmp table (not f) ≡ plan_error)
    unfolding split split_not logical_support_options logical_query indexable_query_to_expr
        optimize_cmp is_indexable_expr_supported
    logical_query-not_fails cmp table f p h = (rw (split-supported f p h) refl, refl)
