-- ===== src/Tests/RangeIndex.antt =====
-- The range index of backends/mysql/src/metadata/indices/range_queries.rs on a column of prices in
-- buckets of ten.
use secure_fusion.Prelude.{
  ℕ, ◌+◌, ◌-◌, ◌*◌, ◌^◌, ◌<◌, ◌≡◌, refl, String, false, Option, none, some, [], if◌then◌else◌,
  arith,
}
use text.Mathlib.Text.{◌==◌ as str_eq}
use secure_fusion.Prelude.Int.{pos, ◌<ℤ◌}
use secure_fusion.Truth.{Truth, holds, fails, unknown, and₃}
use secure_fusion.Scalar.{ScalarValue, number, int64}
use secure_fusion.Run.{returns, plan_error}
use secure_fusion.Sql.{SqlValue, SqlExpr, eval_sql}
use secure_fusion.Filter.{
  EqualityOperator, lt, lt_eq, gt_eq, ColumnWithCast, IndexableFilterExpr, and, equality, between,
}
use secure_fusion.Filter.Meaning.{Row, eval}
use secure_fusion.Filter.Comparison.Bounds.{compare_int}
use secure_fusion.RangeIndex.{
  RangeIndex, uniform, no_obfuscation, div_i64, distribution_value_to_indexable, value_to_indexable,
  as_i64, for_value, for_array_value, indexable_query_to_expr,
}
use secure_fusion.RangeIndex.Buckets.{value_to_indexable-bucket, value_to_indexable_wraps}
use secure_fusion.RangeIndex.Query.{IsIndexedRow, IsPlaced}
use secure_fusion.RangeIndex.Query.Sound.{
  conjunction, bound, interval, indexable_query_to_expr_sound, indexable_query_to_expr-strict_loses,
}
use secure_fusion.Statistics.{Estimates, TableStatistics}
use secure_fusion.Filter.{not}
use secure_fusion.Filter.Comparison.{Comparisons}
use secure_fusion.Filter.Split.{split}
use secure_fusion.RangeIndex.{RangeEstimates, is_indexable_expr_supported, one_supported}
use secure_fusion.RangeIndex.Planning.{
  logical_support_options, logical_query, logical_query-not_fails,
}

program : Unit {0}
unfolding div_i64 distribution_value_to_indexable value_to_indexable as_i64 for_value
    for_array_value indexable_query_to_expr is_indexable_expr_supported one_supported
program = tt

abbrev price_index : RangeIndex
price_index = record {
  cfg = record { distribution = uniform (pos 0) (pos 10); obfuscation_strategy = no_obfuscation };
  name = "i_price_range";
  indexed_column = "i_price";
  index_column_name = "i_price_bucket";
}

abbrev price : ColumnWithCast
price = record {
  column = record { relation = none; name = "i_price" };
  cast_to = none;
  or_null = false;
}

abbrev int : ℕ → ScalarValue
int n = number int64 (some (pos n)) 0

-- The price of the row is 12, so its bucket is 1.
abbrev compare_price : EqualityOperator → ScalarValue → Truth
compare_price op (number t (some v) a) = compare_int (some (pos 12)) op v
compare_price op _ = unknown

abbrev item : Row ℕ
item = record {
  compares = λ c op v. compare_price op v;
  lies_between = λ c v w. and₃ (compare_price gt_eq v) (compare_price lt_eq w);
  is_in = λ c vs. unknown;
  is_like = λ c p. unknown;
  matches = λ cs s. unknown;
  satisfies = λ n. fails;
}

abbrev stored : String → Option SqlValue
stored name = if str_eq name "i_price_bucket" then some (SqlValue.number 1) else none

indexed : IsIndexedRow price_index (pos 0) 9 item stored int64 (pos 12)
unfolding program
indexed = record {
  is_uniform = refl;
  is_supported_type = λ v. refl;
  fits = record { no_overflow = omega arith; no_truncation = omega arith };
  bucket_of_row = 1;
  written = refl;
  read = refl;
}

placed : (v : ℕ) → v < 2 ^ 32 → IsPlaced price_index (pos 0) 9 item int64 (pos 12) price 0 (pos v)
placed v small = record {
  same_column = refl;
  is_integer = record { compares_def = λ op w. refl; between_def = λ w z. refl };
  fits = record { no_overflow = omega arith; no_truncation = omega arith };
}

-- price >= 11 AND price BETWEEN 3 AND 19
abbrev query : IndexableFilterExpr ℕ
query = and (equality price gt_eq (int 11)) (between price (int 3) (int 19))

indexable_query_to_expr_sound_example :
    (sql : SqlExpr) × (indexable_query_to_expr price_index query "item" ≡ returns sql)
    × (eval item query ≡ holds → eval_sql stored sql ≡ holds)
indexable_query_to_expr_sound_example =
    indexable_query_to_expr_sound price_index (pos 0) 9 item stored int64 (pos 12) indexed "item" (
      conjunction (bound price gt_eq 0 (pos 11) (placed 11 (omega arith)) refl)
        (interval price 0 (pos 3) (pos 19) (placed 3 (omega arith)) (placed 19 (omega arith))))

-- 12 is less than 15, and both are in the bucket 1.
indexable_query_to_expr-strict_loses_example :
    (sql : SqlExpr) × (indexable_query_to_expr {E = ℕ} price_index
        (equality price lt (int 15))
        "item"
      ≡ returns sql)
    × (eval_sql stored sql ≡ fails)
indexable_query_to_expr-strict_loses_example =
    indexable_query_to_expr-strict_loses price_index (pos 0) 9 item stored int64 (pos 12) indexed
      "item" price lt 0 (pos 15) (placed 15 (omega arith)) refl refl refl

value_to_indexable-bucket_example :
    distribution_value_to_indexable (uniform (pos 5) (pos 10)) (pos 37) ≡ returns 3
value_to_indexable-bucket_example =
    value_to_indexable-bucket (pos 5) 9 (pos 37)
      (record { no_overflow = omega arith; no_truncation = omega arith })

value_to_indexable_wraps_example :
    (b : ℕ) × (distribution_value_to_indexable (uniform (pos 0) (pos 10)) (pos 37) ≡ returns b)
    × (pos 37 <ℤ pos (2 ^ 32 * 10))
    × (distribution_value_to_indexable (uniform (pos 0) (pos 10)) (pos (2 ^ 32 * 10)) ≡ returns 0)
    × (0 < b)
value_to_indexable_wraps_example =
    value_to_indexable_wraps (pos 0) 9 (pos 37) (pos (2 ^ 32 * 10))
      (record { no_overflow = omega arith; no_truncation = omega arith }) (omega arith) refl
      (omega arith)

abbrev no_estimates : RangeEstimates ℕ
no_estimates = record {
  buckets_selectivity = λ stats column n. none;
  bucket_selectivity = λ stats column. none;
  absent = 0;
}

abbrev counts : Estimates ℕ
counts = record { min = λ a b. a; add = λ a b. a + b; sub = λ a b. a - b }

abbrev statistics : TableStatistics ℕ
statistics = record {
  update_signal = false;
  table_reference = "item";
  last_update = 0;
  num_rows = 100;
  indexing_columns = [];
}

abbrev all_different : Comparisons
all_different = record {
  same_column = λ c d. false;
  same_scalar = λ v w. false;
  float_gt = λ v w. false;
}

-- NOT price >= 11
logical_query-not_fails_example :
    ((split {E = ℕ} counts
        (logical_support_options price_index none no_estimates)
        statistics
        (not (equality price gt_eq (int 11)))).supported
      ≡ some (not (equality price gt_eq (int 11))))
    × (logical_query {E = ℕ} price_index all_different "item" (not (equality price gt_eq (int 11)))
        ≡ plan_error)
unfolding program
logical_query-not_fails_example =
    logical_query-not_fails {E = ℕ} price_index counts no_estimates none statistics all_different
      "item" (equality price gt_eq (int 11)) 0 refl
