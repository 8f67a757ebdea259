-- ===== src/RangeIndex.antt =====
-- The range index of backends/mysql/src/metadata/indices/range_queries.rs: a column of bucket numbers
-- beside the encrypted column, and the rewriting of range filters into filters on the buckets.
use secure_fusion.Prelude.{
  ℕ, suc, zero, ◌+◌, ◌-◌, ◌/◌, ◌%◌, ◌^◌, String, Bool, true, false, Option, none, some, ◌&&◌, ltb,
  leb, if◌then◌else◌,
}
use mathlib.Core.Option
use text.Mathlib.Text.{◌==◌ as str_eq}
use secure_fusion.Prelude.Int.{ℤ, pos, negsuc, leb_ℤ, distance}
use secure_fusion.Scalar.{
  NumericType, decimal32, decimal64, decimal128, decimal256, uint64, ScalarValue, number, float,
  utf8, opaque,
}
use secure_fusion.Run.{exec_error, Run, returns, plan_error, panics, ◌>>=◌, ok_or_plan_error}
use secure_fusion.Sql.{
  SqlValue, SqlExpr, compound_identifier, value, binary_op, to_binary_operator, and_expr, or_expr,
}
use secure_fusion.Statistics.{TableStatistics}
use secure_fusion.Filter.{
  EqualityOperator, eq, ColumnWithCast, IndexableFilterExpr, and, or, equality, between,
}
pub mod Buckets
pub mod Query
pub mod Planning

pub data ValueDistribution : Type 0 where
  uniform : (min interval : ℤ) → ValueDistribution

pub data ObfuscationStrategy : Type 0 where
  no_obfuscation : ObfuscationStrategy

pub record RangeIndexValues : Type 0 where
  pub distribution : ValueDistribution
  pub obfuscation_strategy : ObfuscationStrategy

pub record RangeIndex : Type 0 where
  pub cfg : RangeIndexValues
  pub name : String
  pub indexed_column : String
  pub index_column_name : String

-- `source_value - min` of two i64 with min < source_value, given the true difference: it wraps.
abbrev pub wrap_i64 : ℕ → ℤ
wrap_i64 d = if ltb d (2 ^ 63) then pos d else negsuc (2 ^ 64 - d - 1)

abbrev pub negate : ℕ → ℤ
negate zero = pos zero
negate (suc m) = negsuc m

-- `a / b` on i64, rounded towards zero. It panics for b = 0 and for the smallest i64 over -1.
unfoldable pub div_i64 : ℤ → ℤ → Run ℤ
div_i64 a (pos zero) = panics
div_i64 (pos n) (pos (suc k)) = returns (pos (n / suc k))
div_i64 (negsuc n) (pos (suc k)) = returns (negate (suc n / suc k))
div_i64 (pos n) (negsuc k) = returns (negate (n / suc k))
div_i64 (negsuc n) (negsuc k) =
    if leb (2 ^ 63) (suc n / suc k) then panics else returns (pos (suc n / suc k))

-- `x as u32`: the low 32 bits.
abbrev pub as_u32 : ℤ → ℕ
as_u32 (pos n) = n % 2 ^ 32
as_u32 (negsuc n) = 2 ^ 32 - 1 - n % 2 ^ 32

-- `ValueDistribution::value_to_indexable`.
unfoldable pub distribution_value_to_indexable : ValueDistribution → ℤ → Run ℕ
distribution_value_to_indexable (uniform min interval) source_value =
    if leb_ℤ source_value min then returns 0 else do
      quotient ← div_i64 (wrap_i64 (distance source_value min)) interval
      returns (as_u32 quotient)

-- `RangeIndexValues::value_to_indexable`.
unfoldable pub value_to_indexable : RangeIndexValues → ℤ → Run ℕ
value_to_indexable cfg source_value = distribution_value_to_indexable cfg.distribution source_value

-- `(v >> 1) as i64` of a u64.
abbrev pub halve : ℤ → ℤ
halve (pos n) = pos (n / 2)
halve (negsuc n) = negsuc n

-- The i64 that stands for an integer of the type: in `for_value`, and in `for_array` by the same
-- conversions. `none` where the type is not supported.
unfoldable pub as_i64 : NumericType → ℤ → Option ℤ
as_i64 decimal128 v = none
as_i64 decimal256 v = none
as_i64 uint64 v = some (halve v)
as_i64 _ v = some v

-- `.map(|v| self.cfg.value_to_indexable(v))` on an Option.
abbrev pub map_indexable : RangeIndexValues → Option ℤ → Run (Option ℕ)
map_indexable cfg none = returns none
map_indexable cfg (some v) = do bucket ← value_to_indexable cfg v; returns (some bucket)

abbrev bind_i64 : NumericType → Option ℤ → Option ℤ
bind_i64 t none = none
bind_i64 t (some v) = as_i64 t v

-- `RangeIndex::for_value`: the bucket of a literal.
unfoldable pub for_value : RangeIndex → ScalarValue → Run (Option ℕ)
for_value index (number t v attributes) = map_indexable index.cfg (bind_i64 t v)
for_value index _ = returns none

-- `range_eval_array!` on one value, once it is an i64.
abbrev pub range_eval : RangeIndexValues → Option ℤ → Run (Option ℕ)
range_eval cfg none = returns none
range_eval cfg (some transformed) = do
  bucket ← value_to_indexable cfg transformed
  returns (some bucket)

-- One value of `RangeIndexExpr::for_array`: the bucket that is stored beside a value of the column.
-- A type that is not supported is an error.
unfoldable pub for_array_value : RangeIndexValues → NumericType → Option ℤ → Run (Option ℕ)
for_array_value cfg t none = elim (as_i64 t (pos 0)) [
  | none ↦ exec_error
  | some i ↦ range_eval cfg none
]
for_array_value cfg t (some v) = elim (as_i64 t v) [
  | none ↦ exec_error
  | some i ↦ range_eval cfg (some i)
]

-- The estimates of `is_indexable_expr_supported`, which it computes in floats from the statistics:
-- for a number of buckets, for one bucket, and `Precision::Absent`. `none` where the column has no
-- statistics.
pub record RangeEstimates (P : Type 0) : Type 0 where
  pub buckets_selectivity : TableStatistics P → String → ℕ → Option P
  pub bucket_selectivity : TableStatistics P → String → Option P
  pub absent : P

-- `high - low` on u32.
abbrev pub sub_u32 : ℕ → ℕ → ℕ
sub_u32 high low = (high + 2 ^ 32 - low) % 2 ^ 32

abbrev or_absent {ℓ} : {P : Type ℓ} → P → Option P → P
or_absent absent none = absent
or_absent absent (some p) = p

-- The rest of `is_indexable_expr_supported`, once the bucket of the (lower) literal is known.
unfoldable pub with_low :
    {P : Type 0}
    → RangeIndex
    → RangeEstimates P
    → TableStatistics P
    → ScalarValue
    → Option ℕ
    → Run (Option P)
with_low index estimates table_stats r none = returns none
with_low index estimates table_stats r (some low) = do
  high ← for_value index r
  returns (
      Option.map
        (λ h.
          or_absent estimates.absent
            (estimates.buckets_selectivity table_stats index.index_column_name (sub_u32 h low)))
        high)

abbrev pub is_eq : EqualityOperator → Bool
is_eq eq = true
is_eq _ = false

unfoldable pub one_supported :
    {P : Type 0}
    → RangeIndex
    → RangeEstimates P
    → TableStatistics P
    → EqualityOperator
    → Option ℕ
    → Option P
one_supported index estimates table_stats op none = none
one_supported index estimates table_stats op (some bucket) =
    if is_eq op
    then some (
        or_absent estimates.absent
          (estimates.bucket_selectivity table_stats index.index_column_name))
    else some estimates.absent

module _ {ℓ} {E : Type ℓ} (index : RangeIndex) where
  -- `RangeIndex::is_indexable_expr_supported`. All five operators are in the list of its pattern.
  unfoldable pub is_indexable_expr_supported :
      {P : Type 0} → RangeEstimates P → IndexableFilterExpr E → TableStatistics P → Run (Option P)
  is_indexable_expr_supported estimates (between c l r) table_stats =
      if str_eq c.column.name index.indexed_column
      then (do low ← for_value index l; with_low index estimates table_stats r low)
      else returns none
  is_indexable_expr_supported estimates (equality c op v) table_stats =
      if str_eq c.column.name index.indexed_column
      then (do
        bucket ← for_value index v
        returns (one_supported index estimates table_stats op bucket))
      else returns none
  is_indexable_expr_supported estimates f table_stats = returns none

  -- `RangeIndex::indexable_query_to_expr`.
  unfoldable pub indexable_query_to_expr : IndexableFilterExpr E → String → Run SqlExpr
  indexable_query_to_expr (and l r) table = do
    left ← indexable_query_to_expr l table
    right ← indexable_query_to_expr r table
    returns (and_expr left right)
  indexable_query_to_expr (or l r) table = do
    left ← indexable_query_to_expr l table
    right ← indexable_query_to_expr r table
    returns (or_expr left right)
  indexable_query_to_expr (between col low high) table =
      if str_eq col.column.name index.indexed_column
      then (do
        low_bucket ← for_value index low
        low_value ← ok_or_plan_error low_bucket
        high_bucket ← for_value index high
        high_value ← ok_or_plan_error high_bucket
        returns (
            SqlExpr.between (compound_identifier table index.index_column_name)
              (value (SqlValue.number low_value)) (value (SqlValue.number high_value))))
      else plan_error
  indexable_query_to_expr (equality col op v) table =
      if str_eq col.column.name index.indexed_column
      then (do
        bucket ← for_value index v
        bucket_value ← ok_or_plan_error bucket
        returns (
            binary_op (compound_identifier table index.index_column_name) (to_binary_operator op)
              (value (SqlValue.number bucket_value))))
      else plan_error
  indexable_query_to_expr f table = plan_error
