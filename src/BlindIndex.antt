-- ===== src/BlindIndex.antt =====
-- The blind index of backends/mysql/src/metadata/blind_index.rs: a column of opaque identifiers beside
-- the encrypted column, and the rewriting of equalities into equalities of identifiers.
use secure_fusion.Prelude.{
  ℕ, String, Bool, true, false, Option, none, some, List, map, if◌then◌else◌,
}
use text.Mathlib.Text.{◌==◌ as str_eq}
use secure_fusion.Prelude.Sets.{Bytes}
use secure_fusion.Scalar.{ScalarValue}
use secure_fusion.Run.{Run, returns, plan_error, ◌>>=◌}
use secure_fusion.Sql.{
  BinaryOperator as SqlOperator, SqlValue, SqlExpr, compound_identifier, value, binary_op, and_expr,
  or_expr,
}
use secure_fusion.Statistics.{TableStatistics}
use secure_fusion.Filter.{
  EqualityOperator, eq, ColumnWithCast, ColumnOrTuple, column, IndexableFilterExpr, and, or,
  equality, in_list,
}
use secure_fusion.Filter.Split.{SupportOptions}
pub mod Query

pub record BlindIndex : Type 0 where
  pub name : String
  pub indexed_column : String
  pub size_bits : ℕ
  pub index_column_name : String

-- `identifier` is `get_opaque_stable_identifier_hex` under the key of the index, `to_string` is
-- `scalar_value.to_string().into_bytes()`, by DataFusion's `Display`.
abbrev pub value_to_blind_value :
    (Bytes → ℕ → String) → (ScalarValue → Bytes) → (size_bits : ℕ) → ScalarValue → SqlValue
value_to_blind_value identifier to_string size_bits v =
    SqlValue.single_quoted_string (identifier (to_string v) size_bits)

-- `BlindIndexExpr::for_array` on one value, as bytes.
unfoldable pub for_value : (Bytes → ℕ → String) → (size_bits : ℕ) → Option Bytes → Option String
for_value identifier size_bits none = none
for_value identifier size_bits (some v) = some (identifier v size_bits)

module _ {ℓ} {E : Type ℓ} (index : BlindIndex) where
  -- `BlindIndex::is_indexable_expr_supported`; `estimate` stands for the selectivity that it computes
  -- in floats.
  unfoldable pub is_indexable_expr_supported :
      {P : Type 0}
      → (TableStatistics P → String → ℕ → P)
      → IndexableFilterExpr E
      → TableStatistics P
      → Option P
  is_indexable_expr_supported estimate (equality c eq v) table_rows =
      if str_eq c.column.name index.indexed_column
      then some (estimate table_rows index.index_column_name index.size_bits)
      else none
  is_indexable_expr_supported estimate (in_list (column c) vs) table_rows =
      if str_eq c.column.name index.indexed_column
      then some (estimate table_rows index.index_column_name index.size_bits)
      else none
  is_indexable_expr_supported estimate f table_rows = none

  -- `BlindIndex::logical_support_options`, and the physical ones.
  unfoldable pub support_options :
      {P : Type 0} → (TableStatistics P → String → ℕ → P) → SupportOptions E P
  support_options estimate = record {
    supports_not = false;
    supports_or = true;
    is_supported = λ f stats. is_indexable_expr_supported estimate f stats;
  }

  -- `BlindIndex::indexable_query_to_expr`. The values of a list are a set, taken in a fixed order.
  unfoldable pub indexable_query_to_expr :
      (Bytes → ℕ → String) → (ScalarValue → Bytes) → IndexableFilterExpr E → String → Run SqlExpr
  indexable_query_to_expr identifier to_string (and l r) table = do
    left ← indexable_query_to_expr identifier to_string l table
    right ← indexable_query_to_expr identifier to_string r table
    returns (and_expr left right)
  indexable_query_to_expr identifier to_string (or l r) table = do
    left ← indexable_query_to_expr identifier to_string l table
    right ← indexable_query_to_expr identifier to_string r table
    returns (or_expr left right)
  indexable_query_to_expr identifier to_string (in_list (column col) values) table =
      if str_eq col.column.name index.indexed_column
      then returns (
          SqlExpr.in_list (compound_identifier table index.index_column_name)
            (map (value_to_blind_value identifier to_string index.size_bits) values))
      else plan_error
  indexable_query_to_expr identifier to_string (equality col eq v) table =
      if str_eq col.column.name index.indexed_column
      then returns (
          binary_op (compound_identifier table index.index_column_name) SqlOperator.eq
            (value (value_to_blind_value identifier to_string index.size_bits v)))
      else plan_error
  indexable_query_to_expr identifier to_string f table = plan_error
