-- ===== src/Filter.antt =====
-- The filters that a table scan tries to hand to the database server:
-- `IndexableFilterExpr` of backends/mysql/src/filtering/indexable_filter.rs.
use secure_fusion.Prelude.{ℕ, String, Bool, Option, List}
use secure_fusion.Scalar.{ScalarValue}
pub mod Meaning
pub mod Split
pub mod Negation
pub mod Comparison

pub data EqualityOperator : Type 0 where
  eq gt lt lt_eq gt_eq : EqualityOperator

-- A column of DataFusion: the table that it belongs to, if it is named, and its name.
pub record Column : Type 0 where
  pub relation : Option String
  pub name : String

-- `cast_to` is an opaque number for an Arrow type.
pub record ColumnWithCast : Type 0 where
  pub column : Column
  pub cast_to : Option ℕ
  pub or_null : Bool

pub data ColumnOrTuple : Type 0 where
  column : ColumnWithCast → ColumnOrTuple
  tuple : List ColumnWithCast → ColumnOrTuple

pub data IndexableFilterExpr {ℓ} (E : Type ℓ) : Type ℓ where
  and or : IndexableFilterExpr E → IndexableFilterExpr E → IndexableFilterExpr E
  not : IndexableFilterExpr E → IndexableFilterExpr E
  equality : ColumnWithCast → EqualityOperator → ScalarValue → IndexableFilterExpr E
  between : ColumnWithCast → ScalarValue → ScalarValue → IndexableFilterExpr E
  in_list : ColumnOrTuple → List ScalarValue → IndexableFilterExpr E
  kw_search_like : ColumnWithCast → String → IndexableFilterExpr E
  kw_match : List Column → String → IndexableFilterExpr E
  other : E → IndexableFilterExpr E
