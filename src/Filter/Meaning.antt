-- ===== src/Filter/Meaning.antt =====
-- What a filter says of a row. The values of the comparisons at the row are given, since the
-- database or DataFusion computes them; the connectives are SQL's.
use secure_fusion.Prelude.{String, Option, none, some, List}
use secure_fusion.Scalar.{ScalarValue}
use secure_fusion.Truth.{Truth, holds, and₃, or₃, not₃}
use secure_fusion.Filter.{
  EqualityOperator, Column, ColumnWithCast, ColumnOrTuple, IndexableFilterExpr, and, or, not,
  equality, between, in_list, kw_search_like, kw_match, other,
}

-- The truth of each kind of comparison at one row.
pub record Row {ℓ} (E : Type ℓ) : Type ℓ where
  pub compares : ColumnWithCast → EqualityOperator → ScalarValue → Truth
  pub lies_between : ColumnWithCast → ScalarValue → ScalarValue → Truth
  pub is_in : ColumnOrTuple → List ScalarValue → Truth
  pub is_like : ColumnWithCast → String → Truth
  pub matches : List Column → String → Truth
  pub satisfies : E → Truth

module _ {ℓ} {E : Type ℓ} (row : Row E) where
  abbrev pub eval : IndexableFilterExpr E → Truth
  eval (and l r) = and₃ (eval l) (eval r)
  eval (or l r) = or₃ (eval l) (eval r)
  eval (not e) = not₃ (eval e)
  eval (equality c op v) = row.compares c op v
  eval (between c low high) = row.lies_between c low high
  eval (in_list c vs) = row.is_in c vs
  eval (kw_search_like c p) = row.is_like c p
  eval (kw_match cs s) = row.matches cs s
  eval (other e) = row.satisfies e

  -- A filter that is not there excludes no row.
  abbrev pub eval_opt : Option (IndexableFilterExpr E) → Truth
  eval_opt none = holds
  eval_opt (some f) = eval f
