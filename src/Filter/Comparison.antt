-- ===== src/Filter/Comparison.antt =====
-- `optimize_cmp` of backends/mysql/src/filtering/indexable_filter.rs: two bounds on one column
-- become one bound, or a BETWEEN.
use secure_fusion.Prelude.{
  ℕ, Bool, true, false, Option, none, some, ◌&&◌, ◌||◌, if◌then◌else◌, flip,
}
use secure_fusion.Scalar.{ScalarValue, scalar_min}
use secure_fusion.Filter.{
  EqualityOperator, eq, gt, lt, lt_eq, gt_eq, ColumnWithCast, IndexableFilterExpr, and, or,
  equality, between,
}
pub mod Sound
pub mod Bounds

-- The comparisons that the Rust types derive or take from DataFusion: `==` of columns and of
-- literals, and `>` of floats.
pub record Comparisons : Type 0 where
  pub same_column : ColumnWithCast → ColumnWithCast → Bool
  pub same_scalar : ScalarValue → ScalarValue → Bool
  pub float_gt : ℕ → ℕ → Bool

-- `EqualityOperator::inverse_order`.
unfoldable pub inverse_order : EqualityOperator → EqualityOperator
inverse_order eq = eq
inverse_order gt = lt
inverse_order lt = gt
inverse_order lt_eq = gt_eq
inverse_order gt_eq = lt_eq

abbrev pub is_less : EqualityOperator → Bool
is_less lt = true
is_less lt_eq = true
is_less _ = false

abbrev pub is_greater : EqualityOperator → Bool
is_greater gt = true
is_greater gt_eq = true
is_greater _ = false

module _ {ℓ} {E : Type ℓ} (cmp : Comparisons) where
  -- The match on the two operators, once the smaller value is known to be the left or the right one.
  unfoldable pub merge_by :
      Bool
      → ColumnWithCast
      → EqualityOperator
      → ScalarValue
      → ColumnWithCast
      → EqualityOperator
      → ScalarValue
      → IndexableFilterExpr E
  merge_by min_is_left c op v c' op' v' =
      if is_less op && is_less op'
      then equality c (if min_is_left then op else op') (if min_is_left then v else v')
      else if is_greater op && is_greater op'
      then equality c (if min_is_left then op' else op) (if min_is_left then v' else v)
      else if is_greater op && is_less op' && min_is_left
      then between c v v'
      else if is_less op && is_greater op' && flip min_is_left
      then between c v' v
      else and (equality c op v) (equality c' op' v')

  unfoldable pub merge_orders :
      ColumnWithCast
      → EqualityOperator
      → ScalarValue
      → ColumnWithCast
      → EqualityOperator
      → ScalarValue
      → IndexableFilterExpr E
  merge_orders c op v c' op' v' = elim (scalar_min cmp.float_gt v v') [
    | none ↦ and (equality c op v) (equality c' op' v')
    | some minimum ↦ merge_by (cmp.same_scalar minimum v) c op v c' op' v'
  ]

  -- `none` where the two filters are not bounds on one column.
  unfoldable pub merge_bounds :
      IndexableFilterExpr E → IndexableFilterExpr E → Option (IndexableFilterExpr E)
  merge_bounds (equality c op v) (equality c' op' v') =
      if (is_less op || is_greater op) && (is_less op' || is_greater op') && cmp.same_column c c'
      then some (merge_orders c op v c' op' v')
      else none
  merge_bounds l r = none

  unfoldable pub optimize_cmp : IndexableFilterExpr E → IndexableFilterExpr E
  optimize_cmp (and l r) = elim (merge_bounds l r) [
    | some merged ↦ merged
    | none ↦ and (optimize_cmp l) (optimize_cmp r)
  ]
  optimize_cmp (or l r) = or (optimize_cmp l) (optimize_cmp r)
  optimize_cmp f = f
