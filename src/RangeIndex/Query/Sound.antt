-- ===== src/RangeIndex/Query/Sound.antt =====
-- Which rows the filters on the buckets keep and lose.
use secure_fusion.Prelude.{ℕ, ◌≡◌, refl, sym, ◌∙◌, String, true, false, Option, some, arith}
use secure_fusion.Prelude.Int.{ℤ}
use secure_fusion.Truth.{holds, fails, and₃-eq-holds, both_hold, one_holds}
use secure_fusion.Scalar.{NumericType, number}
use secure_fusion.Run.{returns}
use secure_fusion.Sql.{
  SqlValue, SqlExpr, to_binary_operator, and_expr, or_expr, eval_sql, compare_numbers,
}
use secure_fusion.Filter.{
  EqualityOperator, gt, lt, ColumnWithCast, IndexableFilterExpr, and, or, equality, between,
}
use secure_fusion.Filter.Meaning.{Row, eval}
use secure_fusion.RangeIndex.{RangeIndex, indexable_query_to_expr}
use secure_fusion.RangeIndex.Buckets.{bucket}
use secure_fusion.RangeIndex.Query.{
  to_i64, is_non_strict, IsIndexedRow, IsPlaced, bucket_filter, bucket_between,
  indexable_query_to_expr-equality, indexable_query_to_expr-between, compare_numbers_sound,
  eval_sql-bucket_filter, eval_sql-bucket_between,
}

-- The filters that the index can place, with no < and no >.
pub data IsPlacedFilter {ℓ} {E : Type ℓ} (index : RangeIndex) (min : ℤ) (k : ℕ) (row : Row E)
    (t : NumericType) (x : ℤ) : IndexableFilterExpr E → Type ℓ where
  conjunction :
      {l r : IndexableFilterExpr E}
      → IsPlacedFilter index min k row t x l
      → IsPlacedFilter index min k row t x r
      → IsPlacedFilter index min k row t x (and l r)
  disjunction :
      {l r : IndexableFilterExpr E}
      → IsPlacedFilter index min k row t x l
      → IsPlacedFilter index min k row t x r
      → IsPlacedFilter index min k row t x (or l r)
  bound :
      (c : ColumnWithCast) (op : EqualityOperator) (a : ℕ) (v : ℤ)
      → IsPlaced index min k row t x c a v
      → is_non_strict op ≡ true
      → IsPlacedFilter index min k row t x (equality c op (number t (some v) a))
  interval :
      (c : ColumnWithCast) (a : ℕ) (v w : ℤ)
      → IsPlaced index min k row t x c a v
      → IsPlaced index min k row t x c a w
      → IsPlacedFilter index min k row t x (between c (number t (some v) a) (number t (some w) a))

strict_fails :
    (op : EqualityOperator) (m n : ℕ)
    → is_non_strict op ≡ false
    → m ≡ n
    → compare_numbers (to_binary_operator op) m n ≡ fails
strict_fails lt m n h e = ground arith
strict_fails gt m n h e = ground arith
strict_fails _ m n h e = cc

module _ {ℓ} {E : Type ℓ} (index : RangeIndex) (min : ℤ) (k : ℕ) (row : Row E)
    (stored : String → Option SqlValue) (t : NumericType) (x : ℤ)
    (indexed : IsIndexedRow index min k row stored t x) (table : String) where
  -- A filter on an integer column, with literals of its type, no < and no >, becomes a filter on the
  -- bucket that keeps every row that the filter keeps. The index has uniform buckets of a positive
  -- size; the differences of the row's value and of the literals to its minimum overflow no i64, and
  -- their buckets no u32; the row's bucket was stored.
  pub indexable_query_to_expr_sound :
      {f : IndexableFilterExpr E}
      → IsPlacedFilter index min k row t x f
      → (sql : SqlExpr) × (indexable_query_to_expr index f table ≡ returns sql)
        × (eval row f ≡ holds → eval_sql stored sql ≡ holds)
  unfolding indexable_query_to_expr
  indexable_query_to_expr_sound (conjunction {l} {r} p q) =
      let (sql, e, keeps) = indexable_query_to_expr_sound p in
      let (sql', e', keeps') = indexable_query_to_expr_sound q in
      (and_expr sql sql', rw (e, e') refl, λ h. both_hold (eval row l) (eval row r) keeps keeps' h)
  indexable_query_to_expr_sound (disjunction {l} {r} p q) =
      let (sql, e, keeps) = indexable_query_to_expr_sound p in
      let (sql', e', keeps') = indexable_query_to_expr_sound q in
      (or_expr sql sql', rw (e, e') refl, λ h. one_holds (eval row l) (eval row r) keeps keeps' h)
  indexable_query_to_expr_sound (bound c op a v p n) = (
    bucket_filter index min k row stored t x indexed table op v,
    indexable_query_to_expr-equality index min k row stored t x indexed table c op a v p,
    λ h.
        eval_sql-bucket_filter index min k row stored t x indexed table op v
        ∙ compare_numbers_sound index min k row stored t x indexed table op v n
            (sym (p.is_integer.compares_def op v) ∙ h),
  )
  indexable_query_to_expr_sound (interval c a v w p q) = (
    bucket_between index min k row stored t x indexed table v w,
    indexable_query_to_expr-between index min k row stored t x indexed table c a v w p q,
    λ h.
        let (above, below) = and₃-eq-holds _ _ (sym (p.is_integer.between_def v w) ∙ h) in
        eval_sql-bucket_between index min k row stored t x indexed table v w above below,
  )

  -- A strict bound becomes a strict bound on the buckets: a row that meets it, and lies in the bucket
  -- of the literal, is excluded by the filter on its bucket.
  pub indexable_query_to_expr-strict_loses :
      (c : ColumnWithCast) (op : EqualityOperator) (a : ℕ) (v : ℤ)
      → IsPlaced index min k row t x c a v
      → is_non_strict op ≡ false
      → bucket min k (to_i64 t x) ≡ bucket min k (to_i64 t v)
      → eval row (equality c op (number t (some v) a)) ≡ holds
      → (sql : SqlExpr) × (indexable_query_to_expr {E = E} index
            (equality c op (number t (some v) a))
            table
          ≡ returns sql)
        × (eval_sql stored sql ≡ fails)
  indexable_query_to_expr-strict_loses c op a v p strict same h = (
    bucket_filter index min k row stored t x indexed table op v,
    indexable_query_to_expr-equality index min k row stored t x indexed table c op a v p,
    eval_sql-bucket_filter index min k row stored t x indexed table op v
        ∙ strict_fails op _ _ strict same,
  )
