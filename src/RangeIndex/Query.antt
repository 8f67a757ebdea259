-- ===== src/RangeIndex/Query.antt =====
-- The filters on the buckets of a range index, against the filters on the values.
use secure_fusion.Prelude.{
  ℕ, suc, zero, ◌+◌, ◌/◌, ◌^◌, ◌≤◌, ◌<◌, ◌≡◌, refl, ap, ap₂, sym, ◌∙◌, ◌&&◌, if◌then◌else◌, String,
  Bool, true, false, Option, none, some, ◌⊎◌, inl, inr, Bool-cases, ◌==◌, arith,
}
use text.Mathlib.Text.{◌==◌ as str_eq}
use secure_fusion.Prelude.Int.{ℤ, pos, negsuc, ◌≤ℤ◌, ◌<ℤ◌, leb_ℤ, ltb_ℤ, distance}
use secure_fusion.Truth.{Truth, holds, fails, and₃, or₃, and₃-eq-holds, or₃-eq-holds, or₃_comm}
use secure_fusion.Scalar.{NumericType, decimal128, decimal256, uint64, int64, ScalarValue, number}
use secure_fusion.Run.{Run, returns, plan_error, ◌>>=◌, ok_or_plan_error}
use secure_fusion.Sql.{
  BinaryOperator as SqlOperator, SqlValue, SqlExpr, compound_identifier, value, binary_op,
  to_binary_operator, and_expr, or_expr, eval_sql, compare_values, compare_numbers,
}
use secure_fusion.Filter.{
  EqualityOperator, eq, gt, lt, lt_eq, gt_eq, ColumnWithCast, IndexableFilterExpr, and, or,
  equality, between,
}
use secure_fusion.Filter.Meaning.{Row, eval}
use secure_fusion.Filter.Comparison.Bounds.{compare_int, IsInteger}
use secure_fusion.RangeIndex.{
  RangeIndex, uniform, as_i64, halve, for_value, for_array_value, value_to_indexable,
  indexable_query_to_expr,
}
use secure_fusion.RangeIndex.Buckets.{bucket, Fits, value_to_indexable-bucket, bucket_mono}
pub mod Sound

-- The integer that an index sees of a value of its type.
abbrev pub to_i64 : NumericType → ℤ → ℤ
to_i64 uint64 v = halve v
to_i64 _ v = v

abbrev pub IsSupportedType : NumericType → Type 0
IsSupportedType t = (v : ℤ) → as_i64 t v ≡ some (to_i64 t v)

halve_mono : (v w : ℤ) → v ≤ℤ w → halve v ≤ℤ halve w
halve_mono v w h = ground arith

to_i64_mono : (t : NumericType) (v w : ℤ) → v ≤ℤ w → to_i64 t v ≤ℤ to_i64 t w
to_i64_mono uint64 v w h = halve_mono v w h
to_i64_mono _ v w h = h

-- The operators other than < and >.
abbrev pub is_non_strict : EqualityOperator → Bool
is_non_strict gt = false
is_non_strict lt = false
is_non_strict _ = true

-- A range index over buckets of `k + 1` values from `min`, and a row with the value `x` of the type
-- `t` in the indexed column and the bucket that was stored for it beside.
pub record IsIndexedRow {ℓ} {E : Type ℓ} (index : RangeIndex) (min : ℤ) (k : ℕ) (row : Row E)
    (stored : String → Option SqlValue) (t : NumericType) (x : ℤ) : Type ℓ where
  pub is_uniform : index.cfg.distribution ≡ uniform min (pos (suc k))
  pub is_supported_type : IsSupportedType t
  pub fits : Fits min k (to_i64 t x)
  pub bucket_of_row : ℕ
  pub written : for_array_value index.cfg t (some x) ≡ returns (some bucket_of_row)
  pub read : stored index.index_column_name ≡ some (SqlValue.number bucket_of_row)

-- A comparison of the indexed column with a literal of the column's type that the index can place.
pub record IsPlaced {ℓ} {E : Type ℓ} (index : RangeIndex) (min : ℤ) (k : ℕ) (row : Row E)
    (t : NumericType) (x : ℤ) (c : ColumnWithCast) (attributes : ℕ) (v : ℤ) : Type ℓ where
  pub same_column : str_eq c.column.name index.indexed_column ≡ true
  pub is_integer : IsInteger row c t attributes (some x)
  pub fits : Fits min k (to_i64 t v)

equal_numbers : (m n : ℕ) → m ≤ n → n ≤ m → compare_numbers SqlOperator.eq m n ≡ holds
equal_numbers m n h h' = ground arith

ordered_numbers : (m n : ℕ) → m ≤ n → compare_numbers SqlOperator.lt_eq m n ≡ holds
ordered_numbers m n h = ground arith

both_true : (a b : Bool) → (a && b) ≡ true → (a ≡ true) × (b ≡ true)
both_true a b h = ground arith

module _ {ℓ} {E : Type ℓ} (index : RangeIndex) (min : ℤ) (k : ℕ) (row : Row E)
    (stored : String → Option SqlValue) (t : NumericType) (x : ℤ)
    (indexed : IsIndexedRow index min k row stored t x) (table : String) where
  for_value-bucket :
      (v : ℤ) (a : ℕ)
      → Fits min k (to_i64 t v)
      → for_value index (number t (some v) a) ≡ returns (some (bucket min k (to_i64 t v)))
  unfolding for_value value_to_indexable
  for_value-bucket v a fits =
      rw
        (
          indexed.is_supported_type v,
          indexed.is_uniform,
          value_to_indexable-bucket min k (to_i64 t v) fits,
        )
        refl

  for_array_value-bucket :
      for_array_value index.cfg t (some x) ≡ returns (some (bucket min k (to_i64 t x)))
  unfolding for_array_value value_to_indexable
  for_array_value-bucket =
      rw (indexed.is_supported_type x, for_array_value)
        (rw (indexed.is_uniform, value_to_indexable-bucket min k (to_i64 t x) indexed.fits) refl)

  read_bucket : stored index.index_column_name ≡ some (SqlValue.number (bucket min k (to_i64 t x)))
  read_bucket = cc (for_array_value-bucket, indexed.written, indexed.read)

  -- The SQL filter on the bucket that stands for a comparison with `v`.
  abbrev pub bucket_filter : EqualityOperator → ℤ → SqlExpr
  bucket_filter op v =
      binary_op (compound_identifier table index.index_column_name) (to_binary_operator op)
        (value (SqlValue.number (bucket min k (to_i64 t v))))

  abbrev pub bucket_between : ℤ → ℤ → SqlExpr
  bucket_between v w =
      SqlExpr.between (compound_identifier table index.index_column_name)
        (value (SqlValue.number (bucket min k (to_i64 t v))))
        (value (SqlValue.number (bucket min k (to_i64 t w))))

  pub indexable_query_to_expr-equality :
      (c : ColumnWithCast) (op : EqualityOperator) (a : ℕ) (v : ℤ)
      → IsPlaced index min k row t x c a v
      → indexable_query_to_expr {E = E} index (equality c op (number t (some v) a)) table
        ≡ returns (bucket_filter op v)
  unfolding indexable_query_to_expr
  indexable_query_to_expr-equality c op a v p = rw (p.same_column, for_value-bucket v a p.fits) refl

  pub indexable_query_to_expr-between :
      (c : ColumnWithCast) (a : ℕ) (v w : ℤ)
      → IsPlaced index min k row t x c a v
      → IsPlaced index min k row t x c a w
      → indexable_query_to_expr {E = E} index
          (between c (number t (some v) a) (number t (some w) a))
          table
        ≡ returns (bucket_between v w)
  unfolding indexable_query_to_expr
  indexable_query_to_expr-between c a v w p q =
      rw (p.same_column, for_value-bucket v a p.fits, for_value-bucket w a q.fits) refl

  bucket_le : (v w : ℤ) → leb_ℤ v w ≡ true → bucket min k (to_i64 t v) ≤ bucket min k (to_i64 t w)
  bucket_le v w h = bucket_mono min k (to_i64 t v) (to_i64 t w) (to_i64_mono t v w (ground arith))

  if_holds : (b : Bool) → (if b then holds else fails) ≡ holds → b ≡ true
  if_holds true h = refl
  if_holds false h = cc

  pub compare_numbers_sound :
      (op : EqualityOperator) (v : ℤ)
      → is_non_strict op ≡ true
      → compare_int (some x) op v ≡ holds
      → compare_numbers
          (to_binary_operator op)
          (bucket min k (to_i64 t x))
          (bucket min k (to_i64 t v))
        ≡ holds
  compare_numbers_sound eq v n h =
      let (below, above) = both_true (leb_ℤ x v) (leb_ℤ v x) (if_holds _ h) in
      equal_numbers _ _ (bucket_le x v below) (bucket_le v x above)
  compare_numbers_sound lt_eq v n h = ordered_numbers _ _ (bucket_le x v (if_holds _ h))
  compare_numbers_sound gt_eq v n h = ordered_numbers _ _ (bucket_le v x (if_holds _ h))
  compare_numbers_sound _ v n h = cc

  pub eval_sql-bucket_filter :
      (op : EqualityOperator) (v : ℤ)
      → eval_sql stored (bucket_filter op v)
        ≡ compare_numbers
            (to_binary_operator op)
            (bucket min k (to_i64 t x))
            (bucket min k (to_i64 t v))
  eval_sql-bucket_filter eq v = rw read_bucket
  eval_sql-bucket_filter _ v = rw read_bucket

  pub eval_sql-bucket_between :
      (v w : ℤ)
      → compare_int (some x) gt_eq v ≡ holds
      → compare_int (some x) lt_eq w ≡ holds
      → eval_sql stored (bucket_between v w) ≡ holds
  eval_sql-bucket_between v w h h' =
      rw read_bucket
        (ap₂ and₃ (compare_numbers_sound gt_eq v refl h) (compare_numbers_sound lt_eq w refl h'))
