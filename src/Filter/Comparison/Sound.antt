-- ===== src/Filter/Comparison/Sound.antt =====
-- Every row that a filter keeps is kept by `optimize_cmp` of it.
use secure_fusion.Prelude.{Bool, true, some, ◌≡◌, ◌∙◌, ap, ap₂, inl, inr, Option-cases, arith}
use secure_fusion.Scalar.{ScalarValue, scalar_min}
use secure_fusion.Truth.{holds, and₃, or₃, and₃-eq-holds, or₃-eq-holds, or₃_comm}
use secure_fusion.Filter.{
  EqualityOperator, gt, lt, lt_eq, gt_eq, ColumnWithCast, IndexableFilterExpr, and, or, equality,
}
use secure_fusion.Filter.Meaning.{Row, eval}
use secure_fusion.Filter.Comparison.{
  Comparisons, is_less, is_greater, merge_by, merge_orders, merge_bounds, optimize_cmp,
}

-- SQL's comparisons at one row: BETWEEN is a conjunction, and a strict bound implies the other.
pub record IsSqlRow {ℓ} {E : Type ℓ} (row : Row E) : Type ℓ where
  pub between_def :
      (c : ColumnWithCast) (low high : ScalarValue)
      → row.lies_between c low high ≡ and₃ (row.compares c gt_eq low) (row.compares c lt_eq high)
  pub lt_lt_eq :
      (c : ColumnWithCast) (v : ScalarValue)
      → row.compares c lt v ≡ holds
      → row.compares c lt_eq v ≡ holds
  pub gt_gt_eq :
      (c : ColumnWithCast) (v : ScalarValue)
      → row.compares c gt v ≡ holds
      → row.compares c gt_eq v ≡ holds

-- `==` of two columns answers true only for equal columns.
abbrev pub IsSound : Comparisons → Type 0
IsSound cmp = (c c' : ColumnWithCast) → cmp.same_column c c' ≡ true → c ≡ c'

module _ {ℓ} {E : Type ℓ} (cmp : Comparisons) (row : Row E) (sql : IsSqlRow row) where
  at_most :
      (c : ColumnWithCast) (op : EqualityOperator) (v : ScalarValue)
      → is_less op ≡ true
      → row.compares c op v ≡ holds
      → row.compares c lt_eq v ≡ holds
  at_most c lt v h k = sql.lt_lt_eq c v k
  at_most c lt_eq v h k = k
  at_most c _ v h k = cc

  at_least :
      (c : ColumnWithCast) (op : EqualityOperator) (v : ScalarValue)
      → is_greater op ≡ true
      → row.compares c op v ≡ holds
      → row.compares c gt_eq v ≡ holds
  at_least c gt v h k = sql.gt_gt_eq c v k
  at_least c gt_eq v h k = k
  at_least c _ v h k = cc

  in_between :
      (c : ColumnWithCast) (op op' : EqualityOperator) (v v' : ScalarValue)
      → is_greater op ≡ true
      → is_less op' ≡ true
      → row.compares c op v ≡ holds
      → row.compares c op' v' ≡ holds
      → row.lies_between c v v' ≡ holds
  in_between c op op' v v' g l h h' =
      rw (sql.between_def c v v', at_least c op v g h, at_most c op' v' l h')

  merge_by_sound :
      (b : Bool) (c : ColumnWithCast) (op op' : EqualityOperator) (v v' : ScalarValue)
      → row.compares c op v ≡ holds
      → row.compares c op' v' ≡ holds
      → eval row (merge_by cmp b c op v c op' v') ≡ holds
  unfolding merge_by
  merge_by_sound b c op op' v v' h h' =
      ground (arith, in_between c op op' v v', in_between c op' op v' v)

  merge_orders_sound :
      (c : ColumnWithCast) (op op' : EqualityOperator) (v v' : ScalarValue)
      → row.compares c op v ≡ holds
      → row.compares c op' v' ≡ holds
      → eval row (merge_orders cmp c op v c op' v') ≡ holds
  unfolding merge_orders
  merge_orders_sound c op op' v v' h h' = elim (Option-cases (scalar_min cmp.float_gt v v')) [
    | inl none_smaller ↦ rw (none_smaller, merge_orders) (rw (h, h'))
    | inr (m, smaller) ↦
        rw (smaller, merge_orders) (merge_by_sound (cmp.same_scalar m v) c op op' v v' h h')
  ]

  module _ (sound : IsSound cmp) where
    merge_bounds_sound :
        (l r f : IndexableFilterExpr E)
        → merge_bounds cmp l r ≡ some f
        → eval row l ≡ holds
        → eval row r ≡ holds
        → eval row f ≡ holds
    unfolding merge_bounds
    merge_bounds_sound (equality c op v) (equality c' op' v') f e hl hr =
        ground (arith, sound c c', merge_orders_sound c op op' v v')
    merge_bounds_sound l r f e hl hr = cc

    -- A row that meets a filter meets the optimised filter, where the row's comparisons are those of
    -- SQL and columns that compare as equal are equal.
    pub optimize_cmp_sound :
        (f : IndexableFilterExpr E) → eval row f ≡ holds → eval row (optimize_cmp cmp f) ≡ holds
    unfolding optimize_cmp
    optimize_cmp_sound (and l r) h =
        let (hl, hr) = and₃-eq-holds (eval row l) (eval row r) h in
        elim (Option-cases (merge_bounds cmp l r)) [
          | inl apart ↦
              rw (apart, optimize_cmp)
                (ap₂ and₃ (optimize_cmp_sound l hl) (optimize_cmp_sound r hr))
          | inr (f, merged) ↦ rw (merged, optimize_cmp) (merge_bounds_sound l r f merged hl hr)
        ]
    optimize_cmp_sound (or l r) h = elim (or₃-eq-holds (eval row l) (eval row r) h) [
      | inl hl ↦ ap (λ t. or₃ t (eval row (optimize_cmp cmp r))) (optimize_cmp_sound l hl)
      | inr hr ↦
          or₃_comm (eval row (optimize_cmp cmp l)) (eval row (optimize_cmp cmp r))
          ∙ ap (λ t. or₃ t (eval row (optimize_cmp cmp l))) (optimize_cmp_sound r hr)
    ]
    optimize_cmp_sound f h = h
