-- ===== src/Filter/Comparison/Bounds.antt =====
-- What `optimize_cmp` makes of two bounds on an integer column.
use secure_fusion.Prelude.{
  ℕ, Bool, true, Option, none, some, ◌≡◌, ◌∙◌, ◌&&◌, ◌||◌, if◌then◌else◌, Bool-cases, inl, inr,
  arith,
}
use secure_fusion.Prelude.Int.{ℤ, ltb_ℤ, leb_ℤ}
use secure_fusion.Scalar.{NumericType, ScalarValue, number, scalar_min}
use secure_fusion.Truth.{Truth, holds, fails, unknown, and₃}
use secure_fusion.Filter.{EqualityOperator, eq, gt, lt, lt_eq, gt_eq, ColumnWithCast, and, equality}
use secure_fusion.Filter.Meaning.{Row, eval}
use secure_fusion.Filter.Comparison.{
  Comparisons, is_less, is_greater, merge_by, merge_orders, merge_bounds, optimize_cmp,
}

-- SQL's comparison of an integer column, NULL or not, with a literal.
abbrev pub compare_int : Option ℤ → EqualityOperator → ℤ → Truth
compare_int none op v = unknown
compare_int (some x) eq v = if leb_ℤ x v && leb_ℤ v x then holds else fails
compare_int (some x) gt v = if ltb_ℤ v x then holds else fails
compare_int (some x) lt v = if ltb_ℤ x v then holds else fails
compare_int (some x) lt_eq v = if leb_ℤ x v then holds else fails
compare_int (some x) gt_eq v = if leb_ℤ v x then holds else fails

-- The operator without its strictness.
abbrev pub relax : EqualityOperator → EqualityOperator
relax gt = gt_eq
relax lt = lt_eq
relax op = op

-- The row holds `x` in the column, of the integer type `t`.
pub record IsInteger {ℓ} {E : Type ℓ} (row : Row E) (c : ColumnWithCast) (t : NumericType) (a : ℕ)
    (x : Option ℤ) : Type ℓ where
  pub compares_def :
      (op : EqualityOperator) (v : ℤ) → row.compares c op (number t (some v) a) ≡ compare_int x op v
  pub between_def :
      (v w : ℤ)
      → row.lies_between c (number t (some v) a) (number t (some w) a)
        ≡ and₃ (compare_int x gt_eq v) (compare_int x lt_eq w)

-- `==` of two integers of one type.
abbrev pub IsIntegerEquality : Comparisons → Type 0
IsIntegerEquality cmp =
    (t : NumericType) (a : ℕ) (v w : ℤ)
    → cmp.same_scalar (number t (some v) a) (number t (some w) a) ≡ (leb_ℤ v w && leb_ℤ w v)

module _ {ℓ} {E : Type ℓ} (cmp : Comparisons) (row : Row E) (c : ColumnWithCast) (t : NumericType)
    (a : ℕ) (x : Option ℤ) (holds_x : IsInteger row c t a x) where
  merge_by_bounds :
      (b : Bool) (op op' : EqualityOperator) (v v' : ℤ)
      → b ≡ leb_ℤ v v'
      → (is_less op || is_greater op) ≡ true
      → (is_less op' || is_greater op') ≡ true
      → eval row (merge_by cmp b c op (number t (some v) a) c op' (number t (some v') a)) ≡ holds
      → (compare_int x (relax op) v ≡ holds) × (compare_int x (relax op') v' ≡ holds)
  unfolding merge_by
  merge_by_bounds b eq op' v v' e p p' h = cc
  merge_by_bounds b lt eq v v' e p p' h = cc
  merge_by_bounds b lt_eq eq v v' e p p' h = cc
  merge_by_bounds b gt eq v v' e p p' h = cc
  merge_by_bounds b gt_eq eq v v' e p p' h = cc
  merge_by_bounds b op op' v v' e p p' h = ground (
    arith,
    holds_x.compares_def op v,
    holds_x.compares_def op' v,
    holds_x.compares_def op v',
    holds_x.compares_def op' v',
    holds_x.between_def v v',
    holds_x.between_def v' v,
  )

  merge_orders_bounds :
      (op op' : EqualityOperator) (v v' : ℤ)
      → IsIntegerEquality cmp
      → (is_less op || is_greater op) ≡ true
      → (is_less op' || is_greater op') ≡ true
      → eval row (merge_orders cmp c op (number t (some v) a) c op' (number t (some v') a)) ≡ holds
      → (compare_int x (relax op) v ≡ holds) × (compare_int x (relax op') v' ≡ holds)
  unfolding merge_orders scalar_min
  merge_orders_bounds op op' v v' same p p' h = elim (Bool-cases (ltb_ℤ v' v)) [
    | inl e ↦
        merge_by_bounds (cmp.same_scalar (number t (some v') a) (number t (some v) a)) op op' v v'
          (same t a v' v ∙ ground arith) p p' (ground arith)
    | inr e ↦
        merge_by_bounds (cmp.same_scalar (number t (some v) a) (number t (some v) a)) op op' v v'
          (same t a v v ∙ ground arith) p p' (ground arith)
  ]

  merge_bounds_of_bounds :
      (op op' : EqualityOperator) (v v' : ScalarValue)
      → cmp.same_column c c ≡ true
      → (is_less op || is_greater op) ≡ true
      → (is_less op' || is_greater op') ≡ true
      → merge_bounds {E = E} cmp (equality c op v) (equality c op' v')
        ≡ some (merge_orders cmp c op v c op' v')
  unfolding merge_bounds
  merge_bounds_of_bounds op op' v v' one p p' = ground arith

  -- Of two bounds on an integer column, with integer literals of one type with the same attributes,
  -- `optimize_cmp` keeps only rows that meet both, apart from the end points: a row that it keeps
  -- meets both bounds with <= and >= in place of < and >.
  pub optimize_cmp_bounds :
      (op op' : EqualityOperator) (v v' : ℤ)
      → IsIntegerEquality cmp
      → cmp.same_column c c ≡ true
      → (is_less op || is_greater op) ≡ true
      → (is_less op' || is_greater op') ≡ true
      → eval row (
          optimize_cmp cmp
            (and (equality c op (number t (some v) a)) (equality c op' (number t (some v') a))))
        ≡ holds
      → (row.compares c (relax op) (number t (some v) a) ≡ holds)
        × (row.compares c (relax op') (number t (some v') a) ≡ holds)
  unfolding optimize_cmp
  optimize_cmp_bounds op op' v v' same one p p' h =
      let (q, q') = merge_orders_bounds op op' v v' same p p' (merged h) in
      (holds_x.compares_def (relax op) v ∙ q, holds_x.compares_def (relax op') v' ∙ q')
    where
      merged :
          eval row (
              optimize_cmp cmp
                (and (equality c op (number t (some v) a)) (equality c op' (number t (some v') a))))
            ≡ holds
          → eval row (merge_orders cmp c op (number t (some v) a) c op' (number t (some v') a))
            ≡ holds
      merged k =
          rw
            (
              merge_bounds_of_bounds op op' (number t (some v) a) (number t (some v') a) one p p',
              optimize_cmp,
            )
            at k
