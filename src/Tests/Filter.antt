-- ===== src/Tests/Filter.antt =====
-- The filters of backends/mysql/src/filtering/indexable_filter.rs on concrete rows.
use secure_fusion.Prelude.{
  ℕ, ◌+◌, ◌-◌, ◌≡◌, refl, ap, String, Bool, true, false, Option, none, some, [], leb, if◌then◌else◌,
  ◌&&◌, ◌==◌, arith,
}
use text.Mathlib.Text.{◌==◌ as str_eq}
use text.Mathlib.TextEquality.{eq_iff}
use secure_fusion.Prelude.Int.{pos, leb_ℤ}
use secure_fusion.Scalar.{ScalarValue, number, int64, scalar_min}
use secure_fusion.Truth.{Truth, holds, fails, unknown, and₃}
use secure_fusion.Statistics.{Estimates, TableStatistics}
use secure_fusion.Filter.{
  EqualityOperator, eq, gt, lt, lt_eq, gt_eq, ColumnWithCast, IndexableFilterExpr, and, or, not,
  equality, between, other,
}
use secure_fusion.Filter.Meaning.{Row, eval, eval_opt}
use secure_fusion.Filter.Split.{SupportOptions, split, split_and, split_or, split_not}
use secure_fusion.Filter.Split.Exact.{eval_parts, is_separable, split_exact}
use secure_fusion.Filter.Split.Loss.{split-or_loses, split-not_loses}
use secure_fusion.Filter.Negation.{
  pushup_not, pushdown_not, is_pairable, eval-pushdown_not, eval-pushup_not, pushup_not-or_loses,
}
use secure_fusion.Filter.Comparison.{
  Comparisons, optimize_cmp, merge_bounds, merge_orders, merge_by,
}
use secure_fusion.Filter.Comparison.Sound.{IsSqlRow, IsSound, optimize_cmp_sound}
use secure_fusion.Filter.Comparison.Bounds.{compare_int, IsInteger, optimize_cmp_bounds}

abbrev row_counts : Estimates ℕ
row_counts = record {
  min = λ a b. if leb a b then a else b;
  add = λ a b. a + b;
  sub = λ a b. a - b;
}

abbrev statistics : TableStatistics ℕ
statistics = record {
  update_signal = false;
  table_reference = "item";
  last_update = 0;
  num_rows = 100;
  indexing_columns = [];
}

abbrev price : ColumnWithCast
price = record {
  column = record { relation = none; name = "i_price" };
  cast_to = none;
  or_null = false;
}

abbrev int : ℕ → ScalarValue
int n = number int64 (some (pos n)) 0

-- The price of the row is 12.
abbrev compare_price : EqualityOperator → ScalarValue → Truth
compare_price op (number t (some v) a) = compare_int (some (pos 12)) op v
compare_price op _ = unknown

-- `other n` holds where n is 1.
abbrev item : Row ℕ
item = record {
  compares = λ c op v. compare_price op v;
  lies_between = λ c v w. and₃ (compare_price gt_eq v) (compare_price lt_eq w);
  is_in = λ c vs. unknown;
  is_like = λ c p. unknown;
  matches = λ cs s. unknown;
  satisfies = λ n. if n == 1 then holds else fails;
}

abbrev supports_equality : IndexableFilterExpr ℕ → TableStatistics ℕ → Option ℕ
supports_equality (equality c eq v) stats = some 5
supports_equality _ stats = none

abbrev index : SupportOptions ℕ ℕ
index = record { supports_not = true; supports_or = true; is_supported = supports_equality }

program : Unit {0}
unfolding split split_and split_or split_not is_separable pushup_not pushdown_not is_pairable
    optimize_cmp merge_bounds merge_orders merge_by scalar_min
program = tt

-- price = 12 OR (price = 3 AND other)
abbrev mixed_or : IndexableFilterExpr ℕ
mixed_or = or (equality price eq (int 12)) (and (equality price eq (int 3)) (other 0))

split-mixed_or :
    (split row_counts index statistics mixed_or).supported
    ≡ some (or (equality price eq (int 12)) (equality price eq (int 3)))
unfolding program
split-mixed_or = refl

split_exact_example :
    eval_parts item (split row_counts index statistics mixed_or) ≡ eval item mixed_or
unfolding program
split_exact_example = split_exact row_counts statistics index item mixed_or refl

split-or_loses_example :
    (eval item (or (equality price eq (int 3)) (other 1)) ≡ holds)
    × (eval_opt item
          (split row_counts index statistics (or (equality price eq (int 3)) (other 1))).supported
        ≡ fails)
unfolding program
split-or_loses_example =
    split-or_loses row_counts statistics index item (equality price eq (int 3)) (other 1)
      (equality price eq (int 3)) (other 1) refl refl refl refl refl refl refl refl refl

split-not_loses_example :
    (eval item (not (and (equality price eq (int 12)) (other 0))) ≡ holds)
    × (eval_opt item
          (split row_counts index statistics
            (not (and (equality price eq (int 12)) (other 0)))).supported
        ≡ fails)
unfolding program
split-not_loses_example =
    split-not_loses row_counts statistics index item (and (equality price eq (int 12)) (other 0))
      (equality price eq (int 12)) (other 0) refl refl refl refl refl refl refl

eval-pushdown_not_example :
    eval item (pushdown_not (not (and (other 1) (not (other 0)))))
    ≡ eval item (not (and (other 1) (not (other 0))))
eval-pushdown_not_example = eval-pushdown_not item (not (and (other 1) (not (other 0))))

eval-pushup_not_example :
    eval item (pushup_not (or (not (other 1)) (not (other 0))))
    ≡ eval item (or (not (other 1)) (not (other 0)))
unfolding program
eval-pushup_not_example = eval-pushup_not item (or (not (other 1)) (not (other 0))) refl

pushup_not-or_loses_example :
    (eval item (or (other 1) (other 0)) ≡ holds)
    × (eval item (pushup_not (or (other 1) (other 0))) ≡ fails)
unfolding program
pushup_not-or_loses_example = pushup_not-or_loses item (other 1) (other 0) refl refl refl refl refl

abbrev same_int : ScalarValue → ScalarValue → Bool
same_int (number t (some v) a) (number t' (some w) a') = leb_ℤ v w && leb_ℤ w v
same_int v w = false

abbrev same_relation : Option String → Option String → Bool
same_relation none none = true
same_relation (some r) (some s) = str_eq r s
same_relation _ _ = false

abbrev same_cast : Option ℕ → Option ℕ → Bool
same_cast none none = true
same_cast (some m) (some n) = m == n
same_cast _ _ = false

abbrev same_flag : Bool → Bool → Bool
same_flag true true = true
same_flag false false = true
same_flag _ _ = false

same_relation_sound : (r s : Option String) → same_relation r s ≡ true → r ≡ s
same_relation_sound none none h = refl
same_relation_sound (some r) (some s) h = ap some ((eq_iff r s).0 h)
same_relation_sound none (some s) h = cc
same_relation_sound (some r) none h = cc

abbrev comparisons : Comparisons
comparisons = record {
  same_column = λ c c'.
      same_relation c.column.relation c'.column.relation
      && str_eq c.column.name c'.column.name
      && same_cast c.cast_to c'.cast_to
      && same_flag c.or_null c'.or_null;
  same_scalar = same_int;
  float_gt = λ v w. false;
}

comparisons-IsSound : IsSound comparisons
comparisons-IsSound c c' h = ground (
  arith,
  same_relation_sound c.column.relation c'.column.relation,
  eq_iff c.column.name c'.column.name,
)

item-IsSqlRow : IsSqlRow item
item-IsSqlRow = record { between_def = λ c v w. refl; lt_lt_eq = weaken_lt; gt_gt_eq = weaken_gt }
  where
    weaken_lt :
        (c : ColumnWithCast) (v : ScalarValue)
        → compare_price lt v ≡ holds
        → compare_price lt_eq v ≡ holds
    weaken_lt c (number t (some v) a) h = ground arith
    weaken_lt c _ h = cc

    weaken_gt :
        (c : ColumnWithCast) (v : ScalarValue)
        → compare_price gt v ≡ holds
        → compare_price gt_eq v ≡ holds
    weaken_gt c (number t (some v) a) h = ground arith
    weaken_gt c _ h = cc

-- 10 < price AND price < 20 becomes price BETWEEN 10 AND 20.
abbrev two_bounds : IndexableFilterExpr ℕ
two_bounds = and (equality price gt (int 10)) (equality price lt (int 20))

optimize_two_bounds : optimize_cmp comparisons two_bounds ≡ between price (int 10) (int 20)
unfolding program
optimize_two_bounds = refl

optimize_cmp_sound_example : eval item (optimize_cmp comparisons two_bounds) ≡ holds
unfolding program
optimize_cmp_sound_example =
    optimize_cmp_sound comparisons item item-IsSqlRow comparisons-IsSound two_bounds refl

item-IsInteger : IsInteger item price int64 0 (some (pos 12))
item-IsInteger = record { compares_def = λ op v. refl; between_def = λ v w. refl }

optimize_cmp_bounds_example :
    (item.compares price gt_eq (int 10) ≡ holds) × (item.compares price lt_eq (int 20) ≡ holds)
unfolding program
optimize_cmp_bounds_example =
    optimize_cmp_bounds comparisons item price int64 0 (some (pos 12)) item-IsInteger gt lt (pos 10)
      (pos 20) (λ t a v w. refl) refl refl refl refl
