-- ===== src/Scalar.antt =====
-- The literal values that a filter compares a column with: the part of DataFusion's `ScalarValue`
-- that backends/mysql/src reads, and the trait `ScalarOp` of
-- backends/mysql/src/filtering/indexable_filter.rs.
use secure_fusion.Prelude.{ℕ, String, Bool, Option, none, some, ◌==◌, if◌then◌else◌}
use secure_fusion.Prelude.Int.{ℤ, ltb_ℤ}

-- The variants that carry an integer, dates, times and decimals included.
pub data NumericType : Type 0 where
  decimal32 decimal64 decimal128 decimal256 : NumericType
  int8 int16 int32 int64 uint8 uint16 uint32 uint64 : NumericType
  date32 date64 : NumericType
  time32_second time32_millisecond time64_microsecond time64_nanosecond : NumericType
  timestamp_second timestamp_millisecond : NumericType
  timestamp_microsecond timestamp_nanosecond : NumericType

pub data FloatType : Type 0 where
  float16 float32 float64 : FloatType

-- `attributes` stands for a decimal's precision and scale or a timestamp's zone. A float is its bit
-- pattern, and `opaque` stands for every other variant.
pub data ScalarValue : Type 0 where
  number : NumericType → Option ℤ → (attributes : ℕ) → ScalarValue
  float : FloatType → Option ℕ → ScalarValue
  utf8 : Option String → ScalarValue
  opaque : ℕ → ScalarValue

-- Two variants are the same if their numbers are.
abbrev pub NumericType_tag : NumericType → ℕ
NumericType_tag decimal32 = 0
NumericType_tag decimal64 = 1
NumericType_tag decimal128 = 2
NumericType_tag decimal256 = 3
NumericType_tag int8 = 4
NumericType_tag int16 = 5
NumericType_tag int32 = 6
NumericType_tag int64 = 7
NumericType_tag uint8 = 8
NumericType_tag uint16 = 9
NumericType_tag uint32 = 10
NumericType_tag uint64 = 11
NumericType_tag date32 = 12
NumericType_tag date64 = 13
NumericType_tag time32_second = 14
NumericType_tag time32_millisecond = 15
NumericType_tag time64_microsecond = 16
NumericType_tag time64_nanosecond = 17
NumericType_tag timestamp_second = 18
NumericType_tag timestamp_millisecond = 19
NumericType_tag timestamp_microsecond = 20
NumericType_tag timestamp_nanosecond = 21

abbrev pub FloatType_tag : FloatType → ℕ
FloatType_tag float16 = 0
FloatType_tag float32 = 1
FloatType_tag float64 = 2

-- `ScalarOp::min`: the smaller of two values of one variant, the left one where neither is greater.
-- Precision, scale and zone are not looked at. `float_gt` is the comparison `>` of floats.
unfoldable pub scalar_min : (ℕ → ℕ → Bool) → ScalarValue → ScalarValue → Option ScalarValue
scalar_min float_gt (number t (some v) a) (number t2 (some v2) a2) =
    if NumericType_tag t == NumericType_tag t2
    then (if ltb_ℤ v2 v then some (number t2 (some v2) a2) else some (number t (some v) a))
    else none
scalar_min float_gt (float t (some v)) (float t2 (some v2)) =
    if FloatType_tag t == FloatType_tag t2
    then (if float_gt v v2 then some (float t2 (some v2)) else some (float t (some v)))
    else none
scalar_min float_gt l r = none
