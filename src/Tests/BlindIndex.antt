-- ===== src/Tests/BlindIndex.antt =====
-- The blind index of backends/mysql/src/metadata/blind_index.rs on a column of names.
use secure_fusion.Prelude.{ℕ, ◌+◌, ◌-◌, String, false, Option, none, some, [], ◌∷◌, if◌then◌else◌}
use text.Mathlib.Text.{◌==◌ as str_eq}
use secure_fusion.Truth.{Truth, holds, fails, unknown}
use secure_fusion.Prelude.Sets.{Bytes}
use secure_fusion.Scalar.{ScalarValue, utf8}
use secure_fusion.Sql.{SqlValue}
use secure_fusion.Statistics.{Estimates, TableStatistics}
use secure_fusion.Filter.{ColumnWithCast}
use secure_fusion.Filter.Meaning.{Row}
use secure_fusion.Filter.Split.{split, split_and, split_or}
use secure_fusion.BlindIndex.{BlindIndex, is_indexable_expr_supported, support_options}

program : Unit {0}
unfolding split split_and split_or is_indexable_expr_supported support_options
program = tt

abbrev name_index : BlindIndex
name_index = record {
  name = "names";
  indexed_column = "i_name";
  size_bits = 12;
  index_column_name = "__bi_names_12";
}

abbrev name_column : ColumnWithCast
name_column = record {
  column = record { relation = none; name = "i_name" };
  cast_to = none;
  or_null = false;
}

-- The bytes of the names, and their identifiers.
abbrev name_bytes : String → Bytes
name_bytes s = if str_eq s "pen" then 112 ∷ 101 ∷ 110 ∷ [] else []

abbrev shown : ScalarValue → Bytes
shown (utf8 (some s)) = name_bytes s
shown _ = []

abbrev name_identifier : Bytes → ℕ → String
name_identifier (b ∷ s) size_bits = "0a1"
name_identifier [] size_bits = "0b2"

abbrev pen : ScalarValue
pen = utf8 (some "pen")

abbrev pen_compares : ScalarValue → Truth
pen_compares (utf8 (some s)) = if str_eq s "pen" then holds else fails
pen_compares v = unknown

abbrev pen_row : Row ℕ
pen_row = record {
  compares = λ c op v. pen_compares v;
  lies_between = λ c v w. unknown;
  is_in = λ c vs. unknown;
  is_like = λ c p. unknown;
  matches = λ cs s. unknown;
  satisfies = λ n. holds;
}

abbrev pen_stored : String → Option SqlValue
pen_stored name =
    if str_eq name "__bi_names_12" then some (SqlValue.single_quoted_string "0a1") else none

abbrev counts : Estimates ℕ
counts = record { min = λ a b. a; add = λ a b. a + b; sub = λ a b. a - b }

abbrev no_statistics : TableStatistics ℕ
no_statistics = record {
  update_signal = false;
  table_reference = "item";
  last_update = 0;
  num_rows = 100;
  indexing_columns = [];
}
