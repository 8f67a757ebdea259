-- ===== src/BlindIndex/Query.antt =====
-- What the split hands to a blind index, and the query that the index makes of it.
use secure_fusion.Prelude.{ℕ, ◌≡◌, ◌⊎◌, String, true, false, Option, none, some, List, [], ◌∷◌}
use text.Mathlib.Text.{◌==◌ as str_eq}
use secure_fusion.Truth.{holds}
use secure_fusion.Prelude.Sets.{Bytes}
use secure_fusion.Scalar.{ScalarValue, utf8}
use secure_fusion.Sql.{BinaryOperator as SqlOperator, SqlValue}
use secure_fusion.Filter.{
  eq, ColumnWithCast, column, IndexableFilterExpr, and, or, equality, in_list,
}
use secure_fusion.Filter.Meaning.{Row}
use secure_fusion.BlindIndex.{BlindIndex, value_to_blind_value, for_value}

-- The predicate holds of a member.
abbrev pub Any {ℓ} : {A : Type ℓ} → (A → Type 0) → List A → Type 0
Any P [] = true ≡ false
Any P (x ∷ xs) = P x ⊎ Any P xs

-- The identifier that is stored for a value, as SQL has it.
abbrev pub quoted : Option String → Option SqlValue
quoted none = none
quoted (some s) = some (SqlValue.single_quoted_string s)

-- A row whose value in the indexed column is the text `own`, with the identifier of the text's bytes
-- stored beside it. The comparisons of the column are those of SQL under a binary collation, by which
-- a text is equal to itself alone; DataFusion shows a text as it is.
pub record IsBlindRow {ℓ} {E : Type ℓ} (index : BlindIndex) (identifier : Bytes → ℕ → String)
    (to_string : ScalarValue → Bytes) (utf8_bytes : String → Bytes) (row : Row E)
    (stored : String → Option SqlValue) (own : String) : Type ℓ where
  pub read :
      stored index.index_column_name
      ≡ quoted (for_value identifier index.size_bits (some (utf8_bytes own)))
  pub shown : to_string (utf8 (some own)) ≡ utf8_bytes own
  pub same_value :
      (c : ColumnWithCast) (v : ScalarValue)
      → str_eq c.column.name index.indexed_column ≡ true
      → row.compares c eq v ≡ holds
      → v ≡ utf8 (some own)
  pub is_in_def :
      (c : ColumnWithCast) (vs : List ScalarValue)
      → str_eq c.column.name index.indexed_column ≡ true
      → row.is_in (column c) vs ≡ holds
      → Any (λ v. row.compares c eq v ≡ holds) vs

module _ {ℓ} {E : Type ℓ} (index : BlindIndex) where
  -- The filters that the index has a query for.
  abbrev pub IsBlindFilter : IndexableFilterExpr E → Type 0
  IsBlindFilter (and l r) = IsBlindFilter l × IsBlindFilter r
  IsBlindFilter (or l r) = IsBlindFilter l × IsBlindFilter r
  IsBlindFilter (equality c eq v) = str_eq c.column.name index.indexed_column ≡ true
  IsBlindFilter (in_list (column c) vs) = str_eq c.column.name index.indexed_column ≡ true
  IsBlindFilter _ = true ≡ false

  abbrev IsBlindPart : Option (IndexableFilterExpr E) → Type 0
  IsBlindPart none = Unit
  IsBlindPart (some f) = IsBlindFilter f

  module _ (identifier : Bytes → ℕ → String) (to_string : ScalarValue → Bytes)
      (utf8_bytes : String → Bytes) (row : Row E) (stored : String → Option SqlValue) (own : String)
      (blind : IsBlindRow index identifier to_string utf8_bytes row stored own)
      (table : String) where
    abbrev own_identifier : String
    own_identifier = identifier (utf8_bytes own) index.size_bits

    abbrev literal : ScalarValue → SqlValue
    literal = value_to_blind_value identifier to_string index.size_bits
