-- ===== src/InvertedIndex/Tree/Leaf.antt =====
-- The SQL filter of one leaf of a tree of queries: the document is one of the result's.
use secure_fusion.Prelude.{
  ℕ, ◌≤◌, ◌<◌, String, Option, some, List, [], ◌∷◌, map, length, Bool, true, false, ◌&&◌, ◌||◌,
  flip, if◌then◌else◌, ◌≡◌, refl, sym, ap, ap₂, ◌∙◌, All, ◌==◌, Bool-cases, inl, inr, arith,
}
use secure_fusion.Prelude.Sets.{Bytes, same_bytes, contains}
use secure_fusion.Truth.{Truth, holds, fails, and₃, or₃, not₃}
use secure_fusion.Run.{returns}
use secure_fusion.Sql.{BinaryOperator as SqlOperator, SqlValue, eval_sql, compare_values, is_any}
use secure_fusion.InvertedIndex.Tree.{
  Field, value_is_number, from_le_bytes, as_u64, document_value, document_values, values_to_expr,
}

abbrev pub truth : Bool → Truth
truth b = if b then holds else fails

pub truth-and : (a b : Bool) → and₃ (truth a) (truth b) ≡ truth (a && b)
truth-and a b = ground arith

pub truth-or : (a b : Bool) → or₃ (truth a) (truth b) ≡ truth (a || b)
truth-or a b = ground arith

pub truth-not : (a : Bool) → not₃ (truth a) ≡ truth (flip a)
truth-not a = ground arith

-- A document of `n` bytes.
pub record IsDocument (n : ℕ) (document : Bytes) : Type 0 where
  pub size : length document ≡ n
  pub bytes : All (λ b. b < 256) document

-- Documents of the same size have the same number only if they are the same.
equal_numbers :
    (d e : Bytes)
    → length d ≡ length e
    → All (λ b. b < 256) d
    → All (λ b. b < 256) e
    → (from_le_bytes d == from_le_bytes e) ≡ same_bytes d e
equal_numbers [] [] h p q = refl
equal_numbers (b ∷ d) (c ∷ e) h p q =
    let rest : (from_le_bytes d == from_le_bytes e) ≡ same_bytes d e =
      equal_numbers d e (omega arith) p.1 q.1 in
    let p0 : b < 256 = p.0 in let q0 : c < 256 = q.0 in ground arith
equal_numbers [] (c ∷ e) h p q = absurd (omega arith)
equal_numbers (b ∷ d) [] h p q = absurd (omega arith)

-- Documents that the identifier column can hold.
abbrev pub FitsColumn : Field → ℕ → Type 0
FitsColumn column n = value_is_number column.data_type ≡ true → n ≤ 8

abbrev pub value_of : Bool → Bytes → SqlValue
value_of true d = SqlValue.number (from_le_bytes d)
value_of false d = SqlValue.hex_string_literal d

module _ (is_number : Bool) (n : ℕ) (fits : is_number ≡ true → n ≤ 8) where
  document_value-value_of :
      (d : Bytes) → IsDocument n d → document_value is_number d ≡ returns (value_of is_number d)
  unfolding document_value as_u64
  document_value-value_of d doc = elim (Bool-cases is_number) [
    | inl yes_number ↦ ground (arith, fits yes_number)
    | inr not_number ↦ ground arith
  ]

  compare_values-value_of :
      (d e : Bytes)
      → IsDocument n d
      → IsDocument n e
      → compare_values SqlOperator.eq (some (value_of is_number d)) (some (value_of is_number e))
        ≡ truth (same_bytes d e)
  compare_values-value_of d e p q = elim (Bool-cases is_number) [
    | inl yes_number ↦
        rw yes_number (ap truth (equal_numbers d e (p.size ∙ sym q.size) p.bytes q.bytes))
    | inr not_number ↦ ground arith
  ]

  pub document_values-map :
      (s : List Bytes)
      → All (IsDocument n) s
      → document_values is_number s ≡ returns (map (value_of is_number) s)
  unfolding document_values
  document_values-map [] h = refl
  document_values-map (d ∷ s) h = rw (document_value-value_of d h.0, document_values-map s h.1) refl

  is_any-contains :
      (d : Bytes) (s : List Bytes)
      → IsDocument n d
      → All (IsDocument n) s
      → is_any (some (value_of is_number d)) (map (value_of is_number) s) ≡ truth (contains d s)
  is_any-contains d [] p h = refl
  is_any-contains d (e ∷ s) p h =
      ap₂ or₃ (compare_values-value_of d e p h.0) (is_any-contains d s p h.1)
      ∙ truth-or (same_bytes d e) (contains d s)

  module _ (row : String → Option SqlValue) (name : String) (d : Bytes) (doc : IsDocument n d)
      (read : row name ≡ some (value_of is_number d)) where
    pub eval_sql-values_to_expr :
        (s : List Bytes)
        → All (IsDocument n) s
        → eval_sql row (values_to_expr name (map (value_of is_number) s)) ≡ truth (contains d s)
    unfolding values_to_expr
    eval_sql-values_to_expr [] h = refl
    eval_sql-values_to_expr (e ∷ []) h =
        rw read (compare_values-value_of d e doc h.0 ∙ ap truth (ground arith))
    eval_sql-values_to_expr (e ∷ f ∷ s) h =
        ap (λ o. is_any o (map (value_of is_number) (e ∷ f ∷ s))) read
        ∙ is_any-contains d (e ∷ f ∷ s) doc h
