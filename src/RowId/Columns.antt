-- ===== src/RowId/Columns.antt =====
-- Which column holds the identifiers of the rows of a table.
use secure_fusion.Prelude.{
  ◌≡◌, refl, sym, ap, subst, ◌∙◌, String, true, false, Option, none, some, List, [], ◌∷◌, inl, inr,
  Bool-cases, Option-cases, if◌then◌else◌, arith,
}
use secure_fusion.Prelude.Int.{ℤ, pos, ◌≤ℤ◌, leb_ℤ}
use secure_fusion.RowId.{
  DataType, int8, int16, int32, int64, uint8, uint16, uint32, uint64, fixed_size_binary, ColumnDef,
  SqlType, RowIdColumn, RowIdColumnSize, size4_bytes, size8_bytes, size12_bytes, size16_bytes,
  primary, bytes, is_nullable, is_auto_increment, get_default_value, data_type, random,
  natural_of_type, get_natural_if_any, any_generated, create_for_table,
}

-- The bytes of a value, for the types of a fixed width.
abbrev pub width : DataType → Option ℤ
width int8 = some (pos 1)
width uint8 = some (pos 1)
width int16 = some (pos 2)
width uint16 = some (pos 2)
width int32 = some (pos 4)
width uint32 = some (pos 4)
width int64 = some (pos 8)
width uint64 = some (pos 8)
width (fixed_size_binary sz) = some sz
width _ = none

-- The column has the type's values and room for them.
pub record Holds (name : String) (dt : DataType) (column : RowIdColumn) : Type 0 where
  pub same_name : column.column_name ≡ name
  pub same_type : data_type column ≡ dt
  pub value_width : ℤ
  pub width_def : width dt ≡ some value_width
  pub is_wide_enough : value_width ≤ℤ pos (bytes column.size)

primary-Holds :
    (name : String) (size : RowIdColumnSize) (dt : DataType) (w : ℤ)
    → width dt ≡ some w
    → w ≤ℤ pos (bytes size)
    → Holds name dt (primary name size dt)
unfolding data_type
primary-Holds name size dt w is fits = record {
  same_name = refl;
  same_type = refl;
  value_width = w;
  width_def = is;
  is_wide_enough = fits;
}

only :
    (name : String) (size : RowIdColumnSize) (dt : DataType) (w : ℤ) (column : RowIdColumn)
    → width dt ≡ some w
    → w ≤ℤ pos (bytes size)
    → some (primary name size dt) ≡ some column
    → Holds name dt column
only name size dt w column is fits h =
    let found : primary name size dt ≡ column = ground arith in
    subst (Holds name dt) found (primary-Holds name size dt w is fits)

first_of :
    (name : String) (size : RowIdColumnSize) (sz : ℤ) (column : RowIdColumn)
    (rest : Option RowIdColumn)
    → (rest ≡ some column → Holds name (fixed_size_binary sz) column)
    → (if leb_ℤ sz (pos (bytes size))
        then some (primary name size (fixed_size_binary sz))
        else rest)
      ≡ some column
    → Holds name (fixed_size_binary sz) column
first_of name size sz column rest otherwise h = elim (Bool-cases (leb_ℤ sz (pos (bytes size)))) [
  | inl fits ↦
      only name size (fixed_size_binary sz) sz column refl (ground arith) (
        sym (ap (λ b. if b then some (primary name size (fixed_size_binary sz)) else rest) fits)
        ∙ h)
  | inr large ↦ otherwise (
      sym (ap (λ b. if b then some (primary name size (fixed_size_binary sz)) else rest) large) ∙ h)
]

natural_of_type-Holds :
    (name : String) (dt : DataType) (column : RowIdColumn)
    → natural_of_type name dt ≡ some column
    → Holds name dt column
unfolding natural_of_type
natural_of_type-Holds name int8 column h =
    only name size4_bytes int8 (pos 1) column refl (omega arith) h
natural_of_type-Holds name int16 column h =
    only name size4_bytes int16 (pos 2) column refl (omega arith) h
natural_of_type-Holds name int32 column h =
    only name size4_bytes int32 (pos 4) column refl (omega arith) h
natural_of_type-Holds name uint8 column h =
    only name size4_bytes uint8 (pos 1) column refl (omega arith) h
natural_of_type-Holds name uint16 column h =
    only name size4_bytes uint16 (pos 2) column refl (omega arith) h
natural_of_type-Holds name uint32 column h =
    only name size4_bytes uint32 (pos 4) column refl (omega arith) h
natural_of_type-Holds name int64 column h =
    only name size8_bytes int64 (pos 8) column refl (omega arith) h
natural_of_type-Holds name uint64 column h =
    only name size8_bytes uint64 (pos 8) column refl (omega arith) h
natural_of_type-Holds name (fixed_size_binary sz) column h =
    first_of name size4_bytes sz column _
      (first_of name size8_bytes sz column _ (
        first_of name size12_bytes sz column _
          (first_of name size16_bytes sz column none (λ e. cc))))
      h
natural_of_type-Holds name _ column h = cc

module _ (convert_data_type : SqlType → Option DataType) where
  -- A natural row identifier is the one column of the primary key, which is not null, not generated
  -- and without a default; the identifier has the column's name and type, and room for its values.
  pub get_natural_if_any-Holds :
      (primary_key : List ColumnDef) (column : RowIdColumn)
      → get_natural_if_any convert_data_type primary_key ≡ some column
      → (key : ColumnDef) × (dt : DataType) × (primary_key ≡ key ∷ [])
        × (is_nullable key ≡ false)
        × (is_auto_increment key ≡ false)
        × (get_default_value key ≡ none)
        × (convert_data_type key.data_type ≡ some dt)
        × Holds key.name dt column
  unfolding get_natural_if_any
  get_natural_if_any-Holds [] column h = cc
  get_natural_if_any-Holds (key ∷ []) column h =
      elim (Option-cases (convert_data_type key.data_type)) [
        | inl failed ↦ absurd (ground (arith, failed))
        | inr (dt, e) ↦ (
          key,
          dt,
          refl,
          ground arith,
          ground arith,
          ground arith,
          e,
          natural_of_type-Holds key.name dt column (ground arith),
        )
      ]
  get_natural_if_any-Holds (key ∷ k ∷ keys) column h = cc

  -- A table whose primary key has a generated column, or a column with a default, gets random row
  -- identifiers in a hidden column that is added to the table.
  pub create_for_table-random :
      (primary_key : List ColumnDef)
      → any_generated primary_key ≡ true
      → create_for_table convert_data_type primary_key ≡ random
  unfolding create_for_table get_natural_if_any
  create_for_table-random [] h = cc
  create_for_table-random (key ∷ []) h = ground arith
  create_for_table-random (key ∷ k ∷ keys) h = rw h refl
