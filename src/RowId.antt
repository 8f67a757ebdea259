-- ===== src/RowId.antt =====
-- The identifiers of rows: the column that holds them and the bytes that they are derived from
-- (crypto/src/row_id.rs). Arrow's arrays and the key derivation are arguments.
use secure_fusion.Prelude.{
  ℕ, zero, suc, ◌+◌, ◌/◌, ◌%◌, String, Bool, true, false, Option, none, some, is_some, is_none,
  List, [], ◌∷◌, ◌++◌, map, length, ◌&&◌, ◌||◌, flip, if◌then◌else◌,
}
use text.Mathlib.Text.{◌==◌ as str_eq}
use secure_fusion.Prelude.Int.{ℤ, pos, leb_ℤ}
pub mod Encoding
pub mod Columns

-- Arrow's data types, as far as they are told apart.
pub data DataType : Type 0 where
  int8 int16 int32 int64 uint8 uint16 uint32 uint64 : DataType
  fixed_size_binary : (size : ℤ) → DataType
  binary : DataType
  other_type : ℕ → DataType

-- The options of a column that are looked at (common/src/conversions/column_def_ext.rs).
-- `dialect_specific b` tells whether one of the tokens is the keyword AUTO_INCREMENT.
pub data ColumnOption : Type 0 where
  not_null : ColumnOption
  default_value : (expr : ℕ) → ColumnOption
  dialect_specific : (auto_increment : Bool) → ColumnOption
  other_option : ℕ → ColumnOption

-- sqlparser's column definition. Its data type is `BINARY(n)` or another one.
pub data SqlType : Type 0 where
  sql_binary : (length : ℕ) → SqlType
  other_sql_type : ℕ → SqlType

pub record ColumnDef : Type 0 where
  pub name : String
  pub data_type : SqlType
  pub options : List ColumnOption

abbrev is_not_null : List ColumnOption → Bool
is_not_null [] = false
is_not_null (not_null ∷ options) = true
is_not_null (_ ∷ options) = is_not_null options

unfoldable pub is_nullable : ColumnDef → Bool
is_nullable def = flip (is_not_null def.options)

abbrev has_auto_increment : List ColumnOption → Bool
has_auto_increment [] = false
has_auto_increment (dialect_specific true ∷ options) = true
has_auto_increment (_ ∷ options) = has_auto_increment options

unfoldable pub is_auto_increment : ColumnDef → Bool
is_auto_increment def = has_auto_increment def.options

abbrev find_default : List ColumnOption → Option ℕ
find_default [] = none
find_default (default_value expr ∷ options) = some expr
find_default (_ ∷ options) = find_default options

unfoldable pub get_default_value : ColumnDef → Option ℕ
get_default_value def = find_default def.options

pub data RowIdColumnSize : Type 0 where
  size4_bytes size8_bytes size12_bytes size16_bytes : RowIdColumnSize

abbrev pub bytes : RowIdColumnSize → ℕ
bytes size4_bytes = 4
bytes size8_bytes = 8
bytes size12_bytes = 12
bytes size16_bytes = 16

pub data RowIdColumnSource : Type 0 where
  direct_primary_key : DataType → RowIdColumnSource
  derived_from_primary_columns : List String → RowIdColumnSource
  random_generated : RowIdColumnSource

pub record RowIdColumn : Type 0 where
  pub column_name : String
  pub size : RowIdColumnSize
  pub source : RowIdColumnSource

abbrev pub default_rowid_column_name : String
default_rowid_column_name = "__sf_rowid"

unfoldable pub is_hidden : RowIdColumn → Bool
is_hidden column = str_eq column.column_name default_rowid_column_name

unfoldable pub column_def : RowIdColumn → ColumnDef
column_def column = record {
  name = column.column_name;
  data_type = sql_binary (bytes column.size);
  options = [];
}

unfoldable pub data_type : RowIdColumn → DataType
data_type column = elim column.source [ direct_primary_key dt ↦ dt | _ ↦ binary ]

abbrev pub primary : String → RowIdColumnSize → DataType → RowIdColumn
primary column_name size dt = record {
  column_name = column_name;
  size = size;
  source = direct_primary_key dt;
}

abbrev with_def : RowIdColumn → RowIdColumn × Option ColumnDef
with_def column = (column, some (column_def column))

unfoldable pub random : RowIdColumn × Option ColumnDef
random = with_def (record {
  column_name = default_rowid_column_name;
  size = size12_bytes;
  source = random_generated;
})

unfoldable pub computed : List String → RowIdColumn × Option ColumnDef
computed columns = with_def (record {
  column_name = default_rowid_column_name;
  size = size8_bytes;
  source = derived_from_primary_columns columns;
})

-- The match of `get_natural_if_any` on the type of the column.
unfoldable pub natural_of_type : String → DataType → Option RowIdColumn
natural_of_type name int8 = some (primary name size4_bytes int8)
natural_of_type name int16 = some (primary name size4_bytes int16)
natural_of_type name int32 = some (primary name size4_bytes int32)
natural_of_type name uint8 = some (primary name size4_bytes uint8)
natural_of_type name uint16 = some (primary name size4_bytes uint16)
natural_of_type name uint32 = some (primary name size4_bytes uint32)
natural_of_type name int64 = some (primary name size8_bytes int64)
natural_of_type name uint64 = some (primary name size8_bytes uint64)
natural_of_type name (fixed_size_binary sz) =
    if leb_ℤ sz (pos 4)
    then some (primary name size4_bytes (fixed_size_binary sz))
    else if leb_ℤ sz (pos 8)
    then some (primary name size8_bytes (fixed_size_binary sz))
    else if leb_ℤ sz (pos 12)
    then some (primary name size12_bytes (fixed_size_binary sz))
    else if leb_ℤ sz (pos 16)
    then some (primary name size16_bytes (fixed_size_binary sz))
    else none
natural_of_type name _ = none

abbrev pub any_generated : List ColumnDef → Bool
any_generated [] = false
any_generated (key ∷ keys) =
    is_auto_increment key || is_some (get_default_value key) || any_generated keys

abbrev is_empty : List ColumnDef → Bool
is_empty [] = true
is_empty (key ∷ keys) = false

module _ (convert_data_type : SqlType → Option DataType) where
  abbrev natural_of_conversion : String → Option DataType → Option RowIdColumn
  natural_of_conversion name none = none
  natural_of_conversion name (some dt) = natural_of_type name dt

  -- `RowIdColumn::get_natural_if_any`. The conversion of types is that of
  -- common/src/conversions/datatypes.rs, where `none` is an error.
  unfoldable pub get_natural_if_any : List ColumnDef → Option RowIdColumn
  get_natural_if_any (key ∷ []) =
      if is_nullable key || is_auto_increment key || is_some (get_default_value key)
      then none
      else natural_of_conversion key.name (convert_data_type key.data_type)
  get_natural_if_any _ = none

  -- `RowIdColumn::create_for_table`, which never fails.
  unfoldable pub create_for_table : List ColumnDef → RowIdColumn × Option ColumnDef
  create_for_table primary_key = elim (get_natural_if_any primary_key) [
    | some natural ↦ (natural, none)
    | none ↦
        if is_empty primary_key || any_generated primary_key
        then random
        else computed (map (λ def. def.name) primary_key)
  ]

-- `n.to_be_bytes()` of a number of `width` bytes.
unfoldable pub to_be_bytes : (width n : ℕ) → List ℕ
to_be_bytes zero n = []
to_be_bytes (suc width) n = to_be_bytes width (n / 256) ++ n % 256 ∷ []

-- The values of a row, each after its length, a usize of 8 bytes.
unfoldable pub encode_values : List (List ℕ) → List ℕ
encode_values [] = []
encode_values (value ∷ values) = to_be_bytes 8 (length value) ++ value ++ encode_values values

-- The buffer of `compute_rowid` for a row.
unfoldable pub row_buffer : List (List ℕ) → List ℕ
row_buffer values = length values % 256 ∷ encode_values values

-- `ComputeRowIdImpl::compute_rowid` from row `i` on. An array gives the value of each row; `ident`
-- is `get_opaque_stable_identifier_in` for a buffer of a number of bytes.
unfoldable pub rowids_from :
    (List ℕ → ℕ → List ℕ) → RowIdColumnSize → List (ℕ → List ℕ) → (i num_rows : ℕ) → List (List ℕ)
rowids_from ident size arrays i zero = []
rowids_from ident size arrays i (suc num_rows) =
    ident (row_buffer (map (λ array. array i) arrays)) (bytes size)
    ∷ rowids_from ident size arrays (suc i) num_rows

unfoldable pub compute_rowid :
    (List ℕ → ℕ → List ℕ) → RowIdColumnSize → List (ℕ → List ℕ) → (num_rows : ℕ) → List (List ℕ)
compute_rowid ident size arrays num_rows = rowids_from ident size arrays 0 num_rows
