-- ===== src/Tests/RowId.antt =====
-- Row identifiers (crypto/src/row_id.rs, crypto/src/identifiers.rs) on concrete values.
use secure_fusion.Prelude.{
  if◌then◌else◌, ◌+◌, ◌*◌, ◌/◌, ◌≤◌, ◌⊎◌, leb, ℕ, zero, suc, ◌^◌, ◌<◌, ◌≡◌, refl, true, false,
  Option, none, some, List, [], ◌∷◌, ◌++◌, length, All, arith,
}
use secure_fusion.Prelude.Int.{pos}
use secure_fusion.RowId.{
  DataType, int64, fixed_size_binary, ColumnDef, SqlType, sql_binary, other_sql_type, not_null,
  dialect_specific, size16_bytes, primary, is_nullable, is_auto_increment, get_default_value,
  data_type, column_def, random, computed, natural_of_type, get_natural_if_any, create_for_table,
  to_be_bytes, encode_values, row_buffer,
}
use secure_fusion.RowId.Encoding.{row_buffer_injective}
use secure_fusion.RowId.Columns.{Holds, get_natural_if_any-Holds, create_for_table-random}
use secure_fusion.Identifiers.{
  shift_first, get_opaque_stable_identifier, IsByte, from_be_bytes, Fills,
  get_opaque_stable_identifier-bound,
}

program : Unit {0}
unfolding is_nullable is_auto_increment get_default_value data_type column_def random computed
    natural_of_type get_natural_if_any create_for_table to_be_bytes encode_values row_buffer
    shift_first get_opaque_stable_identifier
program = tt

-- BINARY(n) and BIGINT.
abbrev convert : SqlType → Option DataType
convert (sql_binary n) = some (fixed_size_binary (pos n))
convert (other_sql_type n) = some int64

abbrev key : ColumnDef
key = record { name = "id"; data_type = sql_binary 15; options = not_null ∷ [] }

abbrev generated_key : ColumnDef
generated_key = record {
  name = "id";
  data_type = other_sql_type 0;
  options = not_null ∷ dialect_specific true ∷ [];
}

buffer_of_two :
    row_buffer ((7 ∷ 8 ∷ []) ∷ [] ∷ [])
    ≡ 2 ∷ 0 ∷ 0 ∷ 0 ∷ 0 ∷ 0 ∷ 0 ∷ 0 ∷ 2 ∷ 7 ∷ 8 ∷ 0 ∷ 0 ∷ 0 ∷ 0 ∷ 0 ∷ 0 ∷ 0 ∷ 0 ∷ []
unfolding program
buffer_of_two = refl

get_natural_if_any-Holds_example :
    (k : ColumnDef) × (dt : DataType) × (key ∷ [] ≡ k ∷ [])
    × (is_nullable k ≡ false)
    × (is_auto_increment k ≡ false)
    × (get_default_value k ≡ none)
    × (convert k.data_type ≡ some dt)
    × Holds k.name dt (primary "id" size16_bytes (fixed_size_binary (pos 15)))
unfolding program
get_natural_if_any-Holds_example =
    get_natural_if_any-Holds convert (key ∷ [])
      (primary "id" size16_bytes (fixed_size_binary (pos 15))) refl

create_for_table-random_example : create_for_table convert (generated_key ∷ []) ≡ random
unfolding program
create_for_table-random_example = create_for_table-random convert (generated_key ∷ []) refl

abbrev two_values : List (List ℕ)
two_values = (1 ∷ []) ∷ (2 ∷ 3 ∷ []) ∷ []

abbrev joined_values : List (List ℕ)
joined_values = ([] ++ 1 ∷ []) ∷ ((2 ∷ []) ++ 3 ∷ []) ∷ []

row_buffer_injective_example : two_values ≡ joined_values
row_buffer_injective_example =
    row_buffer_injective two_values joined_values (omega arith) (omega arith)
      (omega arith, (omega arith, tt)) (omega arith, (omega arith, tt)) refl

-- A key derivation that fills with ones, up to 255 blocks of 32 bytes.
abbrev ones : ℕ → List ℕ
ones zero = []
ones (suc n) = 255 ∷ ones n

abbrev full : List ℕ → ℕ → Option (List ℕ)
full input n = if leb n (255 * 32) then some (ones n) else none

full-Fills : Fills 32 full
full-Fills = record {
  fills = λ input n le. (ones n, ground arith, length_ones n, all_bytes n);
  refuses = λ input n lt. ground arith;
}
  where
    length_ones : (n : ℕ) → length (ones n) ≡ n
    length_ones zero = refl
    length_ones (suc n) = omega (arith, length_ones n)

    all_bytes : (n : ℕ) → All IsByte (ones n)
    all_bytes zero = tt
    all_bytes (suc n) = (omega arith, all_bytes n)

twelve_bits : get_opaque_stable_identifier full [] 12 ≡ some (15 ∷ 255 ∷ [])
unfolding program
twelve_bits = refl

get_opaque_stable_identifier-bound_example :
    (((12 + 7) / 8 ≤ 255 * 32)
      × (out : List ℕ) × (get_opaque_stable_identifier full [] 12 ≡ some out)
      × (length out ≡ (12 + 7) / 8)
      × (from_be_bytes out < 2 ^ 12))
    ⊎ ((255 * 32 < (12 + 7) / 8) × (get_opaque_stable_identifier full [] 12 ≡ none))
get_opaque_stable_identifier-bound_example =
    get_opaque_stable_identifier-bound 32 full full-Fills [] 12
