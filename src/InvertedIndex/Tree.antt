-- ===== src/InvertedIndex/Tree.antt =====
-- The tree of the queries of a filter on an inverted index: `ExecutableFilterTree` and
-- `InvertedIndexExec` of backends/mysql/src/metadata/indices/inverted_index/inverted_index.rs.
use secure_fusion.Prelude.{
  ℕ, suc, zero, ◌+◌, ◌*◌, String, Option, none, some, List, [], ◌∷◌, ◌++◌, map, length, leb, Bool,
  true, false, if◌then◌else◌,
}
use secure_fusion.Prelude.Sets.{Bytes}
use secure_fusion.Run.{Run, returns, exec_error, panics, ◌>>=◌}
use secure_fusion.RowId.{DataType}
use secure_fusion.Sql.{
  BinaryOperator as SqlOperator, SqlValue, SqlExpr, identifier, value, binary_op, in_list, and_expr,
  or_expr, not_expr,
}
use secure_fusion.InvertedIndex.{RawIndexQuery, intersect, difference, union}
pub mod Simplify
pub mod Leaf
pub mod Execute
pub mod Conjunction
pub mod Match

pub data ExecutableFilterTree : Type 0 where
  and or : (a b : ExecutableFilterTree) → ExecutableFilterTree
  not : ExecutableFilterTree → ExecutableFilterTree
  filter_expr : RawIndexQuery → ExecutableFilterTree

-- The conjunction of two simplified trees.
unfoldable pub simplify_and : ExecutableFilterTree → ExecutableFilterTree → ExecutableFilterTree
simplify_and (filter_expr a) (filter_expr b) = filter_expr (intersect a b)
simplify_and (not (filter_expr a)) (filter_expr b) = filter_expr (difference b a)
simplify_and (filter_expr a) (not (filter_expr b)) = filter_expr (difference a b)
simplify_and (not (filter_expr a)) (not (filter_expr b)) = not (filter_expr (union a b))
simplify_and a b = and a b

unfoldable pub simplify_not : ExecutableFilterTree → ExecutableFilterTree
simplify_not (not a) = a
simplify_not a = not a

unfoldable pub simplify : ExecutableFilterTree → ExecutableFilterTree
simplify (and a b) = simplify_and (simplify a) (simplify b)
simplify (or a b) = or (simplify a) (simplify b)
simplify (not a) = simplify_not (simplify a)
simplify (filter_expr q) = filter_expr q

unfoldable pub extract_queries : ExecutableFilterTree → List RawIndexQuery → List RawIndexQuery
extract_queries (and a b) queries = extract_queries b (extract_queries a queries)
extract_queries (or a b) queries = extract_queries b (extract_queries a queries)
extract_queries (not a) queries = extract_queries a queries
extract_queries (filter_expr f) queries = queries ++ f ∷ []

-- `Vec::pop`: the last element, and those before it.
abbrev pub pop {ℓ} : {A : Type ℓ} → List A → Option (List A × A)
pop [] = none
pop (x ∷ xs) = elim (pop xs) [ none ↦ some ([], x) | some (ys, y) ↦ some (x ∷ ys, y) ]

-- The part of arrow's `Field` that is read.
pub record Field : Type 0 where
  pub name : String
  pub data_type : DataType

abbrev pub value_is_number : DataType → Bool
value_is_number DataType.int8 = true
value_is_number DataType.int16 = true
value_is_number DataType.int32 = true
value_is_number DataType.int64 = true
value_is_number DataType.uint8 = true
value_is_number DataType.uint16 = true
value_is_number DataType.uint32 = true
value_is_number DataType.uint64 = true
value_is_number _ = false

-- `u64::from_le_bytes`; the zeros that pad a document add nothing.
abbrev pub from_le_bytes : Bytes → ℕ
from_le_bytes [] = 0
from_le_bytes (b ∷ bs) = b + 256 * from_le_bytes bs

unfoldable pub as_u64 : Bytes → Option ℕ
as_u64 document = if leb (length document) 8 then some (from_le_bytes document) else none

-- `v.as_number_value().unwrap()`
abbrev pub unwrap_number : Option ℕ → Run SqlValue
unwrap_number none = panics
unwrap_number (some n) = returns (SqlValue.number n)

unfoldable pub document_value : Bool → Bytes → Run SqlValue
document_value is_number v =
    if is_number then unwrap_number (as_u64 v) else returns (SqlValue.hex_string_literal v)

unfoldable pub document_values : Bool → List Bytes → Run (List SqlValue)
document_values is_number [] = returns []
document_values is_number (v ∷ vs) = do
  x ← document_value is_number v
  xs ← document_values is_number vs
  returns (x ∷ xs)

unfoldable pub values_to_expr : String → List SqlValue → SqlExpr
values_to_expr id_name [] = value (SqlValue.boolean false)
values_to_expr id_name (x ∷ []) = binary_op (identifier id_name) SqlOperator.eq (value x)
values_to_expr id_name values = in_list (identifier id_name) values

-- A leaf, for the popped result.
unfoldable pub leaf_to_expr :
    Field → Option (List (List Bytes) × List Bytes) → Run (SqlExpr × List (List Bytes))
leaf_to_expr id_column none = exec_error
leaf_to_expr id_column (some (rest, result)) = do
  values ← document_values (value_is_number id_column.data_type) result
  returns (values_to_expr id_column.name values, rest)

-- Each leaf takes a result from the end of the vector.
unfoldable pub to_expr :
    ExecutableFilterTree → Field → List (List Bytes) → Run (SqlExpr × List (List Bytes))
to_expr (and a b) id_column results = do
  (l, results') ← to_expr a id_column results
  (r, results'') ← to_expr b id_column results'
  returns (and_expr l r, results'')
to_expr (or a b) id_column results = do
  (l, results') ← to_expr a id_column results
  (r, results'') ← to_expr b id_column results'
  returns (or_expr l r, results'')
to_expr (not a) id_column results = do
  (e, results') ← to_expr a id_column results
  returns (not_expr e, results')
to_expr (filter_expr q) id_column results = leaf_to_expr id_column (pop results)

-- `ask` is `RawInvertedIndex::query`, which may fail.
unfoldable pub execute_filter :
    (List RawIndexQuery → Run (List (List Bytes))) → Field → ExecutableFilterTree → Run SqlExpr
execute_filter ask id_column query = do
  results ← ask (extract_queries query [])
  (e, rest) ← to_expr query id_column results
  returns e
