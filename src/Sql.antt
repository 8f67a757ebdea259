-- ===== src/Sql.antt =====
-- The SQL expressions that the proxy sends to the database server: the part of sqlparser's `ast::Expr`
-- that the indices build (backends/mysql/src/ast_expr_ext.rs), and its meaning to the server.
use secure_fusion.Prelude.{
  ℕ, String, Option, none, some, List, [], ◌∷◌, ltb, leb, ◌==◌, if◌then◌else◌,
}
use text.Mathlib.Text.{◌==◌ as str_eq}
use secure_fusion.Prelude.{Bool}
use secure_fusion.Prelude.Sets.{Bytes, same_bytes}
use secure_fusion.Truth.{Truth, holds, fails, unknown, and₃, or₃, not₃}
use secure_fusion.Filter.{EqualityOperator}

pub data BinaryOperator : Type 0 where
  eq gt lt lt_eq gt_eq and or : BinaryOperator

-- A hexadecimal literal is given by the bytes that it spells.
pub data SqlValue : Type 0 where
  number : ℕ → SqlValue
  single_quoted_string : String → SqlValue
  hex_string_literal : Bytes → SqlValue
  boolean : Bool → SqlValue

pub data SqlExpr : Type 0 where
  identifier : (column : String) → SqlExpr
  compound_identifier : (table column : String) → SqlExpr
  value : SqlValue → SqlExpr
  binary_op : (left : SqlExpr) → BinaryOperator → (right : SqlExpr) → SqlExpr
  not_op : SqlExpr → SqlExpr
  between : (expr low high : SqlExpr) → SqlExpr
  in_list : (expr : SqlExpr) → (list : List SqlValue) → SqlExpr

-- `From<EqualityOperator> for BinaryOperator`.
abbrev pub to_binary_operator : EqualityOperator → BinaryOperator
to_binary_operator EqualityOperator.eq = eq
to_binary_operator EqualityOperator.gt = gt
to_binary_operator EqualityOperator.lt = lt
to_binary_operator EqualityOperator.lt_eq = lt_eq
to_binary_operator EqualityOperator.gt_eq = gt_eq

-- The trait `AstExprExt`.
abbrev pub binop : SqlExpr → SqlExpr → BinaryOperator → SqlExpr
binop l r op = binary_op l op r

abbrev pub and_expr : SqlExpr → SqlExpr → SqlExpr
and_expr l r = binop l r and

abbrev pub or_expr : SqlExpr → SqlExpr → SqlExpr
or_expr l r = binop l r or

abbrev pub not_expr : SqlExpr → SqlExpr
not_expr e = not_op e

-- The server's comparison of two numbers, or of two texts for equality.
abbrev pub compare_numbers : BinaryOperator → ℕ → ℕ → Truth
compare_numbers eq m n = if m == n then holds else fails
compare_numbers gt m n = if ltb n m then holds else fails
compare_numbers lt m n = if ltb m n then holds else fails
compare_numbers lt_eq m n = if leb m n then holds else fails
compare_numbers gt_eq m n = if leb n m then holds else fails
compare_numbers _ m n = unknown

abbrev pub compare_values : BinaryOperator → Option SqlValue → Option SqlValue → Truth
compare_values op (some (number m)) (some (number n)) = compare_numbers op m n
compare_values eq (some (single_quoted_string s)) (some (single_quoted_string t)) =
    if str_eq s t then holds else fails
compare_values eq (some (hex_string_literal s)) (some (hex_string_literal t)) =
    if same_bytes s t then holds else fails
compare_values _ _ _ = unknown

-- `none` is NULL. `row` gives the value of each column, by its name.
abbrev pub operand : (String → Option SqlValue) → SqlExpr → Option SqlValue
operand row (identifier c) = row c
operand row (compound_identifier t c) = row c
operand row (value v) = some v
operand row _ = none

abbrev pub is_any : Option SqlValue → List SqlValue → Truth
is_any v [] = fails
is_any v (w ∷ ws) = or₃ (compare_values eq v (some w)) (is_any v ws)

-- Whether the server keeps a row.
abbrev pub eval_sql : (String → Option SqlValue) → SqlExpr → Truth
eval_sql row (identifier c) = unknown
eval_sql row (compound_identifier t c) = unknown
eval_sql row (value (boolean b)) = if b then holds else fails
eval_sql row (value v) = unknown
eval_sql row (binary_op l and r) = and₃ (eval_sql row l) (eval_sql row r)
eval_sql row (binary_op l or r) = or₃ (eval_sql row l) (eval_sql row r)
eval_sql row (binary_op l op r) = compare_values op (operand row l) (operand row r)
eval_sql row (not_op e) = not₃ (eval_sql row e)
eval_sql row (between e low high) =
    and₃ (compare_values gt_eq (operand row e) (operand row low))
      (compare_values lt_eq (operand row e) (operand row high))
eval_sql row (in_list e list) = is_any (operand row e) list
