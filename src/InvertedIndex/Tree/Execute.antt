-- ===== src/InvertedIndex/Tree/Execute.antt =====
-- The SQL filter that `InvertedIndexExec::execute_filter` sends for a tree of queries.
use secure_fusion.Prelude.{
  ℕ, ◌+◌, ◌≤◌, String, Option, some, List, [], ◌∷◌, ◌++◌, map, length, Bool, length-append, ◌≡◌,
  refl, sym, ap, ap₂, ◌∙◌, All, arith,
}
use mathlib.Core.List.{reverse, reverse-cons, reverse-reverse, map-append, append_assoc}
use secure_fusion.Prelude.Sets.{Bytes, contains}
use secure_fusion.Truth.{and₃, or₃, not₃}
use secure_fusion.Run.{Run, returns, ◌>>=◌}
use secure_fusion.Sql.{SqlValue, SqlExpr, eval_sql, and_expr, or_expr, not_expr}
use secure_fusion.InvertedIndex.{RawIndexQuery}
use secure_fusion.InvertedIndex.Modifications.{meets}
use secure_fusion.InvertedIndex.Tree.{
  ExecutableFilterTree, and, or, not, filter_expr, extract_queries, pop, Field, value_is_number,
  values_to_expr, to_expr, leaf_to_expr, execute_filter,
}
use secure_fusion.InvertedIndex.Tree.Simplify.{meets_tree}
use secure_fusion.InvertedIndex.Tree.Leaf.{
  truth, truth-and, truth-or, truth-not, IsDocument, FitsColumn, value_of, document_values-map,
  eval_sql-values_to_expr,
}

length-reverse {ℓ} : {A : Type ℓ} (xs : List A) → length (reverse xs) ≡ length xs
length-reverse [] = refl
length-reverse (x ∷ xs) =
    ap length (reverse-cons x xs)
    ∙ length-append (reverse xs) (x ∷ [])
    ∙ omega (arith, length-reverse xs)

-- The queries of a tree, from left to right.
abbrev pub leaves : ExecutableFilterTree → List RawIndexQuery
leaves (and a b) = leaves a ++ leaves b
leaves (or a b) = leaves a ++ leaves b
leaves (not a) = leaves a
leaves (filter_expr q) = q ∷ []

-- The tree with other queries in the place of its own, from left to right, and those that are left.
abbrev pub refill :
    ExecutableFilterTree → List RawIndexQuery → ExecutableFilterTree × List RawIndexQuery
refill (and a b) qs =
    let (a', rest) = refill a qs in let (b', rest') = refill b rest in (and a' b', rest')
refill (or a b) qs =
    let (a', rest) = refill a qs in let (b', rest') = refill b rest in (or a' b', rest')
refill (not a) qs = let (a', rest) = refill a qs in (not a', rest)
refill (filter_expr q) [] = (filter_expr q, [])
refill (filter_expr q) (p ∷ qs) = (filter_expr p, qs)

-- The tree with its queries in the opposite order.
abbrev pub opposite : ExecutableFilterTree → ExecutableFilterTree
opposite t = (refill t (reverse (leaves t))).0

extract_queries-leaves :
    (t : ExecutableFilterTree) (qs : List RawIndexQuery) → extract_queries t qs ≡ qs ++ leaves t
unfolding extract_queries
extract_queries-leaves (and a b) qs =
    extract_queries-leaves b (extract_queries a qs)
    ∙ ap (λ l. l ++ leaves b) (extract_queries-leaves a qs)
    ∙ append_assoc qs (leaves a) (leaves b)
extract_queries-leaves (or a b) qs =
    extract_queries-leaves b (extract_queries a qs)
    ∙ ap (λ l. l ++ leaves b) (extract_queries-leaves a qs)
    ∙ append_assoc qs (leaves a) (leaves b)
extract_queries-leaves (not a) qs = extract_queries-leaves a qs
extract_queries-leaves (filter_expr q) qs = refl

pop-append {ℓ} : {A : Type ℓ} (xs : List A) (x : A) → pop (xs ++ x ∷ []) ≡ some (xs, x)
pop-append [] x = refl
pop-append (y ∷ xs) x = rw (pop-append xs x) refl

-- A row with the document `d`, and the answers to the queries, which are documents of the column. A
-- column of numbers has the unsigned number of the document's bytes, the least significant one first.
pub record IsAnswered (ask : List RawIndexQuery → Run (List (List Bytes)))
    (h : Bytes → Bytes → Bool) (answer : RawIndexQuery → List Bytes) (column : Field) (n : ℕ)
    (row : String → Option SqlValue) (d : Bytes) : Type 0 where
  pub column_fits : FitsColumn column n
  pub document : IsDocument n d
  pub read : row column.name ≡ some (value_of (value_is_number column.data_type) d)
  pub asked : (qs : List RawIndexQuery) → ask qs ≡ returns (map answer qs)
  pub documents : (q : RawIndexQuery) → All (IsDocument n) (answer q)
  pub correct : (q : RawIndexQuery) → contains d (answer q) ≡ meets h q d

module _ (ask : List RawIndexQuery → Run (List (List Bytes))) (h : Bytes → Bytes → Bool)
    (answer : RawIndexQuery → List Bytes) (column : Field) (n : ℕ) (row : String → Option SqlValue)
    (d : Bytes) (ok : IsAnswered ask h answer column n row d) where
  abbrev pub Meaning : SqlExpr → ExecutableFilterTree → Type 0
  Meaning e t = eval_sql row e ≡ truth (meets_tree h t d)

  abbrev leaf_expr : RawIndexQuery → SqlExpr
  leaf_expr q =
      values_to_expr column.name (map (value_of (value_is_number column.data_type)) (answer q))

  -- The vector holds the answers to `qs`, the first one at its end.
  stack : List RawIndexQuery → List (List Bytes)
  stack qs = map answer (reverse qs)

  pop-stack :
      (q : RawIndexQuery) (qs : List RawIndexQuery)
      → pop (stack (q ∷ qs)) ≡ some (stack qs, answer q)
  unfolding stack
  pop-stack q qs =
      ap (λ l. pop (map answer l)) (reverse-cons q qs)
      ∙ ap pop (map-append answer (reverse qs) (q ∷ []))
      ∙ pop-append (stack qs) (answer q)

  to_expr-leaf :
      (p q : RawIndexQuery) (qs : List RawIndexQuery)
      → to_expr (filter_expr p) column (stack (q ∷ qs)) ≡ returns (leaf_expr q, stack qs)
  unfolding to_expr leaf_to_expr
  to_expr-leaf p q qs =
      ap (leaf_to_expr column) (pop-stack q qs)
      ∙ rw
          (document_values-map (value_is_number column.data_type) n ok.column_fits (answer q)
            (ok.documents q))
          refl

  leaf-Meaning : (q : RawIndexQuery) → Meaning (leaf_expr q) (filter_expr q)
  leaf-Meaning q =
      eval_sql-values_to_expr (value_is_number column.data_type) n ok.column_fits row column.name d
        ok.document ok.read (answer q) (ok.documents q)
      ∙ ap truth (ok.correct q)

  -- What `to_expr` makes of a tree, and the queries whose answers it leaves.
  abbrev Translates : ExecutableFilterTree → List RawIndexQuery → Type 0
  Translates t qs =
      (e : SqlExpr) × (to_expr t column (stack qs) ≡ returns (e, stack (refill t qs).1))
      × Meaning e (refill t qs).0
      × (length (refill t qs).1 + length (leaves t) ≡ length qs)

  to_expr-refill :
      (t : ExecutableFilterTree) (qs : List RawIndexQuery)
      → length (leaves t) ≤ length qs
      → Translates t qs
  unfolding to_expr
  to_expr-refill (and a b) qs enough =
      let count : length (leaves a ++ leaves b) ≡ length (leaves a) + length (leaves b) =
        length-append (leaves a) (leaves b) in
      let (l, run_l, means_l, left) = to_expr-refill a qs (omega arith) in
      let (r, run_r, means_r, left') = to_expr-refill b (refill a qs).1 (omega arith) in
      (
        and_expr l r,
        rw (run_l, run_r) refl,
        ap₂ and₃ means_l means_r ∙ truth-and (meets_tree h (refill a qs).0 d) _,
        omega arith,
      )
  to_expr-refill (or a b) qs enough =
      let count : length (leaves a ++ leaves b) ≡ length (leaves a) + length (leaves b) =
        length-append (leaves a) (leaves b) in
      let (l, run_l, means_l, left) = to_expr-refill a qs (omega arith) in
      let (r, run_r, means_r, left') = to_expr-refill b (refill a qs).1 (omega arith) in
      (
        or_expr l r,
        rw (run_l, run_r) refl,
        ap₂ or₃ means_l means_r ∙ truth-or (meets_tree h (refill a qs).0 d) _,
        omega arith,
      )
  to_expr-refill (not a) qs enough =
      let (e, run, means, left) = to_expr-refill a qs enough in
      (not_expr e, rw run refl, ap not₃ means ∙ truth-not (meets_tree h (refill a qs).0 d), left)
  to_expr-refill (filter_expr p) (q ∷ qs) enough =
      (leaf_expr q, to_expr-leaf p q qs, leaf-Meaning q, omega arith)
  to_expr-refill (filter_expr p) [] enough = absurd (omega arith)

  pub execute_filter_lem :
      (t : ExecutableFilterTree)
      → (e : SqlExpr) × (execute_filter ask column t ≡ returns e) × Meaning e (opposite t)
  unfolding execute_filter stack
  execute_filter_lem t =
      let (e, run, means, left) =
        to_expr-refill t (reverse (leaves t)) (omega (arith, length-reverse (leaves t))) in
      let results : map answer (extract_queries t []) ≡ map answer (reverse (reverse (leaves t))) =
        ap (map answer) (extract_queries-leaves t [] ∙ sym (reverse-reverse (leaves t))) in
      let returned : Run (SqlExpr × List (List Bytes)) → Run SqlExpr =
        λ r. r >>= λ x. returns x.0 in
      (
        e,
        ap (λ r. r >>= λ rs. returned (to_expr t column rs)) (ok.asked (extract_queries t []))
            ∙ ap (λ rs. returned (to_expr t column rs)) results
            ∙ ap returned run,
        means,
      )
