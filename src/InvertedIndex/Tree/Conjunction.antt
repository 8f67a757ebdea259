-- ===== src/InvertedIndex/Tree/Conjunction.antt =====
-- Filters with no disjunction, which become one query of the index.
use secure_fusion.Prelude.{ℕ, String, Option, List, Bool, ◌≡◌, refl, ap, ◌∙◌, ◌⊎◌, inl, inr}
use secure_fusion.Prelude.Sets.{Bytes}
use secure_fusion.Run.{Run, returns}
use secure_fusion.Sql.{SqlValue, SqlExpr, eval_sql}
use secure_fusion.InvertedIndex.{RawIndexQuery, intersect, difference, union}
use secure_fusion.InvertedIndex.Tree.{
  ExecutableFilterTree, and, or, not, filter_expr, Field, simplify, simplify_and, simplify_not,
  execute_filter,
}
use secure_fusion.InvertedIndex.Tree.Simplify.{meets_tree, meets_tree-simplify}
use secure_fusion.InvertedIndex.Tree.Leaf.{truth}
use secure_fusion.InvertedIndex.Tree.Execute.{IsAnswered, execute_filter_lem, opposite}

abbrev pub HasNoOr : ExecutableFilterTree → Type 0
HasNoOr (and a b) = HasNoOr a × HasNoOr b
HasNoOr (or a b) = ⊥
HasNoOr (not a) = HasNoOr a
HasNoOr (filter_expr q) = Unit

-- One query, or the negation of one.
abbrev IsSingle : ExecutableFilterTree → Type 0
IsSingle t = (q : RawIndexQuery) × ((t ≡ filter_expr q) ⊎ (t ≡ not (filter_expr q)))

simplify_and-IsSingle :
    (a b : ExecutableFilterTree) → IsSingle a → IsSingle b → IsSingle (simplify_and a b)
unfolding simplify_and
simplify_and-IsSingle a b (p, inl ea) (q, inl eb) = (intersect p q, inl (rw (ea, eb) refl))
simplify_and-IsSingle a b (p, inr ea) (q, inl eb) = (difference q p, inl (rw (ea, eb) refl))
simplify_and-IsSingle a b (p, inl ea) (q, inr eb) = (difference p q, inl (rw (ea, eb) refl))
simplify_and-IsSingle a b (p, inr ea) (q, inr eb) = (union p q, inr (rw (ea, eb) refl))

simplify_not-IsSingle : (a : ExecutableFilterTree) → IsSingle a → IsSingle (simplify_not a)
unfolding simplify_not
simplify_not-IsSingle a (q, inl e) = (q, inr (rw e refl))
simplify_not-IsSingle a (q, inr e) = (q, inl (rw e refl))

simplify-IsSingle : (t : ExecutableFilterTree) → HasNoOr t → IsSingle (simplify t)
unfolding simplify
simplify-IsSingle (and a b) h =
    simplify_and-IsSingle (simplify a) (simplify b) (simplify-IsSingle a h.0)
      (simplify-IsSingle b h.1)
simplify-IsSingle (or a b) h = absurd h
simplify-IsSingle (not a) h = simplify_not-IsSingle (simplify a) (simplify-IsSingle a h)
simplify-IsSingle (filter_expr q) h = (q, inl refl)

opposite-IsSingle : (t : ExecutableFilterTree) → IsSingle t → opposite t ≡ t
opposite-IsSingle t (q, inl e) = rw e refl
opposite-IsSingle t (q, inr e) = rw e refl

-- The SQL filter that is sent for a filter on keywords with no disjunction keeps a row exactly if its
-- document meets the filter. Each query is answered with the documents that meet it, the documents
-- have the size of the identifier column, and a column of numbers has the unsigned number of the
-- document's bytes, so no negative one.
pub execute_filter-simplify_sound :
    (ask : List RawIndexQuery → Run (List (List Bytes))) (h : Bytes → Bytes → Bool)
    (answer : RawIndexQuery → List Bytes) (column : Field) (n : ℕ) (row : String → Option SqlValue)
    (d : Bytes)
    → IsAnswered ask h answer column n row d
    → (t : ExecutableFilterTree) → HasNoOr t
    → (e : SqlExpr) × (execute_filter ask column (simplify t) ≡ returns e)
      × (eval_sql row e ≡ truth (meets_tree h t d))
execute_filter-simplify_sound ask h answer column n row d ok t no_or =
    let (e, run, means) = execute_filter_lem ask h answer column n row d ok (simplify t) in
    (
      e,
      run,
      means
          ∙ ap (λ u. truth (meets_tree h u d))
              (opposite-IsSingle (simplify t) (simplify-IsSingle t no_or))
          ∙ ap truth (meets_tree-simplify h d t),
    )
