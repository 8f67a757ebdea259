-- ===== src/InvertedIndex/Tree/Simplify.antt =====
-- What the simplification of a tree of queries keeps.
use secure_fusion.Prelude.{Bool, ◌&&◌, ◌||◌, flip, ◌≡◌, refl, ap, ap₂, ◌∙◌, arith}
use secure_fusion.Prelude.Sets.{Bytes}
use secure_fusion.InvertedIndex.Modifications.{meets}
use secure_fusion.InvertedIndex.Tree.{
  ExecutableFilterTree, and, or, not, filter_expr, simplify, simplify_and, simplify_not,
}

-- Whether a document meets a tree, for an index that has the documents `h t x` under its terms.
abbrev pub meets_tree : (Bytes → Bytes → Bool) → ExecutableFilterTree → Bytes → Bool
meets_tree h (and a b) x = meets_tree h a x && meets_tree h b x
meets_tree h (or a b) x = meets_tree h a x || meets_tree h b x
meets_tree h (not a) x = flip (meets_tree h a x)
meets_tree h (filter_expr q) x = meets h q x

module _ (h : Bytes → Bytes → Bool) (x : Bytes) where
  meets_tree-simplify_and :
      (a b : ExecutableFilterTree)
      → meets_tree h (simplify_and a b) x ≡ (meets_tree h a x && meets_tree h b x)
  unfolding simplify_and
  meets_tree-simplify_and (filter_expr a) (filter_expr b) = refl
  meets_tree-simplify_and (not (filter_expr a)) (filter_expr b) = ground arith
  meets_tree-simplify_and (filter_expr a) (not (filter_expr b)) = refl
  meets_tree-simplify_and (not (filter_expr a)) (not (filter_expr b)) = ground arith
  meets_tree-simplify_and _ _ = refl

  meets_tree-simplify_not :
      (a : ExecutableFilterTree) → meets_tree h (simplify_not a) x ≡ flip (meets_tree h a x)
  unfolding simplify_not
  meets_tree-simplify_not (not a) = ground arith
  meets_tree-simplify_not _ = refl

  -- A document meets the simplified tree exactly if it meets the tree.
  pub meets_tree-simplify :
      (t : ExecutableFilterTree) → meets_tree h (simplify t) x ≡ meets_tree h t x
  unfolding simplify
  meets_tree-simplify (and a b) =
      meets_tree-simplify_and (simplify a) (simplify b)
      ∙ ap₂ ◌&&◌ (meets_tree-simplify a) (meets_tree-simplify b)
  meets_tree-simplify (or a b) = ap₂ ◌||◌ (meets_tree-simplify a) (meets_tree-simplify b)
  meets_tree-simplify (not a) =
      meets_tree-simplify_not (simplify a) ∙ ap flip (meets_tree-simplify a)
  meets_tree-simplify (filter_expr q) = refl
