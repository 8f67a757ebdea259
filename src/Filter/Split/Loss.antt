-- ===== src/Filter/Split/Loss.antt =====
-- The filters whose split excludes rows that the filter keeps: a disjunction with one side supported
-- and the other not, and the negation of a filter that is supported in part.
use secure_fusion.Prelude.{true, none, some, ◌≡◌, arith}
use secure_fusion.Truth.{holds, fails, and₃-holds}
use secure_fusion.Statistics.{Estimates, TableStatistics}
use secure_fusion.Filter.{IndexableFilterExpr, or, not}
use secure_fusion.Filter.Meaning.{Row, eval, eval_opt}
use secure_fusion.Filter.Split.{SupportOptions, Parts, split_or, split_not, split}
use secure_fusion.Filter.Split.Exact.{is_separable, split_exact}

module _ {ℓ} {E : Type ℓ} {P : Type 0} (ops : Estimates P) (stats : TableStatistics P) where
  split_or-opposed :
      (l r : Parts E P) (s u : IndexableFilterExpr E)
      → l.supported ≡ some s
      → l.unsupported ≡ none
      → r.supported ≡ none
      → r.unsupported ≡ some u
      → (split_or ops stats l r).supported ≡ some s
  unfolding split_or
  split_or-opposed l r s u ls lu rs ru = ground arith

  module _ (options : SupportOptions E P) where
    split-or :
        (l r : IndexableFilterExpr E)
        → options.is_supported (or l r) stats ≡ none
        → options.supports_or ≡ true
        → split ops options stats (or l r)
          ≡ split_or ops stats (split ops options stats l) (split ops options stats r)
    unfolding split
    split-or l r e b = ground arith

    split-not :
        (f : IndexableFilterExpr E)
        → options.is_supported (not f) stats ≡ none
        → options.supports_not ≡ true
        → split ops options stats (not f) ≡ split_not ops stats (split ops options stats f)
    unfolding split
    split-not f e b = ground arith

  split_not-supported :
      (p : Parts E P) (s : IndexableFilterExpr E)
      → p.supported ≡ some s
      → (split_not ops stats p).supported ≡ some (not s)
  unfolding split_not
  split_not-supported p s h = ground arith

  module _ (options : SupportOptions E P) (row : Row E) where
    -- A disjunction, split, of a side that is supported and a side that is not: a row that meets the
    -- second side alone meets the filter, and the supported part excludes it.
    pub split-or_loses :
        (l r s u : IndexableFilterExpr E)
        → options.is_supported (or l r) stats ≡ none
        → options.supports_or ≡ true
        → is_separable ops stats options l ≡ true
        → (split ops options stats l).supported ≡ some s
        → (split ops options stats l).unsupported ≡ none
        → (split ops options stats r).supported ≡ none
        → (split ops options stats r).unsupported ≡ some u
        → eval row l ≡ fails
        → eval row r ≡ holds
        → (eval row (or l r) ≡ holds)
          × (eval_opt row (split ops options stats (or l r)).supported ≡ fails)
    split-or_loses l r s u e b sep ls lu rs ru fl hr = (
      rw (fl, hr),
      rw (split-or options l r e b) (
          rw
            (split_or-opposed (split ops options stats l) (split ops options stats r) s u ls lu rs
              ru)
            (ground (arith, split_exact ops stats options row l sep, and₃-holds (eval row s)))),
    )

    -- A negation, split, of a filter that is supported in part: a row that meets the supported part
    -- of the filter and not the rest meets the negation, and the supported part excludes it.
    pub split-not_loses :
        (f s u : IndexableFilterExpr E)
        → options.is_supported (not f) stats ≡ none
        → options.supports_not ≡ true
        → is_separable ops stats options f ≡ true
        → (split ops options stats f).supported ≡ some s
        → (split ops options stats f).unsupported ≡ some u
        → eval row s ≡ holds
        → eval row u ≡ fails
        → (eval row (not f) ≡ holds)
          × (eval_opt row (split ops options stats (not f)).supported ≡ fails)
    split-not_loses f s u e b sep fs fu hs hu = (
      ground (arith, split_exact ops stats options row f sep),
      rw (split-not options f e b)
          (rw (split_not-supported (split ops options stats f) s fs) (rw hs)),
    )
