-- ===== src/Filter/Negation.antt =====
-- `pushup_not` and `pushdown_not` of backends/mysql/src/filtering/indexable_filter.rs.
use secure_fusion.Prelude.{Bool, true, false, ◌&&◌, ◌≡◌, refl, sym, ap, ap₂, ◌∙◌, arith}
use secure_fusion.Truth.{holds, fails, and₃, or₃, not₃, not₃-and₃, not₃-or₃, not₃_twice}
use secure_fusion.Filter.{IndexableFilterExpr, and, or, not}
use secure_fusion.Filter.Meaning.{Row, eval}

module _ {ℓ} {E : Type ℓ} where
  -- The inner matches of `pushup_not`, one for each connective.
  pushup_and : IndexableFilterExpr E → IndexableFilterExpr E → IndexableFilterExpr E
  pushup_and (not l) (not r) = not (or l r)
  pushup_and l r = and l r

  pushup_or : IndexableFilterExpr E → IndexableFilterExpr E → IndexableFilterExpr E
  pushup_or (not l) (not r) = not (and l r)
  pushup_or l r = and l r

  pushup_negation : IndexableFilterExpr E → IndexableFilterExpr E
  pushup_negation (not e) = e
  pushup_negation e = not e

  unfoldable pub pushup_not : IndexableFilterExpr E → IndexableFilterExpr E
  unfolding pushup_and pushup_or pushup_negation
  pushup_not (and l r) = pushup_and (pushup_not l) (pushup_not r)
  pushup_not (or l r) = pushup_or (pushup_not l) (pushup_not r)
  pushup_not (not e) = pushup_negation (pushup_not e)
  pushup_not e = e

  -- The inner match of `pushdown_not`.
  pushdown_negation : IndexableFilterExpr E → IndexableFilterExpr E
  pushdown_negation (and l r) = or (not l) (not r)
  pushdown_negation (or l r) = and (not l) (not r)
  pushdown_negation (not e) = e
  pushdown_negation e = not e

  unfoldable pub pushdown_not : IndexableFilterExpr E → IndexableFilterExpr E
  unfolding pushdown_negation
  pushdown_not (not e) = pushdown_negation (pushdown_not e)
  pushdown_not (and l r) = and (pushdown_not l) (pushdown_not r)
  pushdown_not (or l r) = or (pushdown_not l) (pushdown_not r)
  pushdown_not e = e

  abbrev pub is_negation : IndexableFilterExpr E → Bool
  is_negation (not e) = true
  is_negation e = false

  -- At each disjunction that `pushup_not` meets, both sides have become negations.
  unfoldable pub is_pairable : IndexableFilterExpr E → Bool
  is_pairable (or l r) =
      is_pairable l && is_pairable r && is_negation (pushup_not l) && is_negation (pushup_not r)
  is_pairable (and l r) = is_pairable l && is_pairable r
  is_pairable (not e) = is_pairable e
  is_pairable e = true

  module _ (row : Row E) where
    eval-pushdown_negation :
        (e : IndexableFilterExpr E) → eval row (pushdown_negation e) ≡ not₃ (eval row e)
    unfolding pushdown_negation
    eval-pushdown_negation (and l r) = sym (not₃-and₃ _ _)
    eval-pushdown_negation (or l r) = sym (not₃-or₃ _ _)
    eval-pushdown_negation (not e) = sym (not₃_twice _)
    eval-pushdown_negation e = refl

    -- Pushing negations down keeps the value of a filter, at every row.
    pub eval-pushdown_not : (f : IndexableFilterExpr E) → eval row (pushdown_not f) ≡ eval row f
    unfolding pushdown_not
    eval-pushdown_not (not e) =
        eval-pushdown_negation (pushdown_not e) ∙ ap not₃ (eval-pushdown_not e)
    eval-pushdown_not (and l r) = ap₂ and₃ (eval-pushdown_not l) (eval-pushdown_not r)
    eval-pushdown_not (or l r) = ap₂ or₃ (eval-pushdown_not l) (eval-pushdown_not r)
    eval-pushdown_not e = refl

    eval-pushup_and :
        (l r : IndexableFilterExpr E) → eval row (pushup_and l r) ≡ and₃ (eval row l) (eval row r)
    unfolding pushup_and
    eval-pushup_and (not l) (not r) = not₃-or₃ _ _
    eval-pushup_and l r = refl

    eval-pushup_or :
        (l r : IndexableFilterExpr E)
        → is_negation l ≡ true
        → is_negation r ≡ true
        → eval row (pushup_or l r) ≡ or₃ (eval row l) (eval row r)
    unfolding pushup_or
    eval-pushup_or (not l) (not r) h k = not₃-and₃ _ _
    eval-pushup_or l r h k = cc

    eval-pushup_negation :
        (e : IndexableFilterExpr E) → eval row (pushup_negation e) ≡ not₃ (eval row e)
    unfolding pushup_negation
    eval-pushup_negation (not e) = sym (not₃_twice _)
    eval-pushup_negation e = refl

    -- Pulling negations up keeps the value of a pairable filter, at every row.
    pub eval-pushup_not :
        (f : IndexableFilterExpr E) → is_pairable f ≡ true → eval row (pushup_not f) ≡ eval row f
    unfolding pushup_not is_pairable
    eval-pushup_not (or l r) h =
        eval-pushup_or (pushup_not l) (pushup_not r) (ground arith) (ground arith)
        ∙ ap₂ or₃ (eval-pushup_not l (ground arith)) (eval-pushup_not r (ground arith))
    eval-pushup_not (and l r) h =
        eval-pushup_and (pushup_not l) (pushup_not r)
        ∙ ap₂ and₃ (eval-pushup_not l (ground arith)) (eval-pushup_not r (ground arith))
    eval-pushup_not (not e) h = eval-pushup_negation (pushup_not e) ∙ ap not₃ (eval-pushup_not e h)
    eval-pushup_not e h = refl

    pushup_or-unpaired :
        (l r : IndexableFilterExpr E) → is_negation l ≡ false → pushup_or l r ≡ and l r
    unfolding pushup_or
    pushup_or-unpaired (not l) r h = cc
    pushup_or-unpaired l r h = refl

    -- A disjunction whose left side does not become a negation becomes a conjunction: a row that
    -- meets the left side alone meets the filter, and not its rewriting.
    pub pushup_not-or_loses :
        (l r : IndexableFilterExpr E)
        → is_pairable l ≡ true
        → is_pairable r ≡ true
        → is_negation (pushup_not l) ≡ false
        → eval row l ≡ holds
        → eval row r ≡ fails
        → (eval row (or l r) ≡ holds) × (eval row (pushup_not (or l r)) ≡ fails)
    unfolding pushup_not
    pushup_not-or_loses l r pl pr n hl fr = (
      rw hl,
      rw (pushup_or-unpaired _ (pushup_not r) n, eval-pushup_not l pl, eval-pushup_not r pr, hl) fr,
    )
