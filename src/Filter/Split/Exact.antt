-- ===== src/Filter/Split/Exact.antt =====
-- When the two parts of a split filter together say what the filter says.
use secure_fusion.Prelude.{
  Bool, true, false, Option, none, some, ◌≡◌, refl, sym, ap, ap₂, ◌∙◌, ◌&&◌, ◌||◌, is_some, is_none,
  flip, arith, Bool-cases, Option-cases, inl, inr,
}
use secure_fusion.Truth.{Truth, and₃, or₃, not₃, and₃-holds, and₃_swap, or₃-and₃, and₃-or₃}
use secure_fusion.Statistics.{Estimates, TableStatistics}
use secure_fusion.Filter.{IndexableFilterExpr, and, or, not}
use secure_fusion.Filter.Meaning.{Row, eval, eval_opt}
use secure_fusion.Filter.Split.{
  SupportOptions, Parts, recombine, split_and, split_or, split_not, split,
}

-- What both parts of a result say together.
abbrev pub eval_parts {ℓ} : {E : Type ℓ} {P : Type 0} → Row E → Parts E P → Truth
eval_parts row p = and₃ (eval_opt row p.supported) (eval_opt row p.unsupported)

module _ {ℓ} {E : Type ℓ} (row : Row E) where
  recombine-and :
      (a b : Option (IndexableFilterExpr E))
      → eval_opt row (recombine a b and) ≡ and₃ (eval_opt row a) (eval_opt row b)
  recombine-and none none = refl
  recombine-and none (some b) = refl
  recombine-and (some a) none = sym (and₃-holds (eval row a))
  recombine-and (some a) (some b) = refl

module _ {ℓ} {E : Type ℓ} {P : Type 0} where
  -- The whole filter is supported, none of it is, and some of it is.
  abbrev pub is_whole : Parts E P → Bool
  is_whole p = is_some p.supported && is_none p.unsupported

  abbrev pub is_rest : Parts E P → Bool
  is_rest p = is_none p.supported && is_some p.unsupported

  abbrev pub is_mixed : Parts E P → Bool
  is_mixed p = is_some p.supported && is_some p.unsupported

  -- One side is supported as a whole, and the other not at all.
  abbrev pub are_opposed : Parts E P → Parts E P → Bool
  are_opposed l r = is_whole l && is_rest r || is_rest l && is_whole r

  abbrev pub is_nonempty : Parts E P → Bool
  is_nonempty p = is_some p.supported || is_some p.unsupported

  abbrev pub parts : Option (IndexableFilterExpr E) → Option (IndexableFilterExpr E) → P → Parts E P
  parts s u n = record { supported = s; unsupported = u; selectivity = n }

  module _ (row : Row E) where
    module _ (ops : Estimates P) (stats : TableStatistics P) where
      pub split_and_exact :
          (l r : Parts E P)
          → eval_parts row (split_and ops l r) ≡ and₃ (eval_parts row l) (eval_parts row r)
      unfolding split_and
      split_and_exact l r =
          ap₂ and₃ (recombine-and row l.supported r.supported)
            (recombine-and row l.unsupported r.unsupported)
          ∙ and₃_swap (eval_opt row l.supported) (eval_opt row r.supported)
              (eval_opt row l.unsupported) (eval_opt row r.unsupported)

      -- The sixteen shapes of two results, of which five do not occur.
      split_or_cases :
          (s1 u1 s2 u2 : Option (IndexableFilterExpr E)) (n1 n2 : P)
          → is_nonempty (parts s1 u1 n1) ≡ true
          → is_nonempty (parts s2 u2 n2) ≡ true
          → are_opposed (parts s1 u1 n1) (parts s2 u2 n2) ≡ false
          → eval_parts row (split_or ops stats (parts s1 u1 n1) (parts s2 u2 n2))
            ≡ or₃ (eval_parts row (parts s1 u1 n1)) (eval_parts row (parts s2 u2 n2))
      unfolding split_or
      split_or_cases none none s2 u2 n1 n2 hl hr ho = cc
      split_or_cases (some a) u1 none none n1 n2 hl hr ho = cc
      split_or_cases none (some b) none none n1 n2 hl hr ho = cc
      split_or_cases (some a) none (some c) none n1 n2 hl hr ho = simp and₃-holds
      split_or_cases (some a) none (some c) (some d) n1 n2 hl hr ho = simp (and₃-holds, or₃-and₃)
      split_or_cases (some a) none none (some d) n1 n2 hl hr ho = cc
      split_or_cases (some a) (some b) (some c) none n1 n2 hl hr ho = simp (and₃-holds, and₃-or₃)
      split_or_cases (some a) (some b) (some c) (some d) n1 n2 hl hr ho = refl
      split_or_cases (some a) (some b) none (some d) n1 n2 hl hr ho = refl
      split_or_cases none (some b) (some c) none n1 n2 hl hr ho = cc
      split_or_cases none (some b) (some c) (some d) n1 n2 hl hr ho = refl
      split_or_cases none (some b) none (some d) n1 n2 hl hr ho = refl

      pub split_or_exact :
          (l r : Parts E P)
          → is_nonempty l ≡ true
          → is_nonempty r ≡ true
          → are_opposed l r ≡ false
          → eval_parts row (split_or ops stats l r) ≡ or₃ (eval_parts row l) (eval_parts row r)
      split_or_exact l r =
          split_or_cases l.supported l.unsupported r.supported r.unsupported l.selectivity
            r.selectivity

      split_not_cases :
          (s u : Option (IndexableFilterExpr E)) (n : P)
          → is_nonempty (parts s u n) ≡ true
          → is_mixed (parts s u n) ≡ false
          → eval_parts row (split_not ops stats (parts s u n)) ≡ not₃ (eval_parts row (parts s u n))
      unfolding split_not
      split_not_cases none none n h m = cc
      split_not_cases (some a) none n h m = simp and₃-holds
      split_not_cases none (some b) n h m = refl
      split_not_cases (some a) (some b) n h m = cc

      pub split_not_exact :
          (p : Parts E P)
          → is_nonempty p ≡ true
          → is_mixed p ≡ false
          → eval_parts row (split_not ops stats p) ≡ not₃ (eval_parts row p)
      split_not_exact p = split_not_cases p.supported p.unsupported p.selectivity

  -- The contract of the split: one of the two parts is there.
  module _ (ops : Estimates P) (stats : TableStatistics P) where
    split_and-is_nonempty :
        (l r : Parts E P) → is_nonempty l ≡ true → is_nonempty (split_and ops l r) ≡ true
    unfolding split_and
    split_and-is_nonempty l r h = ground arith

    split_or-is_nonempty :
        (l r : Parts E P)
        → is_nonempty l ≡ true
        → is_nonempty r ≡ true
        → is_nonempty (split_or ops stats l r) ≡ true
    unfolding split_or
    split_or-is_nonempty l r h k = ground arith

    split_not-is_nonempty :
        (p : Parts E P) → is_nonempty p ≡ true → is_nonempty (split_not ops stats p) ≡ true
    unfolding split_not
    split_not-is_nonempty p h = ground arith

    module _ (options : SupportOptions E P) where
      pub split-is_nonempty :
          (f : IndexableFilterExpr E) → is_nonempty (split ops options stats f) ≡ true
      unfolding split
      split-is_nonempty (and l r) = elim (Option-cases (options.is_supported (and l r) stats)) [
        | inl no_index ↦ rw (no_index, split) (split_and-is_nonempty _ _ (split-is_nonempty l))
        | inr (n, index) ↦ rw (index, split)
      ]
      split-is_nonempty (or l r) = elim (Option-cases (options.is_supported (or l r) stats)) [
        | inl no_index ↦
            rw (no_index, split)
              (elim (Bool-cases options.supports_or) [
                | inl e ↦
                    rw e (split_or-is_nonempty _ _ (split-is_nonempty l) (split-is_nonempty r))
                | inr e ↦ rw e
              ])
        | inr (n, index) ↦ rw (index, split)
      ]
      split-is_nonempty (not e) = elim (Option-cases (options.is_supported (not e) stats)) [
        | inl no_index ↦
            rw (no_index, split)
              (elim (Bool-cases options.supports_not) [
                | inl b ↦ rw b (split_not-is_nonempty _ (split-is_nonempty e))
                | inr b ↦ rw b
              ])
        | inr (n, index) ↦ rw (index, split)
      ]
      split-is_nonempty f = elim (Option-cases (options.is_supported f stats)) [
        | inl no_index ↦ rw (no_index, split)
        | inr (n, index) ↦ rw (index, split)
      ]

      -- At each disjunction that is split the sides are not opposed, and at each negation that is
      -- split the body is not mixed.
      unfoldable pub is_separable : IndexableFilterExpr E → Bool
      is_separable (and l r) =
          is_some (options.is_supported (and l r) stats) || is_separable l && is_separable r
      is_separable (or l r) =
          is_some (options.is_supported (or l r) stats)
          || flip options.supports_or
          || is_separable l
            && is_separable r
            && flip (are_opposed (split ops options stats l) (split ops options stats r))
      is_separable (not e) =
          is_some (options.is_supported (not e) stats)
          || flip options.supports_not
          || is_separable e && flip (is_mixed (split ops options stats e))
      is_separable f = true

      module _ (row : Row E) where
        -- The two parts of a separable filter say together what the filter says, of each row.
        pub split_exact :
            (f : IndexableFilterExpr E)
            → is_separable f ≡ true
            → eval_parts row (split ops options stats f) ≡ eval row f
        unfolding split is_separable
        split_exact (and l r) h = elim (Option-cases (options.is_supported (and l r) stats)) [
          | inl no_index ↦
              rw (no_index, split)
                (split_and_exact row ops stats _ _
                  ∙ ap₂ and₃ (split_exact l (ground arith)) (split_exact r (ground arith)))
          | inr (n, index) ↦ rw (index, split) (and₃-holds _)
        ]
        split_exact (or l r) h = elim (Option-cases (options.is_supported (or l r) stats)) [
          | inl no_index ↦
              rw (no_index, split)
                (elim (Bool-cases options.supports_or) [
                  | inl e ↦ rw e (
                      split_or_exact row ops stats _ _ (split-is_nonempty l) (split-is_nonempty r)
                        (ground arith)
                      ∙ ap₂ or₃ (split_exact l (ground arith)) (split_exact r (ground arith)))
                  | inr e ↦ rw e
                ])
          | inr (n, index) ↦ rw (index, split) (and₃-holds _)
        ]
        split_exact (not f) h = elim (Option-cases (options.is_supported (not f) stats)) [
          | inl no_index ↦
              rw (no_index, split)
                (elim (Bool-cases options.supports_not) [
                  | inl e ↦ rw e (
                      split_not_exact row ops stats _ (split-is_nonempty f) (ground arith)
                      ∙ ap not₃ (split_exact f (ground arith)))
                  | inr e ↦ rw e
                ])
          | inr (n, index) ↦ rw (index, split) (and₃-holds _)
        ]
        split_exact f h = elim (Option-cases (options.is_supported f stats)) [
          | inl no_index ↦ rw (no_index, split)
          | inr (n, index) ↦ rw (index, split) (and₃-holds _)
        ]
