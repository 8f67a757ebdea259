-- ===== src/InvertedIndex/Tree/Match/Meaning.antt =====
-- Which documents meet the query of MATCH .. AGAINST.
use secure_fusion.Prelude.{
  Option, none, some, List, [], ◌∷◌, Bool, true, false, ◌&&◌, ◌||◌, flip, is_some, ◌≡◌, refl, ap,
  ap₂, ◌∙◌, arith,
}
use secure_fusion.Prelude.Sets.{Bytes}
use secure_fusion.Run.{returns}
use secure_fusion.InvertedIndex.{RawIndexQuery, term, intersect, union, difference}
use secure_fusion.InvertedIndex.Modifications.{meets}
use secure_fusion.InvertedIndex.Tree.{filter_expr}
use secure_fusion.InvertedIndex.Tree.Match.{
  keyword_to_term, Keyword, minus, plus, plain, strip_prefix, MatchQueries, join, add_keyword,
  add_keywords, base, exclude, no_queries, match_query,
}

-- Whether there is a keyword with the prefix, or with none.
abbrev pub has_minus : List Bytes → Bool
has_minus [] = false
has_minus (k ∷ ks) = elim (strip_prefix k) [
  | minus w ↦ true
  | plus w ↦ has_minus ks
  | plain w ↦ has_minus ks
]

abbrev pub has_plus : List Bytes → Bool
has_plus [] = false
has_plus (k ∷ ks) = elim (strip_prefix k) [
  | minus w ↦ has_plus ks
  | plus w ↦ true
  | plain w ↦ has_plus ks
]

abbrev pub has_plain : List Bytes → Bool
has_plain [] = false
has_plain (k ∷ ks) = elim (strip_prefix k) [
  | minus w ↦ has_plain ks
  | plus w ↦ has_plain ks
  | plain w ↦ true
]

is_some-join :
    (op : RawIndexQuery → RawIndexQuery → RawIndexQuery) (o : Option RawIndexQuery)
    (q : RawIndexQuery)
    → is_some (join op o q) ≡ (is_some o || true)
is_some-join op none q = refl
is_some-join op (some o) q = refl

and_assoc : (a b c : Bool) → ((a && b) && c) ≡ (a && (b && c))
and_assoc a b c = ground arith

or_assoc : (a b c : Bool) → ((a || b) || c) ≡ (a || (b || c))
or_assoc a b c = ground arith

or_true : (a b : Bool) → ((a || true) || b) ≡ (a || true)
or_true a b = ground arith

module _ (h : Bytes → Bytes → Bool) (x : Bytes) where
  -- Whether the document has every word with `-`, every one with `+`, and one with no prefix.
  abbrev pub every_minus : List Bytes → Bool
  every_minus [] = true
  every_minus (k ∷ ks) = elim (strip_prefix k) [
    | minus w ↦ h (keyword_to_term w) x && every_minus ks
    | plus w ↦ every_minus ks
    | plain w ↦ every_minus ks
  ]

  abbrev pub every_plus : List Bytes → Bool
  every_plus [] = true
  every_plus (k ∷ ks) = elim (strip_prefix k) [
    | minus w ↦ every_plus ks
    | plus w ↦ h (keyword_to_term w) x && every_plus ks
    | plain w ↦ every_plus ks
  ]

  abbrev pub some_plain : List Bytes → Bool
  some_plain [] = false
  some_plain (k ∷ ks) = elim (strip_prefix k) [
    | minus w ↦ some_plain ks
    | plus w ↦ some_plain ks
    | plain w ↦ h (keyword_to_term w) x || some_plain ks
  ]

  abbrev meets_or : Bool → Option RawIndexQuery → Bool
  meets_or b none = b
  meets_or b (some q) = meets h q x

  joined-intersect :
      (o : Option RawIndexQuery) (q : RawIndexQuery)
      → meets_or true (join intersect o q) ≡ (meets_or true o && meets h q x)
  joined-intersect none q = ground arith
  joined-intersect (some o) q = refl

  joined-union :
      (o : Option RawIndexQuery) (q : RawIndexQuery)
      → meets_or false (join union o q) ≡ (meets_or false o || meets h q x)
  joined-union none q = ground arith
  joined-union (some o) q = refl

  -- The loop, from any state.
  record IsJoined (ks : List Bytes) (s t : MatchQueries) : Type 0 where
    gone : meets_or true t.excluded ≡ (meets_or true s.excluded && every_minus ks)
    any_gone : is_some t.excluded ≡ (is_some s.excluded || has_minus ks)
    must : meets_or true t.must_be_included ≡ (meets_or true s.must_be_included && every_plus ks)
    any_must : is_some t.must_be_included ≡ (is_some s.must_be_included || has_plus ks)
    can : meets_or false t.can_be_included ≡ (meets_or false s.can_be_included || some_plain ks)
    any_can : is_some t.can_be_included ≡ (is_some s.can_be_included || has_plain ks)

  step-IsJoined :
      (k : Keyword) (keyword : Bytes) (ks : List Bytes) (s t : MatchQueries)
      → strip_prefix keyword ≡ k
      → IsJoined ks (add_keyword k s) t
      → IsJoined (keyword ∷ ks) s t
  unfolding add_keyword
  step-IsJoined (minus w) keyword ks s t e j = record {
    gone =
        rw (e, every_minus)
          (j.gone
            ∙ ap (λ b. b && every_minus ks) (joined-intersect s.excluded (term (keyword_to_term w)))
            ∙ and_assoc (meets_or true s.excluded) (h (keyword_to_term w) x) (every_minus ks));
    any_gone =
        rw (e, has_minus)
          (j.any_gone
            ∙ ap (λ b. b || has_minus ks)
                (is_some-join intersect s.excluded (term (keyword_to_term w)))
            ∙ or_true (is_some s.excluded) (has_minus ks));
    must = rw (e, every_plus) j.must;
    any_must = rw (e, has_plus) j.any_must;
    can = rw (e, some_plain) j.can;
    any_can = rw (e, has_plain) j.any_can;
  }
  step-IsJoined (plus w) keyword ks s t e j = record {
    gone = rw (e, every_minus) j.gone;
    any_gone = rw (e, has_minus) j.any_gone;
    must =
        rw (e, every_plus)
          (j.must
            ∙ ap (λ b. b && every_plus ks)
                (joined-intersect s.must_be_included (term (keyword_to_term w)))
            ∙ and_assoc (meets_or true s.must_be_included) (h (keyword_to_term w) x)
                (every_plus ks));
    any_must =
        rw (e, has_plus)
          (j.any_must
            ∙ ap (λ b. b || has_plus ks)
                (is_some-join intersect s.must_be_included (term (keyword_to_term w)))
            ∙ or_true (is_some s.must_be_included) (has_plus ks));
    can = rw (e, some_plain) j.can;
    any_can = rw (e, has_plain) j.any_can;
  }
  step-IsJoined (plain w) keyword ks s t e j = record {
    gone = rw (e, every_minus) j.gone;
    any_gone = rw (e, has_minus) j.any_gone;
    must = rw (e, every_plus) j.must;
    any_must = rw (e, has_plus) j.any_must;
    can =
        rw (e, some_plain)
          (j.can
            ∙ ap (λ b. b || some_plain ks)
                (joined-union s.can_be_included (term (keyword_to_term w)))
            ∙ or_assoc (meets_or false s.can_be_included) (h (keyword_to_term w) x)
                (some_plain ks));
    any_can =
        rw (e, has_plain)
          (j.any_can
            ∙ ap (λ b. b || has_plain ks)
                (is_some-join union s.can_be_included (term (keyword_to_term w)))
            ∙ or_true (is_some s.can_be_included) (has_plain ks));
  }

  add_keywords-IsJoined : (ks : List Bytes) (s : MatchQueries) → IsJoined ks s (add_keywords ks s)
  unfolding add_keywords
  add_keywords-IsJoined [] s = record {
    gone = ground arith;
    any_gone = ground arith;
    must = ground arith;
    any_must = ground arith;
    can = ground arith;
    any_can = ground arith;
  }
  add_keywords-IsJoined (k ∷ ks) s =
      step-IsJoined (strip_prefix k) k ks s (add_keywords ks (add_keyword (strip_prefix k) s)) refl
        (add_keywords-IsJoined ks (add_keyword (strip_prefix k) s))

  -- The document meets the query of the three parts.
  abbrev meets_parts : Option RawIndexQuery → Option RawIndexQuery → Option RawIndexQuery → Bool
  meets_parts gone must can =
      (meets_or true must && (flip (is_some can) || meets_or false can))
      && flip (is_some gone && meets_or true gone)

finished :
    (gone must can : Option RawIndexQuery)
    → (is_some must || is_some can) ≡ true
    → (q : RawIndexQuery) × (exclude gone (base must can) ≡ returns (filter_expr q))
      × ((h : Bytes → Bytes → Bool) (x : Bytes) → meets h q x ≡ meets_parts h x gone must can)
finished none none none e = absurd (ground (arith, e))
finished (some g) none none e = absurd (ground (arith, e))
finished none none (some c) e = (c, refl, λ h x. ground arith)
finished none (some m) none e = (m, refl, λ h x. ground arith)
finished none (some m) (some c) e = (intersect m c, refl, λ h x. ground arith)
finished (some g) none (some c) e = (difference c g, refl, λ h x. ground arith)
finished (some g) (some m) none e = (difference m g, refl, λ h x. ground arith)
finished (some g) (some m) (some c) e = (difference (intersect m c) g, refl, λ h x. ground arith)

-- The query of MATCH .. AGAINST has each document that has every word with `+` and, where there are
-- words with no prefix, one of them, but those that have every word with `-`. There is a word with
-- `+` or with no prefix.
pub match_query-meets :
    (ks : List Bytes)
    → (has_plus ks || has_plain ks) ≡ true
    → (q : RawIndexQuery) × (match_query ks ≡ returns (filter_expr q))
      × ((h : Bytes → Bytes → Bool) (x : Bytes)
          → meets h q x ≡ (
              (every_plus h x ks && (flip (has_plain ks) || some_plain h x ks))
              && flip (has_minus ks && every_minus h x ks)))
unfolding match_query
match_query-meets ks words =
    let s : MatchQueries = add_keywords ks no_queries in
    let nowhere : IsJoined (λ t x. false) [] ks no_queries s =
      add_keywords-IsJoined (λ t x. false) [] ks no_queries in
    let given : (is_some s.must_be_included || is_some s.can_be_included) ≡ true =
      ap₂ ◌||◌ nowhere.any_must nowhere.any_can ∙ words in
    let (q, run, means) = finished s.excluded s.must_be_included s.can_be_included given in
    (
      q,
      run,
      λ h x.
          let j : IsJoined h x ks no_queries s = add_keywords-IsJoined h x ks no_queries in
          means h x ∙ rw (j.gone, j.any_gone, j.must, j.can, j.any_can) refl,
    )
