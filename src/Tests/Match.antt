-- ===== src/Tests/Match.antt =====
-- MATCH .. AGAINST ('+a -b -c').
use secure_fusion.Prelude.{◌≡◌, refl, true, List, [], ◌∷◌, Bool, ◌&&◌, ◌||◌, flip}
use secure_fusion.Prelude.Sets.{Bytes}
use secure_fusion.Run.{returns}
use secure_fusion.InvertedIndex.{RawIndexQuery}
use secure_fusion.InvertedIndex.Modifications.{meets}
use secure_fusion.InvertedIndex.Tree.{filter_expr}
use secure_fusion.InvertedIndex.Tree.Match.{match_query, strip_prefix}
use secure_fusion.InvertedIndex.Tree.Match.Meaning.{
  has_minus, has_plus, has_plain, every_minus, every_plus, some_plain, match_query-meets,
}

abbrev keywords : List Bytes
keywords = (43 ∷ 97 ∷ []) ∷ (45 ∷ 98 ∷ []) ∷ (45 ∷ 99 ∷ []) ∷ []

keywords-has_plus : (has_plus keywords || has_plain keywords) ≡ true
unfolding strip_prefix
keywords-has_plus = refl

match_query-meets_example :
    (q : RawIndexQuery) × (match_query keywords ≡ returns (filter_expr q))
    × ((h : Bytes → Bytes → Bool) (x : Bytes)
        → meets h q x ≡ (
            (every_plus h x keywords && (flip (has_plain keywords) || some_plain h x keywords))
            && flip (has_minus keywords && every_minus h x keywords)))
match_query-meets_example = match_query-meets keywords keywords-has_plus
