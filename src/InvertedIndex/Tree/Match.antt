-- ===== src/InvertedIndex/Tree/Match.antt =====
-- The query of MATCH .. AGAINST: `keyword_to_term` and the arm `KwMatch` of `parse_filter_tree` of
-- backends/mysql/src/metadata/indices/inverted_index/inverted_index.rs, from the keywords into which
-- the search string is split.
use secure_fusion.Prelude.{
  ℕ, Option, none, some, List, [], ◌∷◌, ◌==◌, Bool, true, false, if◌then◌else◌,
}
use secure_fusion.Prelude.Sets.{Bytes}
use secure_fusion.Run.{Run, returns, plan_error}
use secure_fusion.InvertedIndex.{RawIndexQuery, term, union, intersect, difference}
use secure_fusion.InvertedIndex.Tree.{ExecutableFilterTree, filter_expr}
pub mod Meaning

-- TERM_PREFIX_KEYWORD
abbrev pub term_prefix_keyword : ℕ
term_prefix_keyword = 48

abbrev pub keyword_to_term : Bytes → Bytes
keyword_to_term word = term_prefix_keyword ∷ word

-- A keyword by its prefix, `-` or `+`, which is stripped.
pub data Keyword : Type 0 where
  minus plus plain : Bytes → Keyword

unfoldable pub strip_prefix : Bytes → Keyword
strip_prefix [] = plain []
strip_prefix (c ∷ str) =
    if c == 45 then minus str else if c == 43 then plus str else plain (c ∷ str)

pub record MatchQueries : Type 0 where
  pub excluded : Option RawIndexQuery
  pub must_be_included : Option RawIndexQuery
  pub can_be_included : Option RawIndexQuery

abbrev pub join :
    (RawIndexQuery → RawIndexQuery → RawIndexQuery)
    → Option RawIndexQuery
    → RawIndexQuery
    → Option RawIndexQuery
join op none t = some t
join op (some initial) t = some (op initial t)

-- One keyword.
unfoldable pub add_keyword : Keyword → MatchQueries → MatchQueries
add_keyword (minus str) s = record s {
  excluded = join intersect s.excluded (term (keyword_to_term str));
}
add_keyword (plus str) s = record s {
  must_be_included = join intersect s.must_be_included (term (keyword_to_term str));
}
add_keyword (plain str) s = record s {
  can_be_included = join union s.can_be_included (term (keyword_to_term str));
}

unfoldable pub add_keywords : List Bytes → MatchQueries → MatchQueries
add_keywords [] s = s
add_keywords (keyword ∷ keywords) s = add_keywords keywords (add_keyword (strip_prefix keyword) s)

abbrev pub base : Option RawIndexQuery → Option RawIndexQuery → Run RawIndexQuery
base none none = plan_error
base none (some can) = returns can
base (some must) none = returns must
base (some must) (some can) = returns (intersect must can)

abbrev pub exclude : Option RawIndexQuery → Run RawIndexQuery → Run ExecutableFilterTree
exclude none (returns q) = returns (filter_expr q)
exclude (some gone) (returns q) = returns (filter_expr (difference q gone))
exclude _ _ = plan_error

abbrev pub no_queries : MatchQueries
no_queries = record { excluded = none; must_be_included = none; can_be_included = none }

-- The tree for the keywords of the search string.
unfoldable pub match_query : List Bytes → Run ExecutableFilterTree
match_query keywords =
    let s = add_keywords keywords no_queries in
    exclude s.excluded (base s.must_be_included s.can_be_included)
