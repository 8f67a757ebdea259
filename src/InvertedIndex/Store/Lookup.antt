-- ===== src/InvertedIndex/Store/Lookup.antt =====
-- The pages of the terms of a query: `query_terms`, `query_pages` and `query` of `RawInvertedIndex`,
-- backends/mysql/src/metadata/indices/inverted_index/db_inverted_index.rs.
use secure_fusion.Prelude.{
  ℕ, suc, zero, ◌+◌, ◌<◌, Option, none, some, List, [], ◌∷◌, ◌++◌, map, take, Bool, true, false,
  ◌&&◌, ◌||◌, ◌==◌, if◌then◌else◌,
}
use secure_fusion.Prelude.Sets.{Bytes, same_bytes, contains, filter, get, set}
use secure_fusion.Run.{Run, returns, plan_error, exec_error, panics, ◌>>=◌}
use secure_fusion.InvertedIndex.{
  RawIndexQuery, ModificationsTable, collect_terms, check_max_lengths, evaluate,
}
use secure_fusion.InvertedIndex.Metadata.{MetadataPage, get_num_pages}
use secure_fusion.InvertedIndex.Pages.{TermPage, items}
use secure_fusion.InvertedIndex.Store.{
  page_tag, Ciphers, IndexTableRow, VersionedMetadataPage, CachedIndexState, or_error,
  load_metadata,
}
pub mod Tags
pub mod Results
pub mod Answers

abbrev pub tag_prefix_size : ℕ
tag_prefix_size = 4

-- `output.entry(kw).or_insert_with(Vec::new).extend_from_slice(ids)`
abbrev pub extend_entry : Bytes → List Bytes → List (Bytes × List Bytes) → List (Bytes × List Bytes)
extend_entry kw ids output = elim (get kw output) [
  | none ↦ set kw ids output
  | some old ↦ set kw (old ++ ids) output
]

abbrev pub keys : List (Bytes × Bytes) → List Bytes
keys [] = []
keys ((k, v) ∷ m) = k ∷ keys m

abbrev pub all_terms : List RawIndexQuery → List Bytes → List Bytes
all_terms [] terms = terms
all_terms (q ∷ qs) terms = all_terms qs (collect_terms q terms)

module _ {ℓ} {B : Type ℓ} (ciphers : Ciphers B) where
  -- `tag_msb IN (..) AND version = ..`; the column `tag_msb` has the first bytes of the tag.
  abbrev pub is_selected : List Bytes → ℕ → IndexTableRow B → Bool
  is_selected tags version row =
      contains (take tag_prefix_size row.tag) (map (take tag_prefix_size) tags)
      && (row.version == version)

  -- The rows of the answer; those whose tags only share a prefix are passed over.
  unfoldable pub decrypt_pages :
      List Bytes → ℕ → List (IndexTableRow B) → Run (List (Bytes × TermPage))
  decrypt_pages tags version [] = returns []
  decrypt_pages tags version (row ∷ rows) =
      let rest = decrypt_pages tags version rows in
      if contains row.tag tags
      then or_error (ciphers.decrypt_page version row.tag row.page)
        >>= (λ page. rest >>= (λ pages. returns ((row.tag, page) ∷ pages)))
      else rest

  unfoldable pub query_pages :
      List (IndexTableRow B) → List Bytes → ℕ → Run (List (Bytes × TermPage))
  query_pages rows [] version = returns []
  query_pages rows tags version =
      decrypt_pages tags version (filter (is_selected tags version) rows)

  -- `for page in 0..num_pages`, from `page` on.
  unfoldable pub add_tags :
      ℕ → Bytes → (page count : ℕ) → List (Bytes × Bytes) → List (Bytes × Bytes)
  add_tags version kw page zero tag_to_kw = tag_to_kw
  add_tags version kw page (suc count) tag_to_kw =
      add_tags version kw (page + 1) count (set (page_tag ciphers version kw page) kw tag_to_kw)

  -- The tags of all pages of the terms; a term with no page has no entry here, and its result is
  -- empty.
  unfoldable pub tags_of :
      VersionedMetadataPage
      → List Bytes
      → List (Bytes × Bytes)
      → List (Bytes × List Bytes)
      → List (Bytes × Bytes) × List (Bytes × List Bytes)
  tags_of m [] tag_to_kw output = (tag_to_kw, output)
  tags_of m (kw ∷ terms) tag_to_kw output =
      let num_pages = get_num_pages m.metadata kw in
      if num_pages == 0
      then tags_of m terms tag_to_kw (set kw [] output)
      else tags_of m terms (add_tags m.version kw 0 num_pages tag_to_kw) output

  -- `size` is the const parameter IdSize.
  unfoldable pub collect_pages :
      ℕ
      → List (Bytes × Bytes)
      → List (Bytes × TermPage)
      → List (Bytes × List Bytes)
      → Run (List (Bytes × List Bytes))
  collect_pages size tag_to_kw [] output = returns output
  collect_pages size tag_to_kw ((tag, page) ∷ pages) output = elim (get tag tag_to_kw) [
    | none ↦ panics
    | some kw ↦
        items size page >>= (λ ids. collect_pages size tag_to_kw pages (extend_entry kw ids output))
  ]

  unfoldable pub query_terms :
      ℕ
      → List (IndexTableRow B)
      → VersionedMetadataPage
      → List Bytes
      → Run (List (Bytes × List Bytes))
  query_terms size rows m terms =
      let (tag_to_kw, output) = tags_of m terms [] [] in
      do
        pages ← query_pages rows (keys tag_to_kw) m.version
        collect_pages size tag_to_kw pages output

  -- The results, once the cache is loaded.
  unfoldable pub query_loaded :
      ℕ → List (IndexTableRow B) → List RawIndexQuery → CachedIndexState → Run (List (List Bytes))
  query_loaded size rows queries cache = elim cache.metadata [
    | none ↦ panics
    | some m ↦
        let checked = map check_max_lengths queries in
        do
          results ← query_terms size rows m (all_terms checked [])
          elim cache.changes [
            | none ↦ panics
            | some c ↦ returns (map (evaluate results c.modifications) checked)
          ]
  ]

  abbrev pub with_cache :
      (CachedIndexState → Run (List (List Bytes)))
      → Option (Run CachedIndexState)
      → Option (Run (CachedIndexState × List (List Bytes)))
  with_cache f none = none
  with_cache f (some cached) =
      some (cached >>= (λ cache. f cache >>= (λ results. returns (cache, results))))

  -- `tables` are the tables that `load_metadata` reads, `rows` the one that has the pages. `none` is
  -- one query of the metadata more than there are tables.
  unfoldable pub query :
      ℕ
      → (tables : List (List (IndexTableRow B))) → (rows : List (IndexTableRow B))
      → List RawIndexQuery
      → CachedIndexState
      → Option (Run (CachedIndexState × List (List Bytes)))
  query size tables rows queries cache =
      with_cache (query_loaded size rows queries) (load_metadata ciphers tables cache)
