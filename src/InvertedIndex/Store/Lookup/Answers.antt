-- ===== src/InvertedIndex/Store/Lookup/Answers.antt =====
-- What `RawInvertedIndex::query` answers, from the pages and the modifications of the database.
use secure_fusion.Prelude.{
  ℕ, some, List, [], ◌∷◌, map, Bool, true, ◌&&◌, ◌||◌, flip, ◌≡◌, refl, ap, ap₂, ◌∙◌, All, arith,
}
use secure_fusion.Prelude.Sets.{
  Bytes, same_bytes, contains, filter, contains-insert, same_bytes_refl,
}
use secure_fusion.Run.{returns}
use secure_fusion.InvertedIndex.{
  RawIndexQuery, intersect, difference, union, term, collect_terms, check_max_lengths, evaluate,
}
use secure_fusion.InvertedIndex.Modifications.{lists, has, meets, contains-evaluate}
use secure_fusion.InvertedIndex.Store.{
  Ciphers, IndexTableRow, VersionedMetadataPage, VersionedModificationsTable, CachedIndexState,
}
use secure_fusion.InvertedIndex.Store.Load.{IsPublished, IsBehind, load_metadata-synchronised}
use secure_fusion.InvertedIndex.Store.Entries.{
  Entry, in_entries, index_has, IsCovered, AreKnown, HasDistinctTags, AreStored, is_page,
}
use secure_fusion.InvertedIndex.Store.Lookup.{all_terms, with_cache, query_loaded, query}
use secure_fusion.InvertedIndex.Metadata.{get_num_pages}
use secure_fusion.InvertedIndex.Store.Lookup.Results.{query_terms-entries}

-- Whether a query has the term.
abbrev pub mentions : RawIndexQuery → Bytes → Bool
mentions (term u) t = same_bytes t u
mentions (union a b) t = mentions a t || mentions b t
mentions (difference a b) t = mentions a t || mentions b t
mentions (intersect a b) t = mentions a t || mentions b t

contains-collect_terms :
    (t : Bytes) (q : RawIndexQuery) (out : List Bytes)
    → contains t (collect_terms q out) ≡ (mentions q t || contains t out)
unfolding collect_terms
contains-collect_terms t (term u) out = contains-insert t u out
contains-collect_terms t (union a b) out =
    ground (arith, contains-collect_terms t b (collect_terms a out), contains-collect_terms t a out)
contains-collect_terms t (difference a b) out =
    ground (arith, contains-collect_terms t b (collect_terms a out), contains-collect_terms t a out)
contains-collect_terms t (intersect a b) out =
    ground (arith, contains-collect_terms t b (collect_terms a out), contains-collect_terms t a out)

kept-all_terms :
    (t : Bytes) (qs : List RawIndexQuery) (out : List Bytes)
    → contains t out ≡ true
    → contains t (all_terms qs out) ≡ true
kept-all_terms t [] out h = h
kept-all_terms t (q ∷ qs) out h =
    kept-all_terms t qs (collect_terms q out) (contains-collect_terms t q out ∙ ground arith)

mentioned-all_terms :
    (qs : List RawIndexQuery) (out : List Bytes)
    → All (λ q. (t : Bytes) → mentions q t ≡ true → contains t (all_terms qs out) ≡ true) qs
mentioned-all_terms [] out = tt
mentioned-all_terms (q ∷ qs) out = (
  λ t h. kept-all_terms t qs (collect_terms q out) (contains-collect_terms t q out ∙ ground arith),
  mentioned-all_terms qs (collect_terms q out),
)

-- A query reads the index at its own terms alone.
pub meets-agree :
    (h k : Bytes → Bytes → Bool) (x : Bytes) (q : RawIndexQuery)
    → ((t : Bytes) → mentions q t ≡ true → h t x ≡ k t x)
    → meets h q x ≡ meets k q x
meets-agree h k x (term u) agree = agree u (same_bytes_refl u)
meets-agree h k x (union a b) agree =
    ap₂ ◌||◌ (meets-agree h k x a (λ t e. agree t (ground arith)))
      (meets-agree h k x b (λ t e. agree t (ground arith)))
meets-agree h k x (difference a b) agree =
    ap₂ (λ u v. u && flip v) (meets-agree h k x a (λ t e. agree t (ground arith)))
      (meets-agree h k x b (λ t e. agree t (ground arith)))
meets-agree h k x (intersect a b) agree =
    ap₂ ◌&&◌ (meets-agree h k x a (λ t e. agree t (ground arith)))
      (meets-agree h k x b (λ t e. agree t (ground arith)))

pub All-map {ℓ κ} :
    {A : Type ℓ} {P Q : A → Type κ} (xs : List A) → ((x : A) → P x → Q x) → All P xs → All Q xs
All-map [] f h = tt
All-map (x ∷ xs) f h = (f x h.0, All-map xs f h.1)

All-of-map :
    (P : RawIndexQuery → Type 0) (f : RawIndexQuery → RawIndexQuery) (xs : List RawIndexQuery)
    → All P (map f xs)
    → All (λ x. P (f x)) xs
All-of-map P f [] h = tt
All-of-map P f (x ∷ xs) h = (h.0, All-of-map P f xs h.1)

map-map :
    (f : RawIndexQuery → List Bytes) (g : RawIndexQuery → RawIndexQuery) (xs : List RawIndexQuery)
    → map f (map g xs) ≡ map (λ x. f (g x)) xs
map-map f g [] = refl
map-map f g (x ∷ xs) = ap (λ l. f (g x) ∷ l) (map-map f g xs)

module _ {ℓ} {B : Type ℓ} (ciphers : Ciphers B) (size : ℕ) (rows : List (IndexTableRow B))
    (m : VersionedMetadataPage) (c : VersionedModificationsTable) (es : List Entry) where
  -- A table of an index: its two control pages, and the pages of the documents `es`, which the
  -- metadata promise. The terms of the pages are in the vocabulary, and the tags that the pages of
  -- its terms have in this version are different.
  pub record IsIndex (vocabulary : List Bytes) : Type ℓ where
    pub published : IsPublished ciphers rows m c
    pub distinct : HasDistinctTags ciphers m.version vocabulary (get_num_pages m.metadata)
    pub stored : AreStored ciphers size m.version (filter (is_page ciphers) rows) es
    pub covered : IsCovered m.metadata es
    pub known : AreKnown vocabulary es

  -- The terms of the queries, as they are looked up, are in the vocabulary.
  abbrev pub AreAsked : List Bytes → List RawIndexQuery → Type 0
  AreAsked vocabulary queries =
      (t : Bytes)
      → contains t (all_terms (map check_max_lengths queries) []) ≡ true
      → contains t vocabulary ≡ true

  -- The documents that answer a query.
  abbrev pub Answers : (RawIndexQuery → List Bytes) → RawIndexQuery → Type 0
  Answers answer q =
      (x : Bytes)
      → contains x (answer q) ≡ meets (index_has es c.modifications) (check_max_lengths q) x

  agreed :
      (terms : List Bytes) (results : List (Bytes × List Bytes)) (t x : Bytes)
      → lists results t x ≡ (contains t terms && in_entries es t x)
      → contains t terms ≡ true
      → has results c.modifications t x ≡ index_has es c.modifications t x
  agreed terms results t x h k = ground arith

  query_loaded-Answers :
      (vocabulary : List Bytes)
      → IsIndex vocabulary
      → (queries : List RawIndexQuery) → AreAsked vocabulary queries
      → (answer : RawIndexQuery → List Bytes) × (query_loaded ciphers size rows queries
            (record { metadata = some m; changes = some c })
          ≡ returns (map answer queries))
        × All (Answers answer) queries
  unfolding query_loaded
  query_loaded-Answers vocabulary index queries asked =
      let checked : List RawIndexQuery = map check_max_lengths queries in
      let (results, run, means) =
        query_terms-entries ciphers size m vocabulary index.distinct (all_terms checked []) asked
          rows es index.stored index.covered index.known in
      let answer : RawIndexQuery → List Bytes =
        λ q. evaluate results c.modifications (check_max_lengths q) in
      (
        answer,
        rw run (ap returns (map-map (evaluate results c.modifications) check_max_lengths queries)),
        All-map queries
            (λ q
                (mentioned : (t : Bytes)
                  → mentions (check_max_lengths q) t ≡ true
                  → contains t (all_terms checked []) ≡ true)
                x.
              contains-evaluate results c.modifications (check_max_lengths q) x
              ∙ meets-agree (has results c.modifications) (index_has es c.modifications) x
                  (check_max_lengths q)
                  (λ t e. agreed (all_terms checked []) results t x (means t x) (mentioned t e)))
            (All-of-map
              (λ q. (t : Bytes) → mentions q t ≡ true → contains t (all_terms checked []) ≡ true)
              check_max_lengths queries (mentioned-all_terms checked [])),
      )

  -- The queries are answered, in their order, with the documents that meet them by the pages and the
  -- modifications of the database, and the cache is loaded. The table is that of an index, the cache
  -- has nothing that is newer, and nothing else under the same versions, and the terms that are looked
  -- up are in a vocabulary whose pages have different tags.
  pub query-Answers :
      (vocabulary : List Bytes)
      → IsIndex vocabulary
      → (cache : CachedIndexState) → IsBehind ciphers cache m c
      → (queries : List RawIndexQuery) → AreAsked vocabulary queries
      → (answer : RawIndexQuery → List Bytes) × (query ciphers size
            (rows ∷ rows ∷ [])
            rows
            queries
            cache
          ≡ some (returns (record { metadata = some m; changes = some c }, map answer queries)))
        × All (Answers answer) queries
  unfolding query
  query-Answers vocabulary index cache behind queries asked =
      let (answer, run, correct) = query_loaded-Answers vocabulary index queries asked in
      (
        answer,
        ap (with_cache ciphers (query_loaded ciphers size rows queries))
              (load_metadata-synchronised ciphers rows m c index.published cache behind)
            ∙ rw run refl,
        correct,
      )
