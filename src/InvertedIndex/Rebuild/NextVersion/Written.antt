-- ===== src/InvertedIndex/Rebuild/NextVersion/Written.antt =====
-- The table that the task of the next version writes is that of an index again, which has the
-- documents that it had.
use secure_fusion.Prelude.{
  suc, ℕ, ◌+◌, ◌^◌, ◌≤◌, ◌<◌, some, List, [], ◌∷◌, ◌++◌, map, Bool, ◌≡◌, refl, sym, ap, ap₂, subst,
  ◌∙◌, inl, All, arith,
}
use mathlib.Core.List.{append-nil}
use secure_fusion.Prelude.Sets.{Bytes, filter}
use secure_fusion.Run.{returns}
use secure_fusion.InvertedIndex.{RawIndexQuery, ModificationsTable, check_max_lengths}
use secure_fusion.InvertedIndex.Modifications.{has_with, IsDisjoint}
use secure_fusion.InvertedIndex.Metadata.{
  shrink_to_fit_and_encode, MetadataPage, get_num_pages, shrink_to_fit_and_encode_total,
}
use secure_fusion.InvertedIndex.Pages.{entries_data_size}
use secure_fusion.InvertedIndex.Store.{
  Ciphers, IndexTableRow, VersionedMetadataPage, VersionedModificationsTable, CachedIndexState,
  cached_metadata_version,
}
use secure_fusion.InvertedIndex.Store.Load.{
  is_control, IsBehind, decrypt_as_modifications-published,
}
use secure_fusion.InvertedIndex.Store.Entries.{
  Entry, in_entries, index_has, IsCovered, AreKnown, HasDistinctTags, AreStored, is_page,
}
use secure_fusion.InvertedIndex.Store.Lookup.{query}
use secure_fusion.InvertedIndex.Store.Lookup.Answers.{
  IsIndex, AreAsked, Answers, query-Answers, meets-agree, All-map,
}
use secure_fusion.InvertedIndex.Rebuild.{rebuild_pages, remaining}
use secure_fusion.InvertedIndex.Rebuild.Maps.{IsMap}
use secure_fusion.InvertedIndex.Rebuild.Kept.{PageRoundTrip}
use secure_fusion.InvertedIndex.Rebuild.Remaining.{remaining-drops}
use secure_fusion.InvertedIndex.Rebuild.Sound.{HasRoom, HasWords, rebuild_pages-keeps}
use secure_fusion.InvertedIndex.Rebuild.NextVersion.{
  all_pages, is_left, new_metadata_row, new_modifications_row, write_version, finish_version,
  do_next_version,
}
use secure_fusion.InvertedIndex.Rebuild.NextVersion.Index.{
  IsPlaced, all-IsPlaced, filter-append, filter-stored_all, filter-stored_none, stored-not_control,
  stored-is_page, stored-left, old_pages, modifications_rows, load_current_metadata-published,
  load_modifications-published, nothing_left,
}

-- The sum of the numbers of pages bounds each of them.
all_pages-bound :
    (more d : ℕ) (l : List (Bytes × ℕ)) → All (λ (e : Bytes × ℕ). e.1 ≤ d + (more + all_pages l)) l
all_pages-bound more d [] = tt
all_pages-bound more d ((k, n) ∷ l) = (
  omega arith,
  subst (λ s. All (λ (e : Bytes × ℕ). e.1 ≤ d + s) l) (omega arith)
      (all_pages-bound (more + n) d l),
)

all_pages-bounds : (d : ℕ) (l : List (Bytes × ℕ)) → All (λ (e : Bytes × ℕ). e.1 ≤ d + all_pages l) l
all_pages-bounds d l =
    subst (λ s. All (λ (e : Bytes × ℕ). e.1 ≤ d + s) l) (omega arith) (all_pages-bound 0 d l)

IsCovered-mono :
    (a b : MetadataPage) (es : List Entry)
    → ((t : Bytes) → get_num_pages a t ≤ get_num_pages b t)
    → IsCovered a es
    → IsCovered b es
IsCovered-mono a b [] le h = tt
IsCovered-mono a b (e ∷ es) le h =
    let more : get_num_pages a e.keyword ≤ get_num_pages b e.keyword = le e.keyword in
    let here : e.number < get_num_pages a e.keyword = h.0 in
    (omega arith, IsCovered-mono a b es le h.1)

-- Once the changes are incorporated, nothing of them remains.
remaining-none :
    (b : Bool) (m : ModificationsTable) (t x : Bytes) → has_with b (remaining m m) t x ≡ b
remaining-none b m t x = ground (arith, remaining-drops m m t)

module _ {ℓ} {B : Type ℓ} (ciphers : Ciphers B) (encoded_size : MetadataPage → ℕ) (size : ℕ) where
  -- The encryption of the two control pages, which the decryption undoes.
  pub record ControlRoundTrip : Type ℓ where
    pub metadata :
        (v : ℕ) (m : MetadataPage)
        → ciphers.decrypt_metadata v (ciphers.encrypt_metadata v m) ≡ some m
    pub modifications :
        (v n : ℕ) (m : ModificationsTable)
        → ciphers.decrypt_modifications v n (ciphers.encrypt_modifications v n m) ≡ some m

  module _ (rows : List (IndexTableRow B)) (m : VersionedMetadataPage)
      (c : VersionedModificationsTable) (es : List Entry) (vocabulary : List Bytes)
      (index : IsIndex ciphers size rows m c es vocabulary) (undone : ControlRoundTrip) where
    module _ (pages : List (IndexTableRow B)) (metadata : MetadataPage)
        (modifications : ModificationsTable) (fs : List Entry)
        (stored : AreStored ciphers size (m.version + 1) pages fs) (covered : IsCovered metadata fs)
        (known : AreKnown vocabulary fs)
        (distinct : HasDistinctTags ciphers
          (m.version + 1)
          vocabulary
          (get_num_pages metadata)) where
      abbrev Placed : Entry → Type 0
      Placed = IsPlaced ciphers encoded_size size (m.version + 1) vocabulary metadata distinct

      placed : All Placed fs
      placed =
          all-IsPlaced ciphers encoded_size size (m.version + 1) vocabulary metadata distinct fs
            known covered

      abbrev written : List (IndexTableRow B)
      written = write_version ciphers encoded_size size m.version rows pages metadata modifications

      abbrev metadata_row : IndexTableRow B
      metadata_row = new_metadata_row ciphers encoded_size size (m.version + 1) metadata

      abbrev modifications_row : IndexTableRow B
      modifications_row =
          new_modifications_row ciphers encoded_size size (m.version + 1) modifications

      abbrev new_metadata : VersionedMetadataPage
      new_metadata = record { version = m.version + 1; metadata = metadata }

      abbrev new_changes : VersionedModificationsTable
      new_changes = record { modifications_version = 1; modifications = modifications }

      written_lem : written ≡ pages ++ (metadata_row ∷ modifications_row ∷ [])
      unfolding write_version
      written_lem =
          ap (λ l. l ++ (metadata_row ∷ modifications_row ∷ []))
            (filter-append ciphers encoded_size size (is_left ciphers encoded_size size m.version)
                rows pages
              ∙ ap₂ (λ a b. a ++ b)
                  (nothing_left ciphers encoded_size size rows m c es vocabulary index)
                  (filter-stored_all ciphers encoded_size size
                    (is_left ciphers encoded_size size m.version) Placed (m.version + 1) pages fs
                    (stored-left ciphers encoded_size size (m.version + 1) vocabulary metadata
                      distinct m.version refl)
                    stored placed))

      control-written : filter (is_control ciphers) written ≡ metadata_row ∷ modifications_row ∷ []
      control-written =
          ap (filter (is_control ciphers)) written_lem
          ∙ filter-append ciphers encoded_size size (is_control ciphers) pages
              (metadata_row ∷ modifications_row ∷ [])
          ∙ ap (λ l. l ++ (metadata_row ∷ modifications_row ∷ []))
              (filter-stored_none ciphers encoded_size size (is_control ciphers) Placed
                (m.version + 1) pages fs
                (stored-not_control ciphers encoded_size size (m.version + 1) vocabulary metadata
                  distinct)
                stored placed)

      pages-written : filter (is_page ciphers) written ≡ pages
      pages-written =
          ap (filter (is_page ciphers)) written_lem
          ∙ filter-append ciphers encoded_size size (is_page ciphers) pages
              (metadata_row ∷ modifications_row ∷ [])
          ∙ append-nil (filter (is_page ciphers) pages)
          ∙ filter-stored_all ciphers encoded_size size (is_page ciphers) Placed (m.version + 1)
              pages fs
              (stored-is_page ciphers encoded_size size (m.version + 1) vocabulary metadata
                distinct)
              stored placed

      written-IsIndex : IsIndex ciphers size written new_metadata new_changes fs vocabulary
      written-IsIndex = record {
        published = record {
          metadata_row = metadata_row;
          changes_row = modifications_row;
          control = inl control-written;
          metadata_tagged = refl;
          changes_tagged = refl;
          metadata_version = refl;
          changes_version = refl;
          metadata_decrypts = undone.metadata (m.version + 1) metadata;
          changes_decrypts = undone.modifications (m.version + 1) 1 modifications;
          metadata_started = omega arith;
          changes_started = omega arith;
          changes_small = omega arith;
        };
        distinct = distinct;
        stored =
            subst (λ l. AreStored ciphers size (m.version + 1) l fs) (sym pages-written) stored;
        covered = covered;
        known = known;
      }

    -- What the task needs of the pages: room for a document, and for the documents to page anew.
    pub record IsRoomy (page_undone : PageRoundTrip ciphers size) : Type ℓ where
      pub positive : 0 < size
      pub small : size ≤ entries_data_size
      pub added_map : IsMap c.modifications.added_entries
      pub removed_map : IsMap c.modifications.removed_entries
      pub disjoint : IsDisjoint c.modifications
      pub words : HasWords ciphers size page_undone m.version c.modifications m.metadata vocabulary
      pub shrinks : (md : MetadataPage) → md.num_pages ≡ [] → encoded_size md ≤ 2 ^ 20
      pub room :
          HasRoom ciphers size page_undone m.version c.modifications m.metadata positive small
            (filter (is_page ciphers) rows)

    -- The tags that the pages of the vocabulary have in the next version are different.
    abbrev pub HasNextTags : Type ℓ
    HasNextTags =
        (pages : List (IndexTableRow B)) (metadata shrunk : MetadataPage)
        → rebuild_pages ciphers size m.version c.modifications m.metadata
            (filter (is_page ciphers) rows)
          ≡ some (returns (pages, metadata))
        → shrink_to_fit_and_encode encoded_size (suc (suc (all_pages metadata.num_pages))) metadata
          ≡ some shrunk
        → HasDistinctTags ciphers (m.version + 1) vocabulary (get_num_pages shrunk)

    -- The table after the task, and the same documents in it.
    pub record NextVersion : Type ℓ where
      pub table : List (IndexTableRow B)
      pub after : MetadataPage
      pub entries : List Entry
      pub run : do_next_version ciphers encoded_size size m.version rows rows ≡ some (returns table)
      pub is_index :
          IsIndex ciphers size table
            (record { version = m.version + 1; metadata = after })
            (record {
              modifications_version = 1;
              modifications = remaining c.modifications c.modifications;
            })
            entries
            vocabulary
      pub same :
          (t x : Bytes)
          → index_has entries (remaining c.modifications c.modifications) t x
            ≡ index_has es c.modifications t x

    pub do_next_version-NextVersion :
        (page_undone : PageRoundTrip ciphers size) → IsRoomy page_undone → HasNextTags → NextVersion
    unfolding do_next_version finish_version
    do_next_version-NextVersion page_undone roomy next_tags =
        let (pages, metadata, fs, rebuilt, stored, covered, kept, words) =
          rebuild_pages-keeps ciphers size page_undone m.version c.modifications m.metadata
            (filter (is_page ciphers) rows) es roomy.positive roomy.small index.stored index.covered
            roomy.added_map roomy.removed_map roomy.disjoint roomy.room in
        let (shrunk, ends, fits, more) =
          shrink_to_fit_and_encode_total encoded_size (all_pages metadata.num_pages) metadata
            roomy.shrinks (all_pages-bounds metadata.default_num_pages metadata.num_pages) in
        let known : AreKnown vocabulary fs = words vocabulary roomy.words index.known in
        let distinct : HasDistinctTags ciphers (m.version + 1) vocabulary (get_num_pages shrunk) =
          next_tags pages metadata shrunk rebuilt ends in
        let left : ModificationsTable = remaining c.modifications c.modifications in
        record {
          table =
              written pages shrunk left fs stored (IsCovered-mono metadata shrunk fs more covered)
                known distinct;
          after = shrunk;
          entries = fs;
          run =
              rw
                (
                  load_current_metadata-published ciphers encoded_size size rows m c es vocabulary
                      index,
                  load_modifications-published ciphers encoded_size size rows m c es vocabulary
                      index,
                  old_pages ciphers encoded_size size rows m c es vocabulary index,
                  rebuilt,
                  modifications_rows ciphers encoded_size size rows m c es vocabulary index,
                  decrypt_as_modifications-published ciphers rows m c index.published,
                  ends,
                )
                refl;
          is_index =
              written-IsIndex pages shrunk left fs stored
                (IsCovered-mono metadata shrunk fs more covered) known distinct;
          same = λ t x. remaining-none (in_entries fs t x) c.modifications t x ∙ kept t x;
        }

    -- A cache that was behind the table before is behind the one after.
    later-IsBehind :
        (cache : CachedIndexState) (m' : VersionedMetadataPage) (c' : VersionedModificationsTable)
        → m'.version ≡ m.version + 1
        → IsBehind ciphers cache m c
        → IsBehind ciphers cache m' c'
    later-IsBehind cache m' c' next behind = record {
      not_ahead = omega (arith, behind.not_ahead);
      same_metadata = λ k e h.
          let cached : cached_metadata_version cache.metadata ≡ k.version =
            ap cached_metadata_version e in
          absurd (omega (arith, cached, behind.not_ahead));
      same_changes = λ k d e f h i.
          let cached : cached_metadata_version cache.metadata ≡ k.version =
            ap cached_metadata_version e in
          absurd (omega (arith, cached, behind.not_ahead));
    }

    -- The task of the next version ends with a table of which each query is answered as of the table
    -- before, with the modifications counted in. No other transaction writes in between; the table is
    -- that of an index, and the cache has nothing that is newer, and nothing else under the same
    -- versions; the modifications are maps with no document added and removed under one term, the
    -- documents to page anew fit pages, metadata with no entries fit their bound; the terms of the
    -- pages, of the modifications and of the queries are in a vocabulary whose pages have different
    -- tags in both versions; and decryption undoes encryption.
    pub do_next_version-keeps :
        (page_undone : PageRoundTrip ciphers size)
        → IsRoomy page_undone
        → HasNextTags
        → (cache : CachedIndexState) → IsBehind ciphers cache m c
        → (queries : List RawIndexQuery) → AreAsked ciphers size rows m c es vocabulary queries
        → (rows' : List (IndexTableRow B)) × (do_next_version ciphers encoded_size size m.version
              rows rows
            ≡ some (returns rows'))
          × (answer : RawIndexQuery → List Bytes) × (cache' : CachedIndexState) × (query ciphers
                size
                (rows' ∷ rows' ∷ [])
                rows'
                queries
                cache
              ≡ some (returns (cache', map answer queries)))
          × All (Answers ciphers size rows m c es answer) queries
    do_next_version-keeps page_undone roomy next_tags cache behind queries asked =
        let next : NextVersion = do_next_version-NextVersion page_undone roomy next_tags in
        let m' : VersionedMetadataPage = record {
          version = m.version + 1;
          metadata = next.after;
        } in
        let c' : VersionedModificationsTable = record {
          modifications_version = 1;
          modifications = remaining c.modifications c.modifications;
        } in
        let (answer, answered, correct) =
          query-Answers ciphers size next.table m' c' next.entries vocabulary next.is_index cache
            (later-IsBehind cache m' c' refl behind) queries asked in
        (
          next.table,
          next.run,
          answer,
          record { metadata = some m'; changes = some c' },
          answered,
          All-map queries
              (λ q (right : Answers ciphers size next.table m' c' next.entries answer q) x.
                right x
                ∙ meets-agree (index_has next.entries c'.modifications)
                    (index_has es c.modifications) x (check_max_lengths q) (λ t h. next.same t x))
              correct,
        )
