-- ===== src/InvertedIndex/Rebuild.antt =====
-- The rebuilding of an index with its modifications: `DbNextVersionTask::do_next_version` of
-- backends/mysql/src/metadata/indices/inverted_index/db_inverted_index.rs, in the order of its parts:
-- the pass over the old pages, the changes, the new pages and the modifications that are left.
use secure_fusion.Prelude.{
  ℕ, suc, zero, ◌+◌, Option, none, some, List, [], ◌∷◌, ◌++◌, take, drop, length, Bool, ◌&&◌, ◌||◌,
  ltb, leb, ◌==◌, flip, is_some, if◌then◌else◌,
}
use secure_fusion.Prelude.Sets.{Bytes, same_bytes, filter, get, set, unset, extend, subtract}
use secure_fusion.Run.{Run, returns, plan_error, exec_error, panics, ◌>>=◌, and_then}
use secure_fusion.InvertedIndex.{ModificationsTable, unwrap_or_default}
use secure_fusion.InvertedIndex.Metadata.{
  MetadataPage, insert_entry, unwrap_or, shrink_to_fit_and_encode,
}
use secure_fusion.InvertedIndex.Pages.{
  TermPage, header_term, page_number, items, max_entries, free_space, from_iterator,
}
use secure_fusion.InvertedIndex.Store.{
  page_tag, metadata_tag, modifications_tag, Ciphers, IndexTableRow, VersionedMetadataPage,
  VersionedModificationsTable, or_error, decrypt_as_metadata, decrypt_as_modifications,
}
pub mod Maps
pub mod Kept
pub mod Paged
pub mod Sound
pub mod Remaining
pub mod NextVersion

-- `entry(keyword).or_default().extend(ids)`
unfoldable pub extend_or_default :
    Bytes → List Bytes → List (Bytes × List Bytes) → List (Bytes × List Bytes)
extend_or_default keyword ids m = set keyword (extend (unwrap_or_default (get keyword m)) ids) m

abbrev pub larger : ℕ → ℕ → ℕ
larger a b = if ltb a b then b else a

-- `*last_full = max(*last_full, page_index)`, for the entry or 0
abbrev pub raise_last : Bytes → ℕ → List (Bytes × ℕ) → List (Bytes × ℕ)
raise_last keyword n m = set keyword (larger (unwrap_or 0 (get keyword m)) n) m

-- The deletions, for the words that have a partial page.
abbrev pub delete_word : Bytes → List Bytes → List (Bytes × List Bytes) → List (Bytes × List Bytes)
delete_word word gone partial = elim (get word partial) [
  | none ↦ partial
  | some ids ↦ set word (subtract ids gone) partial
]

unfoldable pub delete_changes :
    List (Bytes × List Bytes) → List (Bytes × List Bytes) → List (Bytes × List Bytes)
delete_changes [] partial = partial
delete_changes ((word, gone) ∷ removed) partial =
    delete_changes removed (delete_word word gone partial)

unfoldable pub append_changes :
    List (Bytes × List Bytes) → List (Bytes × List Bytes) → List (Bytes × List Bytes)
append_changes [] partial = partial
append_changes ((word, append) ∷ added) partial =
    append_changes added (extend_or_default word append partial)

abbrev pub chunk_before : List Bytes → Option (List (List Bytes)) → Option (List (List Bytes))
chunk_before chunk none = none
chunk_before chunk (some rest) = some (chunk ∷ rest)

-- The entries in chunks of `most`. `none` is out of fuel.
unfoldable pub chunked : ℕ → (most : ℕ) → List Bytes → Option (List (List Bytes))
chunked fuel most [] = some []
chunked zero most (x ∷ xs) = none
chunked (suc fuel) most (x ∷ xs) =
    chunk_before (take most (x ∷ xs)) (chunked fuel most (drop most (x ∷ xs)))

-- The words of a map.
abbrev pub words : List (Bytes × List Bytes) → List Bytes
words [] = []
words ((word, ids) ∷ m) = word ∷ words m

abbrev pub unset_all : List Bytes → List (Bytes × List Bytes) → List (Bytes × List Bytes)
unset_all [] m = m
unset_all (word ∷ ws) m = unset_all ws (unset word m)

-- The modifications that came since the ones that were incorporated.
unfoldable pub remaining : ModificationsTable → ModificationsTable → ModificationsTable
remaining changes latest = record {
  added_entries = unset_all (words changes.added_entries) latest.added_entries;
  removed_entries = unset_all (words changes.removed_entries) latest.removed_entries;
}

module _ {ℓ} {B : Type ℓ} (ciphers : Ciphers B) (size : ℕ) where
  -- The new pages, the documents to page anew, and the last full page of each word.
  pub record Pass : Type ℓ where
    pub new_pages : List (IndexTableRow B)
    pub partial_pages : List (Bytes × List Bytes)
    pub last_full_page : List (Bytes × ℕ)

  abbrev pub sealed : (version : ℕ) → Bytes → ℕ → TermPage → IndexTableRow B
  sealed version keyword number page =
      let tag = page_tag ciphers version keyword number in
      record { tag = tag; version = version; page = ciphers.encrypt_page version tag page }

  abbrev pub push : IndexTableRow B → Pass → Pass
  push row pass = record pass { new_pages = pass.new_pages ++ row ∷ [] }

  abbrev pub to_partial : Bytes → List Bytes → Pass → Pass
  to_partial keyword ids pass = record pass {
    partial_pages = extend_or_default keyword ids pass.partial_pages;
  }

  -- A page of a word with additions alone: a full one stays.
  unfoldable pub keep_full : (version : ℕ) → TermPage → ℕ → Pass → Run Pass
  keep_full version page free pass =
      let keyword = header_term page.header in
      let number = page_number page.header in
      if ltb 0 free
      then items size page >>= (λ ids. returns (to_partial keyword ids pass))
      else returns (
          push (sealed (version + 1) keyword number page)
            (record pass { last_full_page = raise_last keyword number pass.last_full_page }))

  unfoldable pub visit_page : (version : ℕ) → ModificationsTable → TermPage → Pass → Run Pass
  visit_page version changes page pass =
      let keyword = header_term page.header in
      let number = page_number page.header in
      if is_some (get keyword changes.removed_entries)
      then items size page >>= (λ ids. returns (to_partial keyword ids pass))
      else if is_some (get keyword changes.added_entries)
      then free_space size page >>= (λ free. keep_full version page free pass)
      else returns (push (sealed (version + 1) keyword number page) pass)

  unfoldable pub visit_pages :
      (version : ℕ) → ModificationsTable → List (IndexTableRow B) → Pass → Run Pass
  visit_pages version changes [] pass = returns pass
  visit_pages version changes (row ∷ rows) pass =
      or_error (ciphers.decrypt_page version row.tag row.page) >>= (λ page.
        visit_page version changes page pass >>= (λ pass'. visit_pages version changes rows pass'))

  -- The pages of one word, from `number` on, and the number after the last one.
  unfoldable pub page_chunks :
      (version : ℕ) → Bytes → ℕ → List (List Bytes) → Run (List (IndexTableRow B) × ℕ)
  page_chunks version keyword number [] = returns ([], number)
  page_chunks version keyword number (chunk ∷ chunks) = do
    page ← from_iterator size keyword number chunk
    (rows, next) ← page_chunks version keyword (number + 1) chunks
    returns (sealed version keyword number page ∷ rows, next)

  abbrev pub first_number : Option ℕ → ℕ
  first_number none = 0
  first_number (some last) = last + 1

  -- The pages of one word, and the metadata with their number.
  unfoldable pub page_word :
      (version : ℕ)
      → Bytes
      → ℕ
      → MetadataPage
      → Option (List (List Bytes))
      → Option (Run (List (IndexTableRow B) × MetadataPage))
  page_word version keyword number metadata none = none
  page_word version keyword number metadata (some chunks) = some (
      page_chunks version keyword number chunks
      >>= (λ paged. returns (paged.0, insert_entry keyword paged.1 metadata)))

  -- The pages of all words with partial pages, and the metadata with their numbers.
  unfoldable pub page_words :
      (version most : ℕ)
      → List (Bytes × ℕ)
      → List (Bytes × List Bytes)
      → MetadataPage
      → Option (Run (List (IndexTableRow B) × MetadataPage))
  page_words version most last_full [] metadata = some (returns ([], metadata))
  page_words version most last_full ((keyword, ids) ∷ partial) metadata =
      and_then
        (page_word version keyword (first_number (get keyword last_full)) metadata
          (chunked (length ids) most ids))
        (λ one.
          and_then (page_words version most last_full partial one.1)
            (λ others. some (returns (one.0 ++ others.0, others.1))))

  abbrev pub empty_pass : Pass
  empty_pass = record { new_pages = []; partial_pages = []; last_full_page = [] }

  -- The documents to page anew once the changes are incorporated.
  abbrev pub changed_pages : ModificationsTable → Pass → List (Bytes × List Bytes)
  changed_pages changes pass =
      append_changes changes.added_entries
        (delete_changes changes.removed_entries pass.partial_pages)

  -- The rows of the new version and its metadata, from the rows of the old pages.
  unfoldable pub rebuild_pages :
      (version : ℕ)
      → ModificationsTable
      → MetadataPage
      → List (IndexTableRow B)
      → Option (Run (List (IndexTableRow B) × MetadataPage))
  rebuild_pages version changes metadata rows =
      and_then (some (visit_pages version changes rows empty_pass)) (λ pass.
        and_then (some (max_entries size)) (λ most.
          and_then
            (page_words (version + 1) most pass.last_full_page (changed_pages changes pass)
              metadata)
            (λ paged. some (returns (pass.new_pages ++ paged.0, paged.1)))))
