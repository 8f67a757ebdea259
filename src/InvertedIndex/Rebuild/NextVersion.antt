-- ===== src/InvertedIndex/Rebuild/NextVersion.antt =====
-- The task that brings the table of an index to its next version: `load_metadata`,
-- `load_modifications` and `do_next_version` of `DbNextVersionTask`, of
-- backends/mysql/src/metadata/indices/inverted_index/db_inverted_index.rs. The order in which the
-- new pages are inserted, which is random, is left as it is: a table has none.
use secure_fusion.Prelude.{
  ℕ, suc, zero, ◌+◌, Option, none, some, List, [], ◌∷◌, ◌++◌, Bool, ◌&&◌, ◌||◌, ◌==◌, flip,
  if◌then◌else◌,
}
use secure_fusion.Prelude.Sets.{Bytes, same_bytes, filter}
use secure_fusion.Run.{Run, returns, plan_error, exec_error, panics, ◌>>=◌, and_then}
use secure_fusion.InvertedIndex.{ModificationsTable}
use secure_fusion.InvertedIndex.Metadata.{MetadataPage, shrink_to_fit_and_encode}
use secure_fusion.InvertedIndex.Store.{
  metadata_tag, modifications_tag, Ciphers, IndexTableRow, VersionedMetadataPage,
  VersionedModificationsTable, decrypt_as_metadata, decrypt_as_modifications,
}
use secure_fusion.InvertedIndex.Rebuild.{rebuild_pages, remaining}
pub mod Index
pub mod Written

-- The sum of the numbers of pages, which is enough rounds to shrink the metadata.
abbrev pub all_pages : List (Bytes × ℕ) → ℕ
all_pages [] = 0
all_pages ((keyword, n) ∷ l) = n + all_pages l

-- A call that may run out of fuel alone, and what follows it.
abbrev pub and_fuel {ℓ κ} :
    {A : Type ℓ} {C : Type κ} → Option A → (A → Option (Run C)) → Option (Run C)
and_fuel none f = none
and_fuel (some a) f = f a

module _ {ℓ} {B : Type ℓ} (ciphers : Ciphers B) (encoded_size : MetadataPage → ℕ) (size : ℕ) where
  abbrev pub has_tag : Bytes → IndexTableRow B → Bool
  has_tag tag row = same_bytes row.tag tag

  -- The metadata, where their version is still the one that the task was started for.
  abbrev pub first_metadata :
      (current : ℕ) → List (IndexTableRow B) → Run (Option VersionedMetadataPage)
  first_metadata current [] = returns none
  first_metadata current (head ∷ _) =
      if head.version == current
      then decrypt_as_metadata ciphers head >>= (λ m. returns (some m))
      else returns none

  unfoldable pub load_current_metadata :
      (current : ℕ) → List (IndexTableRow B) → Run (Option VersionedMetadataPage)
  load_current_metadata current rows = first_metadata current (filter (has_tag metadata_tag) rows)

  abbrev pub only_modifications :
      (current : ℕ) → List (IndexTableRow B) → Run VersionedModificationsTable
  only_modifications current (head ∷ []) = decrypt_as_modifications ciphers head current
  only_modifications current _ = exec_error

  unfoldable pub load_modifications :
      (current : ℕ) → List (IndexTableRow B) → Run VersionedModificationsTable
  load_modifications current rows =
      only_modifications current (filter (has_tag modifications_tag) rows)

  -- `new_modifications.remove(0)` panics where there is no row.
  abbrev pub first_modifications :
      (current : ℕ) → List (IndexTableRow B) → Run VersionedModificationsTable
  first_modifications current [] = panics
  first_modifications current (head ∷ _) = decrypt_as_modifications ciphers head current

  -- `WHERE version = ? AND tag NOT IN (?, ?)`
  abbrev pub is_old_page : (current : ℕ) → IndexTableRow B → Bool
  is_old_page current row =
      flip (same_bytes row.tag metadata_tag || same_bytes row.tag modifications_tag)
      && (row.version == current)

  -- What `DELETE FROM .. WHERE version = .. OR tag = ?` leaves.
  abbrev pub is_left : (version : ℕ) → IndexTableRow B → Bool
  is_left version row = flip ((row.version == version) || same_bytes row.tag modifications_tag)

  abbrev pub new_metadata_row : (version : ℕ) → MetadataPage → IndexTableRow B
  new_metadata_row version metadata = record {
    tag = metadata_tag;
    version = version;
    page = ciphers.encrypt_metadata version metadata;
  }

  abbrev pub new_modifications_row : (version : ℕ) → ModificationsTable → IndexTableRow B
  new_modifications_row version modifications = record {
    tag = modifications_tag;
    version = 1;
    page = ciphers.encrypt_modifications version 1 modifications;
  }

  -- The new pages are inserted, the old rows deleted, and the two control pages inserted.
  unfoldable pub write_version :
      (version : ℕ)
      → List (IndexTableRow B)
      → List (IndexTableRow B)
      → MetadataPage
      → ModificationsTable
      → List (IndexTableRow B)
  write_version version rows new_pages metadata modifications =
      filter (is_left version) (rows ++ new_pages)
      ++ new_metadata_row (version + 1) metadata
        ∷ new_modifications_row (version + 1) modifications
        ∷ []

  -- The writes, with the modifications that the table `latest` has by then.
  unfoldable pub finish_version :
      (version : ℕ)
      → ModificationsTable
      → List (IndexTableRow B)
      → List (IndexTableRow B)
      → MetadataPage
      → Option (Run (List (IndexTableRow B)))
  finish_version version changes latest new_pages metadata =
      and_then (some (first_modifications version (filter (has_tag modifications_tag) latest)))
        (λ c.
          and_fuel
            (shrink_to_fit_and_encode encoded_size (suc (suc (all_pages metadata.num_pages)))
              metadata)
            (λ shrunk. some (
              returns (
                write_version version latest new_pages shrunk
                  (remaining changes c.modifications)))))

  abbrev pub next_version_of :
      (current : ℕ) (rows latest : List (IndexTableRow B))
      → Option VersionedMetadataPage
      → Option (Run (List (IndexTableRow B)))
  next_version_of current rows latest none = some (returns latest)
  next_version_of current rows latest (some m) =
      and_then (some (load_modifications current rows)) (λ changes.
        and_then
          (rebuild_pages ciphers size m.version changes.modifications m.metadata
            (filter (is_old_page current) rows))
          (λ rebuilt. finish_version m.version changes.modifications latest rebuilt.0 rebuilt.1))

  -- The table after the task, from the table `rows` that its transaction reads first, and the table
  -- `latest` that it finds when it writes. An error or a panic ends the transaction without a write;
  -- `none` is out of fuel.
  unfoldable pub do_next_version :
      (current : ℕ) (rows latest : List (IndexTableRow B)) → Option (Run (List (IndexTableRow B)))
  do_next_version current rows latest =
      and_then (some (load_current_metadata current rows)) (next_version_of current rows latest)
