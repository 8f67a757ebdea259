-- ===== src/InvertedIndex/Update.antt =====
-- The documents that are added to an index and removed from it: `update_changeset`, `insert_many`,
-- `delete` and `update_many` of `RawInvertedIndex`,
-- backends/mysql/src/metadata/indices/inverted_index/db_inverted_index.rs.
use secure_fusion.Prelude.{
  ℕ, ◌+◌, ◌-◌, ◌%◌, ◌/◌, ◌^◌, Option, none, some, List, [], ◌∷◌, map, Bool, ◌||◌, ltb, leb,
  if◌then◌else◌,
}
use secure_fusion.Prelude.Sets.{Bytes, same_bytes, filter}
use secure_fusion.Run.{Run, returns, panics, ◌>>=◌}
use secure_fusion.InvertedIndex.{ModificationsTable, insert_terms, remove_terms}
use secure_fusion.InvertedIndex.Store.{
  modifications_tag, Ciphers, IndexTableRow, VersionedMetadataPage, VersionedModificationsTable,
  CachedIndexState, decrypt_as_modifications, load_metadata,
}
pub mod Sound
pub mod Disjoint

abbrev rebuild_threshold : ℕ
rebuild_threshold = (2 ^ 16 - 1) / 4

unfoldable pub insert_many : List (Bytes × List Bytes) → ModificationsTable → ModificationsTable
insert_many [] m = m
insert_many ((doc_id, terms) ∷ documents) m = insert_many documents (insert_terms doc_id terms m)

unfoldable pub update_many :
    List (Bytes × (List Bytes × List Bytes)) → ModificationsTable → ModificationsTable
update_many [] m = m
update_many ((doc_id, (added_terms, removed_terms)) ∷ documents) m =
    update_many documents (remove_terms doc_id removed_terms (insert_terms doc_id added_terms m))

-- The table of an index that was just created.
abbrev pub no_changes : ModificationsTable
no_changes = record { added_entries = []; removed_entries = [] }

-- The modifications that `insert_many`, `update_many` and `delete` can lead to.
pub data IsReached : ModificationsTable → Type 0 where
  created : IsReached no_changes
  inserted :
      {m : ModificationsTable}
      → (documents : List (Bytes × List Bytes)) → IsReached m
      → IsReached (insert_many documents m)
  updated :
      {m : ModificationsTable}
      → (documents : List (Bytes × (List Bytes × List Bytes))) → IsReached m
      → IsReached (update_many documents m)
  deleted :
      {m : ModificationsTable}
      → (document : Bytes) (terms : List Bytes) → IsReached m
      → IsReached (remove_terms document terms m)

module _ {ℓ} {B : Type ℓ} (ciphers : Ciphers B) (blob_length : B → ℕ) where
  -- `UPDATE .. SET version = ?, page = ? WHERE tag = ?`
  abbrev pub set_modifications : ℕ → B → IndexTableRow B → IndexTableRow B
  set_modifications version page row =
      if same_bytes row.tag modifications_tag
      then record { tag = row.tag; version = version; page = page }
      else row

  abbrev pub is_modifications : IndexTableRow B → Bool
  is_modifications row = same_bytes row.tag modifications_tag

  -- The table with the modifications changed, and whether the index is to be rebuilt.
  unfoldable pub write_changes :
      List (IndexTableRow B)
      → (ModificationsTable → ModificationsTable)
      → VersionedMetadataPage
      → VersionedModificationsTable
      → List (IndexTableRow B) × Bool
  write_changes rows modifier m c =
      let version = (c.modifications_version + 1) % 2 ^ 32 in
      let page = ciphers.encrypt_modifications m.version version (modifier c.modifications) in
      (
        map (set_modifications version page) rows,
        ltb 16000000 c.modifications_version || leb rebuild_threshold (blob_length page),
      )

  -- `modifications_current.remove(0)` panics where there is no row.
  unfoldable pub change_first :
      List (IndexTableRow B)
      → (ModificationsTable → ModificationsTable)
      → VersionedMetadataPage
      → List (IndexTableRow B)
      → Run (List (IndexTableRow B) × Bool)
  change_first rows modifier m [] = panics
  change_first rows modifier m (current ∷ others) = do
    c ← decrypt_as_modifications ciphers current m.version
    returns (write_changes rows modifier m c)

  unfoldable pub change_loaded :
      List (IndexTableRow B)
      → (ModificationsTable → ModificationsTable)
      → Option VersionedMetadataPage
      → Run (List (IndexTableRow B) × Bool)
  change_loaded rows modifier none = panics
  change_loaded rows modifier (some m) = change_first rows modifier m (filter is_modifications rows)

  abbrev pub change_after :
      List (IndexTableRow B)
      → (ModificationsTable → ModificationsTable)
      → Option (Run CachedIndexState)
      → Option (Run (CachedIndexState × (List (IndexTableRow B) × Bool)))
  change_after rows modifier none = none
  change_after rows modifier (some loaded) = some (
      loaded >>= (λ cache.
        change_loaded rows modifier cache.metadata >>= (λ written. returns (cache, written))))

  -- `tables` are the tables that `load_metadata` reads, and `rows` is the one under the lock.
  unfoldable pub update_changeset :
      (tables : List (List (IndexTableRow B)))
      → (rows : List (IndexTableRow B)) → (ModificationsTable → ModificationsTable)
      → CachedIndexState
      → Option (Run (CachedIndexState × (List (IndexTableRow B) × Bool)))
  update_changeset tables rows modifier cache =
      change_after rows modifier (load_metadata ciphers tables cache)
