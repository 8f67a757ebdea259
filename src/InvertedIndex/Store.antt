-- ===== src/InvertedIndex/Store.antt =====
-- The table of an inverted index in the database, and the two pages of it that the proxy keeps in
-- memory: `IndexTableRow`, `CachedIndexState` and its `load_metadata`, of
-- backends/mysql/src/metadata/indices/inverted_index/db_inverted_index.rs. The ciphers and the
-- derivation of the pages' tags are a parameter.
use secure_fusion.Prelude.{
  ℕ, suc, zero, ◌+◌, ◌/◌, ◌%◌, ◌++◌, ◌^◌, ◌<◌, Option, none, some, List, [], ◌∷◌, Bool, true, false,
  ◌&&◌, ◌||◌, ltb, ◌==◌, flip, is_none, is_some, if◌then◌else◌,
}
use secure_fusion.Prelude.Sets.{Bytes, same_bytes, filter}
use secure_fusion.Run.{Run, returns, plan_error, exec_error, panics, ◌>>=◌}
use secure_fusion.InvertedIndex.{ModificationsTable}
use secure_fusion.InvertedIndex.Metadata.{MetadataPage}
use secure_fusion.InvertedIndex.Pages.{TermPage}
pub mod Load
pub mod Entries
pub mod Lookup

-- `B"metadata\0\0\0\0"` and `b"modification"`.
abbrev pub metadata_tag : Bytes
metadata_tag = 109 ∷ 101 ∷ 116 ∷ 97 ∷ 100 ∷ 97 ∷ 116 ∷ 97 ∷ 0 ∷ 0 ∷ 0 ∷ 0 ∷ []

abbrev pub modifications_tag : Bytes
modifications_tag = 109 ∷ 111 ∷ 100 ∷ 105 ∷ 102 ∷ 105 ∷ 99 ∷ 97 ∷ 116 ∷ 105 ∷ 111 ∷ 110 ∷ []

-- `identifier` is `get_opaque_stable_identifier_in` under the key of a version, for a buffer of a
-- number of bytes. The encrypted pages are of the type `B`. A page of the index is encrypted for its version; the
-- decryption fails on a page of another version, number or tag.
pub record Ciphers {ℓ} (B : Type ℓ) : Type ℓ where
  pub identifier : (version : ℕ) → (input : Bytes) → (size : ℕ) → Bytes
  pub decrypt_metadata : (version : ℕ) → B → Option MetadataPage
  pub encrypt_metadata : (version : ℕ) → MetadataPage → B
  pub decrypt_modifications : (meta_version modif_version : ℕ) → B → Option ModificationsTable
  pub encrypt_modifications : (meta_version modif_version : ℕ) → ModificationsTable → B
  pub decrypt_page : (version : ℕ) → (tag : Bytes) → B → Option TermPage
  pub encrypt_page : (version : ℕ) → (tag : Bytes) → TermPage → B

abbrev pub tag_size : ℕ
tag_size = 12

-- `to_le_bytes` of an integer of a number of bytes.
unfoldable pub to_le_bytes : (bytes : ℕ) → ℕ → Bytes
to_le_bytes zero n = []
to_le_bytes (suc bytes) n = n % 256 ∷ to_le_bytes bytes (n / 256)

-- `TagDerivator::page_tag`; a page number is a u64.
unfoldable pub page_tag {ℓ} :
    {B : Type ℓ} → Ciphers B → (version : ℕ) → (term : Bytes) → (page : ℕ) → Bytes
page_tag ciphers version term page =
    ciphers.identifier version (term ++ to_le_bytes 8 page) tag_size

pub record IndexTableRow {ℓ} (B : Type ℓ) : Type ℓ where
  pub tag : Bytes
  pub version : ℕ
  pub page : B

pub record VersionedMetadataPage : Type 0 where
  pub version : ℕ
  pub metadata : MetadataPage

pub record VersionedModificationsTable : Type 0 where
  pub modifications_version : ℕ
  pub modifications : ModificationsTable

pub record CachedIndexState : Type 0 where
  pub metadata : Option VersionedMetadataPage
  pub changes : Option VersionedModificationsTable

-- `?` on a decryption.
abbrev pub or_error {ℓ} : {A : Type ℓ} → Option A → Run A
or_error none = exec_error
or_error (some a) = returns a

-- `expect` on a result.
abbrev pub expect {ℓ} : {A : Type ℓ} → Run A → Run A
expect (returns a) = returns a
expect _ = panics

abbrev pub cached_metadata_version : Option VersionedMetadataPage → ℕ
cached_metadata_version none = 0
cached_metadata_version (some m) = m.version

abbrev pub cached_changes_version : Option VersionedModificationsTable → ℕ
cached_changes_version none = 0
cached_changes_version (some c) = c.modifications_version

module _ {ℓ} {B : Type ℓ} (ciphers : Ciphers B) where
  unfoldable pub decrypt_as_metadata : IndexTableRow B → Run VersionedMetadataPage
  decrypt_as_metadata row = do
    m ← or_error (ciphers.decrypt_metadata row.version row.page)
    returns (record { version = row.version; metadata = m })

  unfoldable pub decrypt_as_modifications : IndexTableRow B → ℕ → Run VersionedModificationsTable
  decrypt_as_modifications row metadata_version =
      if ltb row.version (2 ^ 32) then decrypted row metadata_version else panics
    where
      decrypted : IndexTableRow B → ℕ → Run VersionedModificationsTable
      decrypted row metadata_version = do
        m ← or_error (ciphers.decrypt_modifications metadata_version row.version row.page)
        returns (record { modifications_version = row.version; modifications = m })

  -- `WHERE (tag = ? AND version > ?) OR (tag = ? AND version != ?)`
  abbrev pub is_newer : CachedIndexState → IndexTableRow B → Bool
  is_newer cache row =
      (same_bytes row.tag metadata_tag && ltb (cached_metadata_version cache.metadata) row.version)
      || (same_bytes row.tag modifications_tag
          && flip (row.version == cached_changes_version cache.changes))

  -- One modifications page, for the cached metadata.
  unfoldable pub load_changes :
      IndexTableRow B → Option VersionedMetadataPage → Run CachedIndexState
  load_changes page none = exec_error
  load_changes page (some m) = do
    c ← decrypt_as_modifications page m.version
    returns (record { metadata = some m; changes = some c })

  -- Both pages, in either order.
  unfoldable pub load_both : IndexTableRow B → IndexTableRow B → Run CachedIndexState
  load_both metadata_row changes_row = do
    m ← expect (decrypt_as_metadata metadata_row)
    c ← expect (decrypt_as_modifications changes_row m.version)
    returns (record { metadata = some m; changes = some c })

  abbrev is_tagged : Bytes → IndexTableRow B → Bool
  is_tagged t row = same_bytes row.tag t

  -- The cache after a metadata page, and whether the modifications must be read again.
  unfoldable pub load_one : IndexTableRow B → CachedIndexState → Run (CachedIndexState × Bool)
  load_one page cache =
      if is_tagged metadata_tag page
      then metadata_only page cache
      else if is_tagged modifications_tag page
      then changes_only page cache
      else exec_error
    where
      metadata_only : IndexTableRow B → CachedIndexState → Run (CachedIndexState × Bool)
      metadata_only page cache = do
        m ← decrypt_as_metadata page
        returns (record { metadata = some m; changes = none }, is_some cache.changes)

      changes_only : IndexTableRow B → CachedIndexState → Run (CachedIndexState × Bool)
      changes_only page cache = do c ← load_changes page cache.metadata; returns (c, false)

  -- What the pages of one query make of the cache, and whether another query is needed.
  unfoldable pub load_pages :
      List (IndexTableRow B) → CachedIndexState → Run (CachedIndexState × Bool)
  load_pages [] cache =
      if is_none cache.metadata || is_none cache.changes then exec_error else returns (cache, false)
  load_pages (page ∷ []) cache = load_one page cache
  load_pages (first ∷ second ∷ []) cache =
      if is_tagged metadata_tag first && is_tagged modifications_tag second
      then load_both first second >>= (λ c. returns (c, false))
      else if is_tagged modifications_tag first && is_tagged metadata_tag second
      then load_both second first >>= (λ c. returns (c, false))
      else exec_error
  load_pages _ cache = exec_error

  abbrev pub again :
      (CachedIndexState → Option (Run CachedIndexState))
      → Run (CachedIndexState × Bool)
      → Option (Run CachedIndexState)
  again rest (returns (cache, true)) = rest cache
  again rest (returns (cache, false)) = some (returns cache)
  again rest plan_error = some plan_error
  again rest exec_error = some exec_error
  again rest panics = some panics

  -- Each query reads the table anew: the list has the tables that the queries find. `none` is one
  -- query more than there are tables.
  unfoldable pub load_metadata :
      List (List (IndexTableRow B)) → CachedIndexState → Option (Run CachedIndexState)
  load_metadata [] cache = none
  load_metadata (rows ∷ later) cache =
      again (load_metadata later) (load_pages (filter (is_newer cache) rows) cache)
