-- ===== src/InvertedIndex/Update/Sound.antt =====
-- What a table of an index is after its modifications are changed.
use secure_fusion.Prelude.{
  ℕ, ◌+◌, ◌%◌, ◌^◌, ◌<◌, some, List, [], ◌∷◌, map, Bool, true, false, ◌&&◌, ◌||◌, flip,
  if◌then◌else◌, ◌≡◌, refl, sym, ap, ap₂, subst, ◌∙◌, ◌⊎◌, inl, inr, All, Bool-cases, arith,
}
use mathlib.Core.Option.{some-injective}
use secure_fusion.Prelude.Sets.{Bytes, same_bytes, filter, contains}
use secure_fusion.Run.{returns}
use secure_fusion.InvertedIndex.{RawIndexQuery, ModificationsTable, check_max_lengths}
use secure_fusion.InvertedIndex.Modifications.{has_with, names, meets, has_with-insert_terms}
use secure_fusion.InvertedIndex.Store.{
  metadata_tag, modifications_tag, Ciphers, IndexTableRow, VersionedMetadataPage,
  VersionedModificationsTable, CachedIndexState,
}
use secure_fusion.InvertedIndex.Store.Load.{
  is_control, filter-filter, changes_is, decrypt_as_modifications-published, IsBehind,
  load_metadata-synchronised,
}
use secure_fusion.InvertedIndex.Store.Entries.{Entry, in_entries, index_has, AreStored, is_page}
use secure_fusion.InvertedIndex.Store.Lookup.{query}
use secure_fusion.InvertedIndex.Store.Lookup.Answers.{
  IsIndex, AreAsked, Answers, query-Answers, meets-agree, All-map,
}
use secure_fusion.InvertedIndex.Update.{
  insert_many, set_modifications, is_modifications, write_changes, change_first, change_loaded,
  change_after, update_changeset,
}

-- Whether one of the documents is the one, and has the term.
abbrev pub inserts : List (Bytes × List Bytes) → Bytes → Bytes → Bool
inserts [] t x = false
inserts ((d, ts) ∷ documents) t x = (names ts t && same_bytes x d) || inserts documents t x

or_assoc : (a b c : Bool) → ((a || b) || c) ≡ (a || (b || c))
or_assoc a b c = ground arith

pub has_with-insert_many :
    (stored : Bool) (documents : List (Bytes × List Bytes)) (m : ModificationsTable) (t x : Bytes)
    → has_with stored (insert_many documents m) t x
      ≡ (has_with stored m t x || inserts documents t x)
unfolding insert_many
has_with-insert_many stored [] m t x = ground arith
has_with-insert_many stored ((d, ts) ∷ documents) m t x =
    has_with-insert_many stored documents _ t x
    ∙ ap (λ b. b || inserts documents t x) (has_with-insert_terms stored d ts m t x)
    ∙ or_assoc (has_with stored m t x) (names ts t && same_bytes x d) (inserts documents t x)

module _ {ℓ} {B : Type ℓ} (ciphers : Ciphers B) (blob_length : B → ℕ) where
  module _ (version : ℕ) (page : B) where
    abbrev set_row : IndexTableRow B → IndexTableRow B
    set_row = set_modifications ciphers blob_length version page

    set_row-tag : (row : IndexTableRow B) → (set_row row).tag ≡ row.tag
    set_row-tag row = elim (Bool-cases (same_bytes row.tag modifications_tag)) [
      | inl h ↦ rw h refl
      | inr h ↦ rw h refl
    ]

    set_row-other :
        (row : IndexTableRow B) → same_bytes row.tag modifications_tag ≡ false → set_row row ≡ row
    set_row-other row h = rw h refl

    filter-map :
        (p : Bytes → Bool) (rows : List (IndexTableRow B))
        → filter (λ (row : IndexTableRow B). p row.tag) (map set_row rows)
          ≡ map set_row (filter (λ (row : IndexTableRow B). p row.tag) rows)
    filter-map p [] = refl
    filter-map p (row ∷ rows) = elim (Bool-cases (p row.tag)) [
      | inl h ↦ rw (ap p (set_row-tag row) ∙ h, h) (ap (λ l. set_row row ∷ l) (filter-map p rows))
      | inr h ↦ rw (ap p (set_row-tag row) ∙ h, h) (filter-map p rows)
    ]

    filter-pages :
        (rows : List (IndexTableRow B))
        → filter (is_page ciphers) (map set_row rows) ≡ filter (is_page ciphers) rows
    filter-pages [] = refl
    filter-pages (row ∷ rows) = elim (Bool-cases (same_bytes row.tag modifications_tag)) [
      | inl h ↦
          let f : is_page ciphers row ≡ false = ground arith in
          let g : is_page ciphers (set_row row) ≡ false =
            ap (λ t. flip (same_bytes t metadata_tag || same_bytes t modifications_tag))
              (set_row-tag row)
            ∙ f in
          rw (f, g) (filter-pages rows)
      | inr h ↦
          rw (set_row-other row h)
            (ap (λ l. if is_page ciphers row then row ∷ l else l) (filter-pages rows))
    ]

  -- The encryption of the modifications, which the decryption undoes.
  abbrev pub ChangesRoundTrip : Type 0
  ChangesRoundTrip =
      (v n : ℕ) (m : ModificationsTable)
      → ciphers.decrypt_modifications v n (ciphers.encrypt_modifications v n m) ≡ some m

  module _ (size : ℕ) (rows : List (IndexTableRow B)) (m : VersionedMetadataPage)
      (c : VersionedModificationsTable) (es : List Entry) (vocabulary : List Bytes)
      (index : IsIndex ciphers size rows m c es vocabulary) (undone : ChangesRoundTrip)
      (modifier : ModificationsTable → ModificationsTable)
      (room : c.modifications_version + 1 < 2 ^ 32) where
    abbrev next_version : ℕ
    next_version = (c.modifications_version + 1) % 2 ^ 32

    next_version_lem : next_version ≡ c.modifications_version + 1
    next_version_lem = omega arith

    -- The modifications after the change, and the table with them.
    abbrev pub changed : VersionedModificationsTable
    changed = record {
      modifications_version = next_version;
      modifications = modifier c.modifications;
    }

    abbrev blob : B
    blob = ciphers.encrypt_modifications m.version next_version (modifier c.modifications)

    abbrev pub written : List (IndexTableRow B)
    written = map (set_row next_version blob) rows

    abbrev changed_row : IndexTableRow B
    changed_row = record {
      tag = index.published.changes_row.tag;
      version = next_version;
      page = blob;
    }

    metadata_other : same_bytes index.published.metadata_row.tag modifications_tag ≡ false
    metadata_other = ap (λ t. same_bytes t modifications_tag) index.published.metadata_tagged

    set_row-metadata :
        set_row next_version blob index.published.metadata_row ≡ index.published.metadata_row
    set_row-metadata = set_row-other next_version blob index.published.metadata_row metadata_other

    set_row-changes : set_row next_version blob index.published.changes_row ≡ changed_row
    set_row-changes =
        rw (ap (λ t. same_bytes t modifications_tag) index.published.changes_tagged) refl

    control-written :
        (filter (is_control ciphers) written ≡ index.published.metadata_row ∷ changed_row ∷ [])
        ⊎ (filter (is_control ciphers) written ≡ changed_row ∷ index.published.metadata_row ∷ [])
    control-written =
        let mapped : filter (is_control ciphers) written
            ≡ map (set_row next_version blob) (filter (is_control ciphers) rows) =
          filter-map next_version blob
            (λ t. same_bytes t metadata_tag || same_bytes t modifications_tag) rows in
        elim index.published.control [
          | inl e ↦ inl (
              mapped
              ∙ ap (map (set_row next_version blob)) e
              ∙ ap₂ (λ x y. x ∷ y ∷ []) set_row-metadata set_row-changes)
          | inr e ↦ inr (
              mapped
              ∙ ap (map (set_row next_version blob)) e
              ∙ ap₂ (λ x y. x ∷ y ∷ []) set_row-changes set_row-metadata)
        ]

    pub written-IsIndex : IsIndex ciphers size written m changed es vocabulary
    written-IsIndex = record {
      published = record {
        metadata_row = index.published.metadata_row;
        changes_row = changed_row;
        control = control-written;
        metadata_tagged = index.published.metadata_tagged;
        changes_tagged = index.published.changes_tagged;
        metadata_version = index.published.metadata_version;
        changes_version = refl;
        metadata_decrypts = index.published.metadata_decrypts;
        changes_decrypts = undone m.version next_version (modifier c.modifications);
        metadata_started = index.published.metadata_started;
        changes_started = omega (arith, next_version_lem);
        changes_small = omega arith;
      };
      distinct = index.distinct;
      known = index.known;
      stored =
          subst (λ l. AreStored ciphers size m.version l es)
            (sym (filter-pages next_version blob rows)) index.stored;
      covered = index.covered;
    }

    first_modifications :
        filter (is_modifications ciphers blob_length) rows ≡ index.published.changes_row ∷ []
    first_modifications =
        let changed_is : same_bytes index.published.changes_row.tag modifications_tag ≡ true =
          changes_is ciphers rows m c index.published in
        let within : filter (is_modifications ciphers blob_length) rows
            ≡ filter (is_modifications ciphers blob_length) (filter (is_control ciphers) rows) =
          filter-filter ciphers (is_modifications ciphers blob_length) (is_control ciphers) rows
            (λ row h. ground arith) in
        elim index.published.control [
          | inl e ↦
              within
              ∙ ap (filter (is_modifications ciphers blob_length)) e
              ∙ rw (metadata_other, changed_is) refl
          | inr e ↦
              within
              ∙ ap (filter (is_modifications ciphers blob_length)) e
              ∙ rw (metadata_other, changed_is) refl
        ]

    pub update_changeset-written :
        (cache : CachedIndexState)
        → IsBehind ciphers cache m c
        → (rebuild : Bool) × (update_changeset ciphers blob_length
              (rows ∷ rows ∷ [])
              rows
              modifier
              cache
            ≡ some (returns (record { metadata = some m; changes = some c }, (written, rebuild))))
    unfolding update_changeset change_loaded change_first write_changes
    update_changeset-written cache behind = (
      (write_changes ciphers blob_length rows modifier m c).1,
      ap (change_after ciphers blob_length rows modifier)
            (load_metadata-synchronised ciphers rows m c index.published cache behind)
          ∙ rw
              (
                first_modifications,
                decrypt_as_modifications-published ciphers rows m c index.published,
              )
              refl,
    )

    loaded-IsBehind : IsBehind ciphers (record { metadata = some m; changes = some c }) m changed
    loaded-IsBehind = record {
      not_ahead = omega arith;
      same_metadata = λ m' e h. sym (some-injective m m' e);
      same_changes = λ m' c' e f h k.
          let same : c.modifications_version ≡ c'.modifications_version =
            ap (λ (v : VersionedModificationsTable). v.modifications_version)
              (some-injective c c' f) in
          absurd (omega (arith, same, k, next_version_lem));
    }

  -- The documents that answer a query once more documents were inserted.
  abbrev pub AnswersWith :
      List Entry
      → ModificationsTable
      → List (Bytes × List Bytes)
      → (RawIndexQuery → List Bytes)
      → RawIndexQuery
      → Type 0
  AnswersWith es changes documents answer q =
      (x : Bytes)
      → contains x (answer q)
        ≡ meets (λ t y. index_has es changes t y || inserts documents t y) (check_max_lengths q) x

  -- Once documents were inserted, each query is answered with the documents that meet it by what the
  -- index had and by the terms of the inserted documents, cut to 64 bytes. The table is that of an
  -- index, the cache has nothing that is newer, and nothing else under the same versions, the version
  -- of the modifications has room, decryption undoes the encryption of the modifications, and the
  -- terms that are looked up are in a vocabulary whose pages have different tags.
  pub query-insert_many :
      (size : ℕ) (rows : List (IndexTableRow B)) (m : VersionedMetadataPage)
      (c : VersionedModificationsTable) (es : List Entry) (cache : CachedIndexState)
      → (vocabulary : List Bytes) → IsIndex ciphers size rows m c es vocabulary
      → IsBehind ciphers cache m c
      → c.modifications_version + 1 < 2 ^ 32
      → ChangesRoundTrip
      → (documents : List (Bytes × List Bytes)) (queries : List RawIndexQuery)
      → AreAsked ciphers size rows m c es vocabulary queries
      → (cache' : CachedIndexState) × (rows' : List (IndexTableRow B)) × (rebuild : Bool)
        × (update_changeset ciphers blob_length
              (rows ∷ rows ∷ [])
              rows
              (insert_many documents)
              cache
            ≡ some (returns (cache', (rows', rebuild))))
        × (answer : RawIndexQuery → List Bytes) × (cache'' : CachedIndexState) × (query ciphers size
              (rows' ∷ rows' ∷ [])
              rows'
              queries
              cache'
            ≡ some (returns (cache'', map answer queries)))
        × All (AnswersWith es c.modifications documents answer) queries
  query-insert_many size rows m c es cache vocabulary index behind room undone documents queries
        asked =
      let rows' : List (IndexTableRow B) =
        written size rows m c es vocabulary index undone (insert_many documents) room in
      let c' : VersionedModificationsTable =
        changed size rows m c es vocabulary index undone (insert_many documents) room in
      let (rebuild, run) =
        update_changeset-written size rows m c es vocabulary index undone (insert_many documents)
          room cache behind in
      let (answer, answered, correct) =
        query-Answers ciphers size rows' m c' es vocabulary
          (written-IsIndex size rows m c es vocabulary index undone (insert_many documents) room)
          (record { metadata = some m; changes = some c })
          (loaded-IsBehind size rows m c es vocabulary index undone (insert_many documents) room)
          queries asked in
      (
        record { metadata = some m; changes = some c },
        rows',
        rebuild,
        run,
        answer,
        record { metadata = some m; changes = some c' },
        answered,
        All-map queries
            (λ q (right : Answers ciphers size rows' m c' es answer q) x.
              right x
              ∙ meets-agree (index_has es c'.modifications)
                  (λ t y. index_has es c.modifications t y || inserts documents t y) x
                  (check_max_lengths q)
                  (λ t mentioned.
                    has_with-insert_many (in_entries es t x) documents c.modifications t x))
            correct,
      )
