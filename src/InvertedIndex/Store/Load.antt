-- ===== src/InvertedIndex/Store/Load.antt =====
-- After `load_metadata` the cache has the two pages of the database.
use secure_fusion.Prelude.{
  ◌^◌, ◌≤◌, ◌<◌, none, some, List, [], ◌∷◌, Bool, true, false, ◌||◌, ltb, ◌==◌, flip, is_some, ◌≡◌,
  refl, ap, ◌∙◌, ◌⊎◌, inl, inr, Bool-cases, Option-cases, arith,
}
use secure_fusion.Prelude.Sets.{same_bytes, filter}
use secure_fusion.Run.{Run, returns, ◌>>=◌}
use secure_fusion.InvertedIndex.Store.{
  metadata_tag, modifications_tag, Ciphers, IndexTableRow, VersionedMetadataPage,
  VersionedModificationsTable, CachedIndexState, cached_metadata_version, cached_changes_version,
  again, decrypt_as_metadata, decrypt_as_modifications, is_newer, load_changes, load_both, load_one,
  load_pages, load_metadata,
}

module _ {ℓ} {B : Type ℓ} (ciphers : Ciphers B) where
  abbrev pub is_control : IndexTableRow B → Bool
  is_control row = same_bytes row.tag metadata_tag || same_bytes row.tag modifications_tag

  -- The table has one metadata page and one modifications page, encrypted for its version.
  pub record IsPublished (rows : List (IndexTableRow B)) (m : VersionedMetadataPage)
      (c : VersionedModificationsTable) : Type ℓ where
    pub metadata_row : IndexTableRow B
    pub changes_row : IndexTableRow B
    pub control :
        (filter is_control rows ≡ metadata_row ∷ changes_row ∷ [])
        ⊎ (filter is_control rows ≡ changes_row ∷ metadata_row ∷ [])
    pub metadata_tagged : metadata_row.tag ≡ metadata_tag
    pub changes_tagged : changes_row.tag ≡ modifications_tag
    pub metadata_version : metadata_row.version ≡ m.version
    pub changes_version : changes_row.version ≡ c.modifications_version
    pub metadata_decrypts :
        ciphers.decrypt_metadata metadata_row.version metadata_row.page ≡ some m.metadata
    pub changes_decrypts :
        ciphers.decrypt_modifications m.version changes_row.version changes_row.page
        ≡ some c.modifications
    pub metadata_started : 0 < m.version
    pub changes_started : 0 < c.modifications_version
    pub changes_small : c.modifications_version < 2 ^ 32

  -- The cache has nothing that is newer than the pages of the database, and nothing else under the
  -- same versions.
  pub record IsBehind (cache : CachedIndexState) (m : VersionedMetadataPage)
      (c : VersionedModificationsTable) : Type 0 where
    pub not_ahead : cached_metadata_version cache.metadata ≤ m.version
    pub same_metadata :
        (m' : VersionedMetadataPage) → cache.metadata ≡ some m' → m'.version ≡ m.version → m' ≡ m
    pub same_changes :
        (m' : VersionedMetadataPage) (c' : VersionedModificationsTable)
        → cache.metadata ≡ some m'
        → cache.changes ≡ some c'
        → m'.version ≡ m.version
        → c'.modifications_version ≡ c.modifications_version
        → c' ≡ c

  pub filter-filter :
      (p q : IndexTableRow B → Bool) (l : List (IndexTableRow B))
      → ((x : IndexTableRow B) → p x ≡ true → q x ≡ true)
      → filter p l ≡ filter p (filter q l)
  filter-filter p q [] h = refl
  filter-filter p q (x ∷ l) h = ground (arith, filter-filter p q l h, h x)

  module _ (p : IndexTableRow B → Bool) (x y : IndexTableRow B) where
    pub filter_two : p x ≡ true → p y ≡ true → filter p (x ∷ y ∷ []) ≡ x ∷ y ∷ []
    filter_two h k = rw (h, k) refl

    pub filter_first : p x ≡ true → p y ≡ false → filter p (x ∷ y ∷ []) ≡ x ∷ []
    filter_first h k = rw (h, k) refl

    pub filter_second : p x ≡ false → p y ≡ true → filter p (x ∷ y ∷ []) ≡ y ∷ []
    filter_second h k = rw (h, k) refl

    pub filter_neither : p x ≡ false → p y ≡ false → filter p (x ∷ y ∷ []) ≡ []
    filter_neither h k = rw (h, k) refl

  newer-control :
      (cache : CachedIndexState) (row : IndexTableRow B)
      → is_newer ciphers cache row ≡ true
      → is_control row ≡ true
  newer-control cache row h = ground arith

  module _ (rows : List (IndexTableRow B)) (m : VersionedMetadataPage)
      (c : VersionedModificationsTable) (published : IsPublished rows m c) where
    abbrev synchronised : CachedIndexState
    synchronised = record { metadata = some m; changes = some c }

    newer-metadata :
        (cache : CachedIndexState)
        → is_newer ciphers cache published.metadata_row
          ≡ ltb (cached_metadata_version cache.metadata) m.version
    newer-metadata cache = rw (published.metadata_tagged, published.metadata_version) (ground arith)

    newer-changes :
        (cache : CachedIndexState)
        → is_newer ciphers cache published.changes_row
          ≡ flip (c.modifications_version == cached_changes_version cache.changes)
    newer-changes cache = rw (published.changes_tagged, published.changes_version) (ground arith)

    pub decrypt_as_metadata-published :
        decrypt_as_metadata ciphers published.metadata_row ≡ returns m
    unfolding decrypt_as_metadata
    decrypt_as_metadata-published =
        rw published.metadata_decrypts (ground (arith, published.metadata_version))

    pub decrypt_as_modifications-published :
        decrypt_as_modifications ciphers published.changes_row m.version ≡ returns c
    unfolding decrypt_as_modifications
    decrypt_as_modifications-published =
        let small : ltb published.changes_row.version (2 ^ 32) ≡ true =
          ground (arith, published.changes_version, published.changes_small) in
        rw (small, published.changes_decrypts) (ground (arith, published.changes_version))

    pub metadata_is : same_bytes published.metadata_row.tag metadata_tag ≡ true
    metadata_is = ap (λ t. same_bytes t metadata_tag) published.metadata_tagged

    pub changes_is : same_bytes published.changes_row.tag modifications_tag ≡ true
    changes_is = ap (λ t. same_bytes t modifications_tag) published.changes_tagged

    pub changes_not : same_bytes published.changes_row.tag metadata_tag ≡ false
    changes_not = ap (λ t. same_bytes t metadata_tag) published.changes_tagged

    abbrev newer : CachedIndexState → List (IndexTableRow B)
    newer cache = filter (is_newer ciphers cache) rows

    newer-control_rows :
        (cache : CachedIndexState) (l : List (IndexTableRow B))
        → filter is_control rows ≡ l
        → newer cache ≡ filter (is_newer ciphers cache) l
    newer-control_rows cache l e =
        filter-filter (is_newer ciphers cache) is_control rows (newer-control cache)
        ∙ ap (filter (is_newer ciphers cache)) e

    module _ (cache : CachedIndexState) where
      abbrev has_metadata : Bool
      has_metadata = is_newer ciphers cache published.metadata_row

      abbrev has_changes : Bool
      has_changes = is_newer ciphers cache published.changes_row

      newer-both :
          has_metadata ≡ true
          → has_changes ≡ true
          → (newer cache ≡ published.metadata_row ∷ published.changes_row ∷ [])
            ⊎ (newer cache ≡ published.changes_row ∷ published.metadata_row ∷ [])
      newer-both h k = elim published.control [
        | inl e ↦ inl (
            newer-control_rows cache (published.metadata_row ∷ published.changes_row ∷ []) e
            ∙ filter_two (is_newer ciphers cache) published.metadata_row published.changes_row h k)
        | inr e ↦ inr (
            newer-control_rows cache (published.changes_row ∷ published.metadata_row ∷ []) e
            ∙ filter_two (is_newer ciphers cache) published.changes_row published.metadata_row k h)
      ]

      newer-metadata_only :
          has_metadata ≡ true → has_changes ≡ false → newer cache ≡ published.metadata_row ∷ []
      newer-metadata_only h k = elim published.control [
        | inl e ↦
            newer-control_rows cache (published.metadata_row ∷ published.changes_row ∷ []) e
            ∙ filter_first (is_newer ciphers cache) published.metadata_row published.changes_row h k
        | inr e ↦
            newer-control_rows cache (published.changes_row ∷ published.metadata_row ∷ []) e
            ∙ filter_second (is_newer ciphers cache) published.changes_row published.metadata_row k
                h
      ]

      newer-changes_only :
          has_metadata ≡ false → has_changes ≡ true → newer cache ≡ published.changes_row ∷ []
      newer-changes_only h k = elim published.control [
        | inl e ↦
            newer-control_rows cache (published.metadata_row ∷ published.changes_row ∷ []) e
            ∙ filter_second (is_newer ciphers cache) published.metadata_row published.changes_row h
                k
        | inr e ↦
            newer-control_rows cache (published.changes_row ∷ published.metadata_row ∷ []) e
            ∙ filter_first (is_newer ciphers cache) published.changes_row published.metadata_row k h
      ]

      newer-none : has_metadata ≡ false → has_changes ≡ false → newer cache ≡ []
      newer-none h k = elim published.control [
        | inl e ↦
            newer-control_rows cache (published.metadata_row ∷ published.changes_row ∷ []) e
            ∙ filter_neither (is_newer ciphers cache) published.metadata_row published.changes_row h
                k
        | inr e ↦
            newer-control_rows cache (published.changes_row ∷ published.metadata_row ∷ []) e
            ∙ filter_neither (is_newer ciphers cache) published.changes_row published.metadata_row k
                h
      ]

      load_both-published :
          load_both ciphers published.metadata_row published.changes_row ≡ returns synchronised
      unfolding load_both
      load_both-published =
          rw (decrypt_as_metadata-published, decrypt_as_modifications-published) refl

      load_pages-both :
          (load_pages ciphers (published.metadata_row ∷ published.changes_row ∷ []) cache
            ≡ returns (synchronised, false))
          × (load_pages ciphers (published.changes_row ∷ published.metadata_row ∷ []) cache
              ≡ returns (synchronised, false))
      unfolding load_pages
      load_pages-both = (
        rw (metadata_is, changes_is, load_both-published) refl,
        rw (changes_not, changes_is, metadata_is, load_both-published) refl,
      )

      load_pages-metadata :
          load_pages ciphers (published.metadata_row ∷ []) cache
          ≡ returns (record { metadata = some m; changes = none }, is_some cache.changes)
      unfolding load_pages load_one
      load_pages-metadata = rw (metadata_is, decrypt_as_metadata-published) refl

      load_pages-changes :
          cache.metadata ≡ some m
          → load_pages ciphers (published.changes_row ∷ []) cache ≡ returns (synchronised, false)
      unfolding load_pages load_one load_changes
      load_pages-changes h =
          rw (changes_not, changes_is)
            (ap (λ o. load_changes ciphers published.changes_row o >>= (λ c. returns (c, false))) h
              ∙ rw decrypt_as_modifications-published refl)

      load_pages-none :
          cache.metadata ≡ some m
          → cache.changes ≡ some c
          → load_pages ciphers [] cache ≡ returns (synchronised, false)
      unfolding load_pages
      load_pages-none h k = ground arith

    cached-metadata :
        (cache : CachedIndexState)
        → IsBehind cache m c
        → is_newer ciphers cache published.metadata_row ≡ false
        → cache.metadata ≡ some m
    cached-metadata cache behind h = elim (Option-cases cache.metadata) [
      | inl e ↦ absurd (ground (arith, newer-metadata cache, published.metadata_started))
      | inr (m', e) ↦
          let same_version : m'.version ≡ m.version =
            ground (arith, newer-metadata cache, behind.not_ahead) in
          e ∙ ap some (behind.same_metadata m' e same_version)
    ]

    cached-changes :
        (cache : CachedIndexState)
        → is_newer ciphers cache published.changes_row ≡ false
        → (c' : VersionedModificationsTable) × (cache.changes ≡ some c')
          × (c'.modifications_version ≡ c.modifications_version)
    cached-changes cache h = elim (Option-cases cache.changes) [
      | inl e ↦ absurd (ground (arith, newer-changes cache, published.changes_started))
      | inr (c', e) ↦ (c', e, ground (arith, newer-changes cache))
    ]

    -- The cache after a new metadata page alone.
    abbrev reset : CachedIndexState
    reset = record { metadata = some m; changes = none }

    load_metadata-step :
        (later : List (List (IndexTableRow B))) (cache : CachedIndexState)
        (found : List (IndexTableRow B)) (next : Run (CachedIndexState × Bool))
        → newer cache ≡ found
        → load_pages ciphers found cache ≡ next
        → load_metadata ciphers (rows ∷ later) cache
          ≡ again ciphers (load_metadata ciphers later) next
    unfolding load_metadata
    load_metadata-step later cache found next e run =
        ap (λ l. again ciphers (load_metadata ciphers later) (load_pages ciphers l cache)) e
        ∙ ap (again ciphers (load_metadata ciphers later)) run

    load_metadata-reset : load_metadata ciphers (rows ∷ []) reset ≡ some (returns synchronised)
    load_metadata-reset =
        load_metadata-step [] reset (published.changes_row ∷ []) (returns (synchronised, false))
          (newer-changes_only reset (newer-metadata reset ∙ ground arith)
            (newer-changes reset ∙ ground (arith, published.changes_started)))
          (load_pages-changes reset refl)

    -- `load_metadata` makes the cache the two pages of the database, by at most two queries, if the
    -- table has one metadata and one modifications page, of positive versions, and the cache has
    -- nothing that is newer, and nothing else under the same versions.
    pub load_metadata-synchronised :
        (cache : CachedIndexState)
        → IsBehind cache m c
        → load_metadata ciphers (rows ∷ rows ∷ []) cache ≡ some (returns synchronised)
    load_metadata-synchronised cache behind =
        elim (Bool-cases (is_newer ciphers cache published.metadata_row)) [
          | inl new_m ↦ elim (Bool-cases (is_newer ciphers cache published.changes_row)) [
            | inl new_c ↦ elim (newer-both cache new_m new_c) [
              | inl e ↦ load_metadata-step (rows ∷ []) cache _ _ e (load_pages-both cache).0
              | inr e ↦ load_metadata-step (rows ∷ []) cache _ _ e (load_pages-both cache).1
            ]
            | inr old_c ↦
                let (c', e, same) = cached-changes cache old_c in
                load_metadata-step (rows ∷ []) cache _ _ (newer-metadata_only cache new_m old_c)
                  (load_pages-metadata cache ∙ ap (λ o. returns (reset, is_some o)) e)
                ∙ load_metadata-reset
          ]
          | inr old_m ↦
              let cached : cache.metadata ≡ some m = cached-metadata cache behind old_m in
              elim (Bool-cases (is_newer ciphers cache published.changes_row)) [
                | inl new_c ↦
                    load_metadata-step (rows ∷ []) cache _ _ (newer-changes_only cache old_m new_c)
                      (load_pages-changes cache cached)
                | inr old_c ↦
                    let (c', e, same) = cached-changes cache old_c in
                    let c_is : c' ≡ c = behind.same_changes m c' cached e refl same in
                    load_metadata-step (rows ∷ []) cache _ _ (newer-none cache old_m old_c)
                      (load_pages-none cache cached (e ∙ ap some c_is))
              ]
        ]
