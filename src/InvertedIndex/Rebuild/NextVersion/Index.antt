-- ===== src/InvertedIndex/Rebuild/NextVersion/Index.antt =====
-- What a table of an index is after the task that brings it to its next version.
use secure_fusion.Prelude.{
  All, ◌<◌, ℕ, ◌+◌, some, List, [], ◌∷◌, ◌++◌, Bool, true, false, ◌&&◌, ◌||◌, ◌==◌, flip,
  if◌then◌else◌, ◌≡◌, refl, ap, ◌∙◌, inl, inr, Bool-cases, arith,
}
use secure_fusion.Prelude.Sets.{contains, Bytes, same_bytes, filter}
use secure_fusion.Run.{returns}
use secure_fusion.InvertedIndex.Metadata.{MetadataPage}
use secure_fusion.InvertedIndex.Metadata.{MetadataPage, get_num_pages}
use secure_fusion.InvertedIndex.Store.{
  metadata_tag, modifications_tag, Ciphers, IndexTableRow, VersionedMetadataPage,
  VersionedModificationsTable,
}
use secure_fusion.InvertedIndex.Store.Load.{
  is_control, filter-filter, filter_first, filter_second, metadata_is, changes_is, changes_not,
  decrypt_as_metadata-published, decrypt_as_modifications-published,
}
use secure_fusion.InvertedIndex.Store.Entries.{
  Entry, AreKnown, IsCovered, HasDistinctTags, IsStored, AreStored, none_stored, one_stored,
  is_page,
}
use secure_fusion.InvertedIndex.Store.Lookup.Answers.{IsIndex}
use secure_fusion.InvertedIndex.Rebuild.NextVersion.{
  has_tag, is_old_page, is_left, load_current_metadata, load_modifications,
}

module _ {ℓ} {B : Type ℓ} (ciphers : Ciphers B) (encoded_size : MetadataPage → ℕ) (size : ℕ) where
  abbrev pub Row : Type ℓ
  Row = IndexTableRow B

  filter-both :
      (p q : Row → Bool) (l : List Row) → filter (λ row. p row && q row) l ≡ filter q (filter p l)
  filter-both p q [] = refl
  filter-both p q (x ∷ l) = elim (Bool-cases (p x)) [
    | inl h ↦ rw h (ap (λ r. if q x then x ∷ r else r) (filter-both p q l))
    | inr h ↦ rw h (filter-both p q l)
  ]

  filter-apart :
      (p q : Row → Bool) (l : List Row)
      → filter q (filter p l) ≡ []
      → filter q (filter (λ row. flip (p row)) l) ≡ []
      → filter q l ≡ []
  filter-apart p q [] h k = refl
  filter-apart p q (x ∷ l) h k = ground (arith, filter-apart p q l)

  pub filter-append :
      (p : Row → Bool) (l r : List Row) → filter p (l ++ r) ≡ filter p l ++ filter p r
  filter-append p [] r = refl
  filter-append p (x ∷ l) r = ground (arith, filter-append p l r)

  pub filter-stored_all :
      (p : Row → Bool) (Q : Entry → Type 0) (version : ℕ) (rows : List Row) (es : List Entry)
      → ((row : Row) (e : Entry) → IsStored ciphers size version row e → Q e → p row ≡ true)
      → AreStored ciphers size version rows es
      → All Q es
      → filter p rows ≡ rows
  filter-stored_all p Q version [] [] every none_stored h = refl
  filter-stored_all p Q version (row ∷ rows) (e ∷ es) every (one_stored s ss) h =
      rw (every row e s h.0)
        (ap (λ l. row ∷ l) (filter-stored_all p Q version rows es every ss h.1))
  filter-stored_all p Q version [] (e ∷ es) every x h = elim x [ ]
  filter-stored_all p Q version (row ∷ rows) [] every x h = elim x [ ]

  pub filter-stored_none :
      (p : Row → Bool) (Q : Entry → Type 0) (version : ℕ) (rows : List Row) (es : List Entry)
      → ((row : Row) (e : Entry) → IsStored ciphers size version row e → Q e → p row ≡ false)
      → AreStored ciphers size version rows es
      → All Q es
      → filter p rows ≡ []
  filter-stored_none p Q version [] [] every none_stored h = refl
  filter-stored_none p Q version (row ∷ rows) (e ∷ es) every (one_stored s ss) h =
      rw (every row e s h.0) (filter-stored_none p Q version rows es every ss h.1)
  filter-stored_none p Q version [] (e ∷ es) every x h = elim x [ ]
  filter-stored_none p Q version (row ∷ rows) [] every x h = elim x [ ]

  module _ (version : ℕ) (vocabulary : List Bytes) (metadata : MetadataPage)
      (distinct : HasDistinctTags ciphers version vocabulary (get_num_pages metadata)) where
    -- The term of the page is in the vocabulary, and the metadata promise the page.
    abbrev pub IsPlaced : Entry → Type 0
    IsPlaced e =
        (contains e.keyword vocabulary ≡ true) × (e.number < get_num_pages metadata e.keyword)

    pub all-IsPlaced :
        (es : List Entry) → AreKnown vocabulary es → IsCovered metadata es → All IsPlaced es
    all-IsPlaced [] h k = tt
    all-IsPlaced (e ∷ es) h k = ((h.0, k.0), all-IsPlaced es h.1 k.1)

    pub stored-not_control :
        (row : Row) (e : Entry)
        → IsStored ciphers size version row e
        → IsPlaced e
        → is_control ciphers row ≡ false
    stored-not_control row e s k =
        ap (λ t. same_bytes t metadata_tag || same_bytes t modifications_tag) s.tag_is
        ∙ rw
            (
              distinct.not_metadata e.keyword e.number k.0 k.1,
              distinct.not_modifications e.keyword e.number k.0 k.1,
            )
            refl

    pub stored-is_page :
        (row : Row) (e : Entry)
        → IsStored ciphers size version row e
        → IsPlaced e
        → is_page ciphers row ≡ true
    stored-is_page row e s k = ap flip (stored-not_control row e s k)

    -- A page of the next version is left by the deletion of the version before.
    pub stored-left :
        (old : ℕ)
        → old + 1 ≡ version
        → (row : Row) (e : Entry) → IsStored ciphers size version row e
        → IsPlaced e
        → is_left ciphers encoded_size size old row ≡ true
    stored-left old next row e s k =
        let other : (row.version == old) ≡ false = ground (arith, s.version_is) in
        let page : is_control ciphers row ≡ false = stored-not_control row e s k in ground arith

  module _ (rows : List Row) (m : VersionedMetadataPage) (c : VersionedModificationsTable)
      (es : List Entry) (vocabulary : List Bytes)
      (index : IsIndex ciphers size rows m c es vocabulary) where
    abbrev Covered : Entry → Type 0
    Covered e = e.number < get_num_pages m.metadata e.keyword

    metadata_other : same_bytes index.published.metadata_row.tag modifications_tag ≡ false
    metadata_other = ap (λ t. same_bytes t modifications_tag) index.published.metadata_tagged

    pub old_pages :
        filter (is_old_page ciphers encoded_size size m.version) rows
        ≡ filter (is_page ciphers) rows
    old_pages =
        filter-both (is_page ciphers) (λ row. row.version == m.version) rows
        ∙ filter-stored_all (λ row. row.version == m.version) Covered m.version
            (filter (is_page ciphers) rows) es (λ row e s k. ground (arith, s.version_is))
            index.stored index.covered

    first_of :
        (tag : Bytes) (row : Row)
        → ((r : Row) → has_tag ciphers encoded_size size tag r ≡ true → is_control ciphers r ≡ true)
        → filter (has_tag ciphers encoded_size size tag) (filter (is_control ciphers) rows)
          ≡ row ∷ []
        → filter (has_tag ciphers encoded_size size tag) rows ≡ row ∷ []
    first_of tag row control e =
        filter-filter ciphers (has_tag ciphers encoded_size size tag) (is_control ciphers) rows
          control
        ∙ e

    metadata_rows :
        filter (has_tag ciphers encoded_size size metadata_tag) rows
        ≡ index.published.metadata_row ∷ []
    metadata_rows =
        first_of metadata_tag index.published.metadata_row (λ r h. ground arith)
          (elim index.published.control [
            | inl e ↦
                ap (filter (has_tag ciphers encoded_size size metadata_tag)) e
                ∙ filter_first ciphers (has_tag ciphers encoded_size size metadata_tag)
                    index.published.metadata_row index.published.changes_row
                    (metadata_is ciphers rows m c index.published)
                    (changes_not ciphers rows m c index.published)
            | inr e ↦
                ap (filter (has_tag ciphers encoded_size size metadata_tag)) e
                ∙ filter_second ciphers (has_tag ciphers encoded_size size metadata_tag)
                    index.published.changes_row index.published.metadata_row
                    (changes_not ciphers rows m c index.published)
                    (metadata_is ciphers rows m c index.published)
          ])

    pub modifications_rows :
        filter (has_tag ciphers encoded_size size modifications_tag) rows
        ≡ index.published.changes_row ∷ []
    modifications_rows =
        first_of modifications_tag index.published.changes_row (λ r h. ground arith)
          (elim index.published.control [
            | inl e ↦
                ap (filter (has_tag ciphers encoded_size size modifications_tag)) e
                ∙ filter_second ciphers (has_tag ciphers encoded_size size modifications_tag)
                    index.published.metadata_row index.published.changes_row metadata_other
                    (changes_is ciphers rows m c index.published)
            | inr e ↦
                ap (filter (has_tag ciphers encoded_size size modifications_tag)) e
                ∙ filter_first ciphers (has_tag ciphers encoded_size size modifications_tag)
                    index.published.changes_row index.published.metadata_row
                    (changes_is ciphers rows m c index.published) metadata_other
          ])

    pub load_current_metadata-published :
        load_current_metadata ciphers encoded_size size m.version rows ≡ returns (some m)
    unfolding load_current_metadata
    load_current_metadata-published =
        let current : (index.published.metadata_row.version == m.version) ≡ true =
          ground (arith, index.published.metadata_version) in
        rw (metadata_rows, current, decrypt_as_metadata-published ciphers rows m c index.published)
          refl

    pub load_modifications-published :
        load_modifications ciphers encoded_size size m.version rows ≡ returns c
    unfolding load_modifications
    load_modifications-published =
        rw modifications_rows (decrypt_as_modifications-published ciphers rows m c index.published)

    -- Nothing of the old table is left.
    pub nothing_left : filter (is_left ciphers encoded_size size m.version) rows ≡ []
    nothing_left =
        let old : (index.published.metadata_row.version == m.version) ≡ true =
          ground (arith, index.published.metadata_version) in
        let gone : is_left ciphers encoded_size size m.version index.published.metadata_row
            ≡ false =
          ground arith in
        let changed : is_left ciphers encoded_size size m.version index.published.changes_row
            ≡ false =
          ground (arith, changes_is ciphers rows m c index.published) in
        filter-apart (is_control ciphers) (is_left ciphers encoded_size size m.version) rows
          (elim index.published.control [
            | inl e ↦
                ap (filter (is_left ciphers encoded_size size m.version)) e
                ∙ rw (gone, changed) refl
            | inr e ↦
                ap (filter (is_left ciphers encoded_size size m.version)) e
                ∙ rw (gone, changed) refl
          ])
          (filter-stored_none (is_left ciphers encoded_size size m.version) Covered m.version
            (filter (is_page ciphers) rows) es (λ row e s k. ground (arith, s.version_is))
            index.stored index.covered)
