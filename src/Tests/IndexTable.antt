-- ===== src/Tests/IndexTable.antt =====
-- A table of an inverted index with a page, metadata and modifications, under ciphers that keep each
-- page as it is and check its version, its number and its tag.
use secure_fusion.Prelude.{
  ℕ, ◌<◌, ◌≡◌, refl, sym, ap, subst, Option, none, some, List, [], ◌∷◌, ◌++◌, take, map, Bool, true,
  false, ◌&&◌, ◌==◌, if◌then◌else◌, Bool-cases, inl, inr, All, arith,
}
use secure_fusion.Prelude.Sets.{Bytes, same_bytes, contains, same_bytes-eq, same_bytes_refl}
use secure_fusion.Run.{returns}
use secure_fusion.InvertedIndex.{
  RawIndexQuery, term, intersect, ModificationsTable, check_max_lengths, collect_terms, resize_term,
}
use secure_fusion.InvertedIndex.Pages.{TermPage, from_iterator}
use secure_fusion.InvertedIndex.Pages.RoundTrip.{IsPage, from_iterator-IsPage}
use secure_fusion.InvertedIndex.Metadata.{MetadataPage, get_num_pages}
use secure_fusion.InvertedIndex.Store.{
  metadata_tag, modifications_tag, page_tag, to_le_bytes, Ciphers, IndexTableRow,
  VersionedMetadataPage, VersionedModificationsTable, CachedIndexState, load_metadata,
}
use secure_fusion.InvertedIndex.Store.Load.{IsPublished, IsBehind, load_metadata-synchronised}
use secure_fusion.InvertedIndex.Store.Entries.{Entry, HasDistinctTags, none_stored, one_stored}
use secure_fusion.InvertedIndex.Store.Lookup.{query}
use secure_fusion.InvertedIndex.Store.Lookup.Answers.{IsIndex, AreAsked, Answers, query-Answers}
use secure_fusion.InvertedIndex.Update.{insert_many, update_changeset}
use secure_fusion.InvertedIndex.Update.Sound.{ChangesRoundTrip, AnswersWith, query-insert_many}
use secure_fusion.Tests.InvertedIndex.{red, car, one, two, two_documents}

pub data Blob : Type 0 where
  metadata_blob : ℕ → MetadataPage → Blob
  changes_blob : ℕ → ℕ → ModificationsTable → Blob
  page_blob : ℕ → Bytes → TermPage → Blob

abbrev pub open_metadata : ℕ → Blob → Option MetadataPage
open_metadata v (metadata_blob w m) = if v == w then some m else none
open_metadata v _ = none

abbrev pub open_changes : ℕ → ℕ → Blob → Option ModificationsTable
open_changes v n (changes_blob w k m) = if (v == w) && (n == k) then some m else none
open_changes v n _ = none

abbrev pub open_page : ℕ → Bytes → Blob → Option TermPage
open_page v tag (page_blob w t p) = if (v == w) && same_bytes tag t then some p else none
open_page v tag _ = none

abbrev twelve_zeros : Bytes
twelve_zeros = 0 ∷ 0 ∷ 0 ∷ 0 ∷ 0 ∷ 0 ∷ 0 ∷ 0 ∷ 0 ∷ 0 ∷ 0 ∷ 0 ∷ []

abbrev pub plain : Ciphers Blob
plain = record {
  identifier = λ v input n. take n (0 ∷ input ++ twelve_zeros);
  decrypt_metadata = open_metadata;
  encrypt_metadata = metadata_blob;
  decrypt_modifications = open_changes;
  encrypt_modifications = changes_blob;
  decrypt_page = open_page;
  encrypt_page = page_blob;
}

pub red-IsPage :
    (page : TermPage) × (from_iterator 2 red 0 (one ∷ two ∷ []) ≡ returns page)
    × IsPage 2 page red 0 (one ∷ two ∷ [])
red-IsPage =
    from_iterator-IsPage 2 red 0 (one ∷ two ∷ []) (two_documents.0, (two_documents.1, tt))
      (omega arith) (omega arith) (omega arith)

abbrev pub red_entry : Entry
red_entry = record { keyword = red; number = 0; ids = one ∷ two ∷ [] }

abbrev pub red_row : IndexTableRow Blob
red_row = record {
  tag = page_tag plain 7 red 0;
  version = 7;
  page = page_blob 7 (page_tag plain 7 red 0) red-IsPage.0;
}

abbrev pub metadata : MetadataPage
metadata = record { num_pages = (red, 1) ∷ []; default_num_pages = 0; key_size = 2 }

abbrev pub changes : ModificationsTable
changes = record { added_entries = (car, two ∷ []) ∷ []; removed_entries = (red, one ∷ []) ∷ [] }

abbrev pub versioned_metadata : VersionedMetadataPage
versioned_metadata = record { version = 7; metadata = metadata }

abbrev pub versioned_changes : VersionedModificationsTable
versioned_changes = record { modifications_version = 3; modifications = changes }

abbrev metadata_page : IndexTableRow Blob
metadata_page = record { tag = metadata_tag; version = 7; page = metadata_blob 7 metadata }

abbrev changes_page : IndexTableRow Blob
changes_page = record { tag = modifications_tag; version = 3; page = changes_blob 7 3 changes }

abbrev pub rows : List (IndexTableRow Blob)
rows = metadata_page ∷ red_row ∷ changes_page ∷ []

published : IsPublished plain rows versioned_metadata versioned_changes
unfolding page_tag
published = record {
  metadata_row = metadata_page;
  changes_row = changes_page;
  control = inl refl;
  metadata_tagged = refl;
  changes_tagged = refl;
  metadata_version = refl;
  changes_version = refl;
  metadata_decrypts = refl;
  changes_decrypts = refl;
  metadata_started = omega arith;
  changes_started = omega arith;
  changes_small = omega arith;
}

-- The cache has an older version, under the same number of modifications.
abbrev pub old_cache : CachedIndexState
old_cache = record {
  metadata = some (record { version = 6; metadata = metadata });
  changes = some (record {
    modifications_version = 3;
    modifications = record { added_entries = []; removed_entries = [] };
  });
}

abbrev version_of : Option VersionedMetadataPage → ℕ
version_of none = 0
version_of (some m) = m.version

older :
    (m : VersionedMetadataPage)
    → ◌≡◌ {A = Option VersionedMetadataPage}
        (some (record { version = 6; metadata = metadata }))
        (some m)
    → m.version ≡ 7
    → ⊥
older m e h = let version_is : 6 ≡ m.version = ap version_of e in omega (arith, version_is, h)

pub behind : IsBehind plain old_cache versioned_metadata versioned_changes
behind = record {
  not_ahead = omega arith;
  same_metadata = λ m e h. absurd (older m e h);
  same_changes = λ m c e f h k. absurd (older m e h);
}

promised : 0 < get_num_pages metadata red
unfolding get_num_pages
promised = omega arith

pub undone : ChangesRoundTrip plain (λ b. 100)
undone v n m = ground arith

abbrev pub vocabulary : List Bytes
vocabulary = red ∷ car ∷ []

of_vocabulary :
    (P : Bytes → Type 0) → P red → P car → (t : Bytes) → contains t vocabulary ≡ true → P t
of_vocabulary P r c t h = elim (Bool-cases (same_bytes t red)) [
  | inl e ↦ subst P (sym (same_bytes-eq t red e)) r
  | inr n ↦ subst P (sym (same_bytes-eq t car (ground arith))) c
]

-- The third byte of a tag is the second one of its word.
third : Bytes → ℕ
third (a ∷ b ∷ c ∷ s) = c
third _ = 0

red_not_car : (v i j : ℕ) → page_tag plain v red i ≡ page_tag plain v car j → ⊥
unfolding page_tag to_le_bytes third
red_not_car v i j e = let bytes : 114 ≡ 99 = ap third e in omega (arith, bytes)

pub distinct : (v : ℕ) (pages : Bytes → ℕ) → HasDistinctTags plain v vocabulary pages
unfolding page_tag to_le_bytes
distinct v pages = record {
  different_terms = λ t u i j t_in u_in i_lt j_lt.
      of_vocabulary (λ t. page_tag plain v t i ≡ page_tag plain v u j → t ≡ u)
        (of_vocabulary (λ u. page_tag plain v red i ≡ page_tag plain v u j → red ≡ u) (λ e. refl)
          (λ e. absurd (red_not_car v i j e)) u u_in)
        (of_vocabulary (λ u. page_tag plain v car i ≡ page_tag plain v u j → car ≡ u)
          (λ e. absurd (red_not_car v j i (sym e))) (λ e. refl) u u_in)
        t t_in;
  not_metadata = λ t i t_in i_lt.
      of_vocabulary (λ t. same_bytes (page_tag plain v t i) metadata_tag ≡ false) refl refl t t_in;
  not_modifications = λ t i t_in i_lt.
      of_vocabulary (λ t. same_bytes (page_tag plain v t i) modifications_tag ≡ false) refl refl t
        t_in;
}

pub page_opened :
    open_page 7 (page_tag plain 7 red 0) (page_blob 7 (page_tag plain 7 red 0) red-IsPage.0)
    ≡ some red-IsPage.0
page_opened = ground (arith, same_bytes_refl (page_tag plain 7 red 0))

pub asked :
    AreAsked plain 2 rows versioned_metadata versioned_changes
      (red_entry ∷ [])
      vocabulary
      (intersect (term red) (term car) ∷ [])
unfolding check_max_lengths collect_terms resize_term
asked t h = ground arith

asked_car :
    AreAsked plain 2 rows versioned_metadata versioned_changes
      (red_entry ∷ [])
      vocabulary
      (term car ∷ [])
unfolding check_max_lengths collect_terms resize_term
asked_car t h = ground arith

pub index : IsIndex plain 2 rows versioned_metadata versioned_changes (red_entry ∷ []) vocabulary
unfolding page_tag
index = record {
  published = published;
  distinct = distinct 7 (get_num_pages metadata);
  known = (refl, tt);
  stored =
      one_stored
        (record {
          version_is = refl;
          tag_is = refl;
          term_page = red-IsPage.0;
          decrypts = page_opened;
          page_is = red-IsPage.2;
        })
        none_stored;
  covered = (promised, tt);
}

load_metadata-synchronised_example :
    load_metadata plain (rows ∷ rows ∷ []) old_cache
    ≡ some
        (returns (record { metadata = some versioned_metadata; changes = some versioned_changes }))
load_metadata-synchronised_example =
    load_metadata-synchronised plain rows versioned_metadata versioned_changes published old_cache
      behind

-- red AND car
query-Answers_example :
    (answer : RawIndexQuery → List Bytes) × (query plain 2
        (rows ∷ rows ∷ [])
        rows
        (intersect (term red) (term car) ∷ [])
        old_cache
      ≡ some (
          returns (
            record { metadata = some versioned_metadata; changes = some versioned_changes },
            map answer (intersect (term red) (term car) ∷ []),
          )))
    × All
        (Answers plain 2 rows versioned_metadata versioned_changes (red_entry ∷ []) answer)
        (intersect (term red) (term car) ∷ [])
query-Answers_example =
    query-Answers plain 2 rows versioned_metadata versioned_changes (red_entry ∷ []) vocabulary
      index old_cache behind (intersect (term red) (term car) ∷ []) asked

-- The document 1 is inserted under "car", and "car" is asked for.
query-insert_many_example :
    (cache' : CachedIndexState) × (rows' : List (IndexTableRow Blob)) × (rebuild : Bool)
    × (update_changeset plain
          (λ b. 100)
          (rows ∷ rows ∷ [])
          rows
          (insert_many ((one, car ∷ []) ∷ []))
          old_cache
        ≡ some (returns (cache', (rows', rebuild))))
    × (answer : RawIndexQuery → List Bytes) × (cache'' : CachedIndexState) × (query plain 2
          (rows' ∷ rows' ∷ [])
          rows'
          (term car ∷ [])
          cache'
        ≡ some (returns (cache'', map answer (term car ∷ []))))
    × All
        (AnswersWith plain (λ b. 100) (red_entry ∷ []) changes ((one, car ∷ []) ∷ []) answer)
        (term car ∷ [])
query-insert_many_example =
    query-insert_many plain (λ b. 100) 2 rows versioned_metadata versioned_changes (red_entry ∷ [])
      old_cache vocabulary index behind (omega arith) undone ((one, car ∷ []) ∷ []) (term car ∷ [])
      asked_car
