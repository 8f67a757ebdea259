-- ===== src/InvertedIndex/Rebuild/Sound.antt =====
-- A rebuilt index has the documents that it had with its modifications.
use secure_fusion.Prelude.{
  ℕ, ◌+◌, ◌*◌, ◌/◌, ◌≤◌, ◌<◌, some, List, [], ◌∷◌, ◌++◌, Bool, true, false, ◌&&◌, ◌||◌, ◌==◌, flip,
  ◌≡◌, refl, ap, ◌∙◌, All, Bool-cases, Option-cases, inl, inr, arith,
}
use native.Mathlib.Nat.{le-div_iff_mul-le, mul_comm}
use secure_fusion.Prelude.Sets.{contains, Bytes, same_bytes, get, same_bytes-eq}
use secure_fusion.Run.{returns}
use secure_fusion.InvertedIndex.{ModificationsTable}
use secure_fusion.InvertedIndex.Modifications.{lists, has_with, IsDisjoint}
use secure_fusion.InvertedIndex.Metadata.{MetadataPage, get_num_pages}
use secure_fusion.InvertedIndex.Pages.{entries_data_size, max_entries}
use secure_fusion.InvertedIndex.Store.{Ciphers, IndexTableRow}
use secure_fusion.InvertedIndex.Store.Entries.{
  AreKnown, Entry, in_entries, in_entries-append, IsCovered, AreStored, none_stored,
}
use secure_fusion.InvertedIndex.Rebuild.{
  Pass, empty_pass, visit_pages, changed_pages, delete_changes, rebuild_pages,
}
use secure_fusion.InvertedIndex.Rebuild.Maps.{
  IsMap, has_word, lists-delete_changes, lists-append_changes, delete_changes-IsMap,
  append_changes-IsMap, has_word-delete_changes, has_word-append_changes,
}
use secure_fusion.InvertedIndex.Rebuild.Kept.{
  PageRoundTrip, append-AreStored, IsKept, IsPassed, visit_pages-IsPassed,
}
use secure_fusion.InvertedIndex.Rebuild.Paged.{FitsPages, ArePaged, page_words-ArePaged}

-- The kept pages, those to page anew, and the changes, for one term and one document.
rebuilt :
    (kept partial removed added : Bool)
    → (removed ≡ true → kept ≡ false)
    → (added && removed) ≡ false
    → (kept || ((partial && flip removed) || added))
      ≡ (((kept || partial) || added) && flip removed)
rebuilt kept partial removed added h k = ground (arith, h)

lists-has_word :
    (m : List (Bytes × List Bytes)) (t x : Bytes) → lists m t x ≡ true → has_word t m ≡ true
lists-has_word m t x h = elim (Option-cases (get t m)) [
  | inl g ↦ ground arith
  | inr (s, g) ↦ ground arith
]

AreKnown-append :
    (vocabulary : List Bytes) (es fs : List Entry)
    → AreKnown vocabulary es
    → AreKnown vocabulary fs
    → AreKnown vocabulary (es ++ fs)
AreKnown-append vocabulary [] fs h k = k
AreKnown-append vocabulary (e ∷ es) fs h k = (h.0, AreKnown-append vocabulary es fs h.1 k)

module _ {ℓ} {B : Type ℓ} (ciphers : Ciphers B) (size : ℕ) (undone : PageRoundTrip ciphers size)
    (version : ℕ) (changes : ModificationsTable) (metadata : MetadataPage) where
  empty-IsPassed :
      IsPassed ciphers size version changes metadata undone [] (empty_pass ciphers size)
  empty-IsPassed = record {
    kept = [];
    stored = none_stored;
    all_kept = tt;
    same = λ t x. refl;
    changed_words = λ t h. absurd (ground arith);
    is_map = tt;
    known = λ vocabulary h. tt;
  }

  -- The vocabulary has each word of the changes.
  abbrev pub HasWords : List Bytes → Type 0
  HasWords vocabulary =
      (t : Bytes)
      → (has_word t changes.removed_entries || has_word t changes.added_entries) ≡ true
      → contains t vocabulary ≡ true

  kept-no_deletions :
      (last_full : List (Bytes × ℕ)) (kept : List Entry) (t x : Bytes)
      → All (IsKept ciphers size version changes metadata undone last_full) kept
      → has_word t changes.removed_entries ≡ true
      → in_entries kept t x ≡ false
  kept-no_deletions last_full [] t x h gone = refl
  kept-no_deletions last_full (e ∷ kept) t x h gone = elim (Bool-cases (same_bytes t e.keyword)) [
    | inl here ↦
        let e_kept : has_word e.keyword changes.removed_entries ≡ false = h.0.no_deletions in
        let t_kept : has_word t changes.removed_entries ≡ false =
          ap (λ z. has_word z changes.removed_entries) (same_bytes-eq t e.keyword here) ∙ e_kept in
        absurd (ground arith)
    | inr there ↦ ground (arith, kept-no_deletions last_full kept t x h.1 gone)
  ]

  module _ (pass : Pass ciphers size) (es : List Entry)
      (passed : IsPassed ciphers size version changes metadata undone es pass)
      (added_map : IsMap changes.added_entries) (removed_map : IsMap changes.removed_entries) where
    abbrev changed : List (Bytes × List Bytes)
    changed = changed_pages ciphers size changes pass

    lists-changed :
        (t x : Bytes)
        → lists changed t x ≡ (
            (lists pass.partial_pages t x && flip (lists changes.removed_entries t x))
            || lists changes.added_entries t x)
    lists-changed t x =
        lists-append_changes changes.added_entries
          (delete_changes changes.removed_entries pass.partial_pages) t x added_map
        ∙ ap (λ b. b || lists changes.added_entries t x)
            (lists-delete_changes changes.removed_entries pass.partial_pages t x removed_map)

    has_word-changed :
        (t : Bytes)
        → has_word t changed ≡ (has_word t pass.partial_pages || has_word t changes.added_entries)
    has_word-changed t =
        has_word-append_changes t changes.added_entries
          (delete_changes changes.removed_entries pass.partial_pages)
        ∙ ap (λ b. b || has_word t changes.added_entries)
            (has_word-delete_changes t changes.removed_entries pass.partial_pages)

    changed-IsMap : IsMap changed
    changed-IsMap =
        append_changes-IsMap changes.added_entries
          (delete_changes changes.removed_entries pass.partial_pages)
          (delete_changes-IsMap changes.removed_entries pass.partial_pages passed.is_map)

    module _ (most : ℕ) (positive : 0 < most) (room : size * most ≤ entries_data_size)
        (after : MetadataPage) (rows : List (IndexTableRow B))
        (paged : ArePaged ciphers size undone
          (version + 1)
          most
          positive
          room
          pass.last_full_page
          changed
          metadata
          after
          rows) where
      in_entries-rebuilt :
          IsDisjoint changes
          → (t x : Bytes)
          → in_entries (passed.kept ++ paged.paged) t x ≡ has_with (in_entries es t x) changes t x
      in_entries-rebuilt disjoint t x =
          in_entries-append passed.kept paged.paged t x
          ∙ ap (λ b. in_entries passed.kept t x || b) (paged.same t x ∙ lists-changed t x)
          ∙ rebuilt (in_entries passed.kept t x) (lists pass.partial_pages t x)
              (lists changes.removed_entries t x) (lists changes.added_entries t x)
              (λ gone.
                kept-no_deletions pass.last_full_page passed.kept t x passed.all_kept
                  (lists-has_word changes.removed_entries t x gone))
              (disjoint t x)
          ∙ ap
              (λ b.
                (b || lists changes.added_entries t x) && flip (lists changes.removed_entries t x))
              (passed.same t x)

      paged-AreKnown :
          (vocabulary : List Bytes) (fs : List Entry)
          → HasWords vocabulary
          → All
              (λ (e : Entry).
                (has_word e.keyword changed ≡ true) × (e.number < get_num_pages after e.keyword))
              fs
          → AreKnown vocabulary fs
      paged-AreKnown vocabulary [] words h = tt
      paged-AreKnown vocabulary (e ∷ fs) words h = (
        words e.keyword (elim (Bool-cases (has_word e.keyword pass.partial_pages)) [
          | inl partial ↦ passed.changed_words e.keyword partial
          | inr full ↦ ground (arith, has_word-changed e.keyword, h.0.0)
        ]),
        paged-AreKnown vocabulary fs words h.1,
      )

      rebuilt-AreKnown :
          (vocabulary : List Bytes)
          → HasWords vocabulary
          → AreKnown vocabulary es
          → AreKnown vocabulary (passed.kept ++ paged.paged)
      rebuilt-AreKnown vocabulary words h =
          AreKnown-append vocabulary passed.kept paged.paged (passed.known vocabulary h)
            (paged-AreKnown vocabulary paged.paged words paged.promised)

      kept-promised :
          (e : Entry)
          → IsKept ciphers size version changes metadata undone pass.last_full_page e
          → e.number < get_num_pages after e.keyword
      kept-promised e h = elim (Bool-cases (has_word e.keyword changes.added_entries)) [
        | inl additions ↦
            let (last, found, le) = h.not_after additions in
            let here : has_word e.keyword changed ≡ true =
              ground (arith, has_word-changed e.keyword) in
            omega (arith, paged.last_promised e.keyword last here found)
        | inr no_additions ↦
            let there : has_word e.keyword changed ≡ false =
              elim (Bool-cases (has_word e.keyword pass.partial_pages)) [
                | inl p ↦ absurd (ground (arith, passed.changed_words e.keyword p, h.no_deletions))
                | inr p ↦ ground (arith, has_word-changed e.keyword)
              ] in
            omega (arith, paged.others e.keyword there, h.promised)
      ]

      IsCovered-append :
          (kept fs : List Entry)
          → All (IsKept ciphers size version changes metadata undone pass.last_full_page) kept
          → All
              (λ (e : Entry).
                (has_word e.keyword changed ≡ true) × (e.number < get_num_pages after e.keyword))
              fs
          → IsCovered after (kept ++ fs)
      IsCovered-append [] [] h k = tt
      IsCovered-append [] (f ∷ fs) h k = (k.0.1, IsCovered-append [] fs h k.1)
      IsCovered-append (e ∷ kept) fs h k = (kept-promised e h.0, IsCovered-append kept fs h.1 k)

  abbrev pub most_entries : ℕ
  most_entries = entries_data_size / size

  pub positive_entries : 0 < size → size ≤ entries_data_size → 0 < most_entries
  positive_entries positive small =
      let one : 1 ≤ entries_data_size / size =
        (le-div_iff_mul-le positive).1 (omega (arith, small)) in
      omega (arith, one)

  pub room_entries : 0 < size → size * most_entries ≤ entries_data_size
  room_entries positive =
      let le : most_entries * size ≤ entries_data_size =
        (le-div_iff_mul-le positive).0 (omega arith) in
      omega (arith, le, mul_comm size most_entries)

  max_entries-returns : 0 < size → max_entries size ≡ returns most_entries
  unfolding max_entries
  max_entries-returns positive = let nonzero : (size == 0) ≡ false = ground arith in rw nonzero refl

  -- Whatever the pass over the old pages leaves to page anew, fits pages.
  abbrev pub HasRoom : 0 < size → size ≤ entries_data_size → List (IndexTableRow B) → Type ℓ
  HasRoom positive small rows =
      (pass : Pass ciphers size)
      → visit_pages ciphers size version changes rows (empty_pass ciphers size) ≡ returns pass
      → All
          (FitsPages ciphers size undone (version + 1) most_entries
            (positive_entries positive small) (room_entries positive) pass.last_full_page)
          (changed_pages ciphers size changes pass)

  -- The rebuilding of an index ends with pages of the next version, which its metadata promise, and
  -- which have just the documents that the index had by its pages and its modifications. The old
  -- pages are those of the version, and promised; the modifications are maps, and no document is
  -- added and removed under one term; a page has room for a document, and the documents to page anew
  -- fit pages; decryption undoes the encryption of pages. The terms of the new pages are in each
  -- vocabulary that has those of the old pages and of the modifications.
  pub rebuild_pages-keeps :
      (rows : List (IndexTableRow B)) (es : List Entry) (positive : 0 < size)
      (small : size ≤ entries_data_size)
      → AreStored ciphers size version rows es
      → IsCovered metadata es
      → IsMap changes.added_entries
      → IsMap changes.removed_entries
      → IsDisjoint changes
      → HasRoom positive small rows
      → (rows' : List (IndexTableRow B)) × (metadata' : MetadataPage) × (es' : List Entry)
        × (rebuild_pages ciphers size version changes metadata rows
            ≡ some (returns (rows', metadata')))
        × AreStored ciphers size (version + 1) rows' es'
        × IsCovered metadata' es'
        × ((t x : Bytes) → in_entries es' t x ≡ has_with (in_entries es t x) changes t x)
        × ((vocabulary : List Bytes)
            → HasWords vocabulary
            → AreKnown vocabulary es
            → AreKnown vocabulary es')
  unfolding rebuild_pages
  rebuild_pages-keeps rows es positive small stored covered added_map removed_map disjoint room =
      let most_positive : 0 < most_entries = positive_entries positive small in
      let fits : size * most_entries ≤ entries_data_size = room_entries positive in
      let (pass, run, passed) =
        visit_pages-IsPassed ciphers size version changes metadata undone rows es []
          (empty_pass ciphers size) positive stored covered empty-IsPassed in
      let (rows', after, run', paged) =
        page_words-ArePaged ciphers size undone (version + 1) most_entries most_positive fits
          pass.last_full_page (changed_pages ciphers size changes pass) metadata
          (changed-IsMap pass es passed added_map removed_map) (room pass run) in
      (
        pass.new_pages ++ rows',
        after,
        passed.kept ++ paged.paged,
        rw (run, max_entries-returns positive, run') refl,
        append-AreStored ciphers size (version + 1) pass.new_pages rows' passed.kept paged.paged
            passed.stored paged.stored,
        IsCovered-append pass es passed added_map removed_map most_entries most_positive fits after
            rows' paged passed.kept paged.paged passed.all_kept paged.promised,
        in_entries-rebuilt pass es passed added_map removed_map most_entries most_positive fits
            after rows' paged disjoint,
        rebuilt-AreKnown pass es passed added_map removed_map most_entries most_positive fits after
            rows' paged,
      )
