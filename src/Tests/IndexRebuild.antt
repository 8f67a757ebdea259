-- ===== src/Tests/IndexRebuild.antt =====
-- The next version of an index, with a document that is deleted and one that is added.
use secure_fusion.Prelude.{
  Bool-cases, inl, inr, ◌&&◌, ◌≤◌, ◌≡◌, refl, sym, ap, subst, ◌∙◌, none, some, List, [], ◌∷◌,
  is_some, if◌then◌else◌, map, inl, All, arith,
}
use secure_fusion.Prelude.Sets.{same_bytes-eq, same_bytes, Bytes, same_bytes_refl, get}
use secure_fusion.Run.{Run, returns}
use secure_fusion.InvertedIndex.{RawIndexQuery, term, intersect, ModificationsTable}
use secure_fusion.InvertedIndex.Modifications.{lists, IsDisjoint}
use secure_fusion.InvertedIndex.Metadata.{get_num_pages}
use secure_fusion.InvertedIndex.Store.{page_tag, IndexTableRow, CachedIndexState}
use secure_fusion.InvertedIndex.Store.Lookup.{query}
use secure_fusion.InvertedIndex.Store.Lookup.Answers.{Answers}
use secure_fusion.InvertedIndex.Rebuild.{
  Pass, empty_pass, to_partial, visit_page, changed_pages, visit_pages, append_changes,
  delete_changes, extend_or_default, remaining,
}
use secure_fusion.InvertedIndex.Rebuild.Remaining.{remaining-drops}
use secure_fusion.InvertedIndex.Rebuild.NextVersion.{do_next_version}
use secure_fusion.InvertedIndex.Rebuild.NextVersion.Written.{
  ControlRoundTrip, IsRoomy, do_next_version-keeps,
}
use secure_fusion.InvertedIndex.Rebuild.Kept.{PageRoundTrip}
use secure_fusion.InvertedIndex.Rebuild.Paged.{FitsPages}
use secure_fusion.InvertedIndex.Rebuild.Sound.{
  HasRoom, most_entries, positive_entries, room_entries,
}
use secure_fusion.Tests.InvertedIndex.{red, car, one, two, two_documents}
use secure_fusion.Tests.IndexTable.{
  Blob, plain, vocabulary, distinct, page_opened, red-IsPage, red_row, red_entry, metadata, changes,
  versioned_metadata, versioned_changes, rows, old_cache, behind, index, asked,
}

page_undone : PageRoundTrip plain 2
page_undone v tag p = ground (arith, same_bytes_refl tag)

abbrev pass_of : Run (Pass plain 2) → Pass plain 2
pass_of (returns pass) = pass
pass_of _ = empty_pass plain 2

small_documents : 2 ≤ 4008
small_documents = omega arith

-- The page of "red" has a document to delete, so all of it is paged anew.
abbrev old_pages : List (IndexTableRow Blob)
old_pages = red_row ∷ []

red_pass :
    visit_pages plain 2 7 changes old_pages (empty_pass plain 2)
    ≡ returns (to_partial plain 2 red (one ∷ two ∷ []) (empty_pass plain 2))
unfolding visit_pages visit_page
red_pass = rw (page_opened, red-IsPage.2.term_is, red-IsPage.2.items_are) refl

room : HasRoom plain 2 page_undone 7 changes metadata (omega arith) small_documents old_pages
unfolding append_changes delete_changes extend_or_default
room pass run =
    subst
      (λ p.
        All
          (FitsPages plain 2 page_undone 8 (most_entries plain 2 page_undone 7 changes metadata)
            (positive_entries plain 2 page_undone 7 changes metadata (omega arith) small_documents)
            (room_entries plain 2 page_undone 7 changes metadata (omega arith)) p.last_full_page)
          (changed_pages plain 2 changes p))
      (ap pass_of (sym red_pass ∙ run))
      (
        (omega arith, (two_documents.1, tt), omega arith),
        ((omega arith, (two_documents.1, tt), omega arith), tt),
      )

control_undone : ControlRoundTrip plain (λ m. 8) 2
control_undone = record { metadata = λ v m. ground arith; modifications = λ v n m. ground arith }

disjoint : IsDisjoint changes
disjoint t x = elim (Bool-cases (same_bytes t red)) [
  | inl e ↦
      ap (λ z. lists changes.added_entries z x && lists changes.removed_entries z x)
        (same_bytes-eq t red e)
  | inr n ↦ ground arith
]

roomy :
    IsRoomy plain
      (λ m. 8)
      2
      rows
      versioned_metadata
      versioned_changes
      (red_entry ∷ [])
      vocabulary
      index
      control_undone
      page_undone
unfolding page_tag
roomy = record {
  positive = omega arith;
  small = small_documents;
  added_map = (refl, tt);
  removed_map = (refl, tt);
  disjoint = disjoint;
  words = λ t h. ground arith;
  shrinks = λ m h. omega arith;
  room = room;
}

-- The document 1 is deleted under "red", and 2 added under "car"; after the task, red AND car is
-- answered.
do_next_version-keeps_example :
    (rows' : List (IndexTableRow Blob)) × (do_next_version plain (λ m. 8) 2 7 rows rows
      ≡ some (returns rows'))
    × (answer : RawIndexQuery → List Bytes) × (cache' : CachedIndexState) × (query plain 2
          (rows' ∷ rows' ∷ [])
          rows'
          (intersect (term red) (term car) ∷ [])
          old_cache
        ≡ some (returns (cache', map answer (intersect (term red) (term car) ∷ []))))
    × All
        (Answers plain 2 rows versioned_metadata versioned_changes (red_entry ∷ []) answer)
        (intersect (term red) (term car) ∷ [])
do_next_version-keeps_example =
    do_next_version-keeps plain (λ m. 8) 2 rows versioned_metadata versioned_changes
      (red_entry ∷ []) vocabulary index control_undone page_undone roomy
      (λ pages md shrunk run ends. distinct 8 (get_num_pages shrunk)) old_cache behind
      (intersect (term red) (term car) ∷ []) asked

-- A new index with two documents, one under "red" and both under "car".
abbrev first_changes : ModificationsTable
first_changes = record {
  added_entries = (red, one ∷ []) ∷ (car, one ∷ two ∷ []) ∷ [];
  removed_entries = [];
}

-- Another document was added under "car" before the rebuilding ends.
abbrev later_changes : ModificationsTable
later_changes = record {
  added_entries = (red, one ∷ []) ∷ (car, one ∷ two ∷ (3 ∷ 0 ∷ []) ∷ []) ∷ [];
  removed_entries = [];
}

remaining-drops_example :
    (get car (remaining first_changes later_changes).added_entries ≡ (
      if is_some (get car first_changes.added_entries)
      then none
      else get car later_changes.added_entries))
    × (get car (remaining first_changes later_changes).removed_entries ≡ (
        if is_some (get car first_changes.removed_entries)
        then none
        else get car later_changes.removed_entries))
remaining-drops_example = remaining-drops first_changes later_changes car
