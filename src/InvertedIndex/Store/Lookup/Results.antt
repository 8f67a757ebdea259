-- ===== src/InvertedIndex/Store/Lookup/Results.antt =====
-- The pages that `query_terms` reads are those of its terms.
use secure_fusion.Prelude.{
  ℕ, ◌<◌, none, some, List, [], ◌∷◌, ◌++◌, map, take, Bool, true, false, ◌&&◌, ◌||◌, is_some,
  if◌then◌else◌, ◌≡◌, refl, sym, subst, ap, ◌∙◌, Bool-cases, Option-cases, inl, inr, arith,
}
use secure_fusion.Prelude.Sets.{
  Bytes, same_bytes, contains, filter, get, same_bytes-eq, same_bytes_refl, same_bytes_comm,
  contains-append,
}
use secure_fusion.Run.{Run, returns}
use secure_fusion.InvertedIndex.Modifications.{lists, lists-set, lists-set_ne, lists-get}
use secure_fusion.InvertedIndex.Metadata.{get_num_pages}
use secure_fusion.InvertedIndex.Pages.{TermPage, items}
use secure_fusion.InvertedIndex.Store.{
  page_tag, Ciphers, IndexTableRow, VersionedMetadataPage, metadata_tag, modifications_tag,
}
use secure_fusion.InvertedIndex.Store.Load.{is_control}
use secure_fusion.InvertedIndex.Store.Entries.{
  Entry, in_entries, IsCovered, AreKnown, HasDistinctTags, IsStored, AreStored, none_stored,
  one_stored, is_page,
}
use secure_fusion.InvertedIndex.Store.Lookup.{
  tag_prefix_size, extend_entry, keys, is_selected, decrypt_pages, query_pages, tags_of,
  collect_pages, query_terms,
}
use secure_fusion.InvertedIndex.Store.Lookup.Tags.{
  contains-keys, IsOther, get-tags_of, get-tags_of_other, lists-tags_of,
}

lists-extend_entry :
    (kw : Bytes) (ids : List Bytes) (output : List (Bytes × List Bytes)) (t x : Bytes)
    → lists (extend_entry kw ids output) t x
      ≡ (lists output t x || (same_bytes t kw && contains x ids))
lists-extend_entry kw ids output t x = elim (Option-cases (get kw output)) [
  | inl g ↦ elim (Bool-cases (same_bytes t kw)) [
    | inl h ↦ ground (arith, same_bytes-eq t kw h, lists-set t x kw ids output h)
    | inr h ↦ ground (arith, lists-set_ne t x kw ids output h)
  ]
  | inr (s, g) ↦ elim (Bool-cases (same_bytes t kw)) [
    | inl h ↦ ground (
      arith,
      lists-set t x kw (s ++ ids) output h,
      lists-get t x kw s output h g,
      contains-append x s ids,
    )
    | inr h ↦ ground (arith, lists-set_ne t x kw (s ++ ids) output h)
  ]
]

contains-map :
    (f : Bytes → Bytes) (x : Bytes) (s : List Bytes)
    → contains x s ≡ true
    → contains (f x) (map f s) ≡ true
contains-map f x [] h = cc
contains-map f x (y ∷ s) h = elim (Bool-cases (same_bytes x y)) [
  | inl e ↦
      let same : same_bytes (f x) (f y) ≡ true =
        ap (λ z. same_bytes (f x) (f z)) (sym (same_bytes-eq x y e)) ∙ same_bytes_refl (f x) in
      ground arith
  | inr e ↦ ground (arith, contains-map f x s)
]

module _ {ℓ} {B : Type ℓ} (ciphers : Ciphers B) where
  decrypt_pages-nil :
      (version : ℕ) (rows : List (IndexTableRow B))
      → decrypt_pages ciphers [] version rows ≡ returns []
  unfolding decrypt_pages
  decrypt_pages-nil version [] = refl
  decrypt_pages-nil version (row ∷ rows) = decrypt_pages-nil version rows

  query_pages_lem :
      (rows : List (IndexTableRow B)) (tags : List Bytes) (version : ℕ)
      → query_pages ciphers rows tags version
        ≡ decrypt_pages ciphers tags version (filter (is_selected ciphers tags version) rows)
  unfolding query_pages
  query_pages_lem rows [] version =
      sym (decrypt_pages-nil version (filter (is_selected ciphers [] version) rows))
  query_pages_lem rows (t ∷ tags) version = refl

  module _ (size : ℕ) (m : VersionedMetadataPage) (vocabulary : List Bytes)
      (distinct : HasDistinctTags ciphers m.version vocabulary (get_num_pages m.metadata))
      (terms : List Bytes)
      (asked : (t : Bytes) → contains t terms ≡ true → contains t vocabulary ≡ true) where
    tag_to_kw : List (Bytes × Bytes)
    tag_to_kw = (tags_of ciphers m terms [] []).0

    abbrev selected : IndexTableRow B → Bool
    selected = is_selected ciphers (keys tag_to_kw) m.version

    abbrev decrypted : List (IndexTableRow B) → Run (List (Bytes × TermPage))
    decrypted rows = decrypt_pages ciphers (keys tag_to_kw) m.version (filter selected rows)

    no_page_tag :
        (tag : Bytes)
        → (same_bytes tag metadata_tag || same_bytes tag modifications_tag) ≡ true
        → (k : Bytes) → contains k terms ≡ true
        → IsOther ciphers m tag k
    no_page_tag tag h k i n lt = elim (Bool-cases (same_bytes tag metadata_tag)) [
      | inl e ↦
          ap (λ z. same_bytes z (page_tag ciphers m.version k n)) (same_bytes-eq tag metadata_tag e)
          ∙ same_bytes_comm metadata_tag (page_tag ciphers m.version k n)
          ∙ distinct.not_metadata k n (asked k i) lt
      | inr e ↦
          let f : same_bytes tag modifications_tag ≡ true = ground arith in
          ap (λ z. same_bytes z (page_tag ciphers m.version k n))
            (same_bytes-eq tag modifications_tag f)
          ∙ same_bytes_comm modifications_tag (page_tag ciphers m.version k n)
          ∙ distinct.not_modifications k n (asked k i) lt
    ]

    hit-control :
        (row : IndexTableRow B)
        → is_control ciphers row ≡ true
        → contains row.tag (keys tag_to_kw) ≡ false
    unfolding tag_to_kw
    hit-control row h =
        contains-keys row.tag tag_to_kw
        ∙ ap is_some (get-tags_of_other ciphers m row.tag terms [] [] (no_page_tag row.tag h))

    -- The tag of a page is not one of another term that is asked for.
    stored-IsOther :
        (e : Entry)
        → e.number < get_num_pages m.metadata e.keyword
        → contains e.keyword vocabulary ≡ true
        → (kw : Bytes) → contains kw terms ≡ true
        → same_bytes e.keyword kw ≡ false
        → IsOther ciphers m (page_tag ciphers m.version e.keyword e.number) kw
    stored-IsOther e covered known kw i d n lt =
        elim (Bool-cases (
          same_bytes (page_tag ciphers m.version e.keyword e.number)
            (page_tag ciphers m.version kw n))) [
              | inl h ↦
                  let same : e.keyword ≡ kw =
                    distinct.different_terms e.keyword kw e.number n known (asked kw i) covered lt (
                      same_bytes-eq (page_tag ciphers m.version e.keyword e.number)
                        (page_tag ciphers m.version kw n) h) in
                  let equal : same_bytes e.keyword kw ≡ true =
                    ap (same_bytes e.keyword) (sym same) ∙ same_bytes_refl e.keyword in
                  absurd (ground arith)
              | inr h ↦ h
            ]

    hit-page :
        (row : IndexTableRow B) (e : Entry)
        → IsStored ciphers size m.version row e
        → e.number < get_num_pages m.metadata e.keyword
        → contains e.keyword vocabulary ≡ true
        → get row.tag tag_to_kw ≡ (if contains e.keyword terms then some e.keyword else none)
    unfolding tag_to_kw
    hit-page row e stored covered known =
        ap (λ tag. get tag tag_to_kw) stored.tag_is
        ∙ get-tags_of ciphers m e.keyword e.number covered terms [] []
            (stored-IsOther e covered known)

    decrypted-miss :
        (row : IndexTableRow B) (rows : List (IndexTableRow B))
        → contains row.tag (keys tag_to_kw) ≡ false
        → decrypted (row ∷ rows) ≡ decrypted rows
    unfolding decrypt_pages
    decrypted-miss row rows h = elim (Bool-cases (selected row)) [
      | inl s ↦ rw (s, h) refl
      | inr s ↦ rw s refl
    ]

    decrypted-hit :
        (row : IndexTableRow B) (rows : List (IndexTableRow B)) (e : Entry)
        (stored : IsStored ciphers size m.version row e) (pages : List (Bytes × TermPage))
        → contains row.tag (keys tag_to_kw) ≡ true
        → decrypted rows ≡ returns pages
        → decrypted (row ∷ rows) ≡ returns ((row.tag, stored.term_page) ∷ pages)
    unfolding decrypt_pages
    decrypted-hit row rows e stored pages h run =
        let s : selected row ≡ true = ground (
          arith,
          contains-map (take tag_prefix_size) row.tag (keys tag_to_kw) h,
          stored.version_is,
        ) in
        rw (s, h, stored.decrypts, run) refl

    -- The pages that are read of the table, and the results to which they come.
    abbrev Reads : List (IndexTableRow B) → List Entry → Type 0
    Reads rows es =
        (pages : List (Bytes × TermPage)) × (decrypted rows ≡ returns pages)
        × ((output : List (Bytes × List Bytes))
            → (output' : List (Bytes × List Bytes)) × (collect_pages ciphers size tag_to_kw pages
                  output
                ≡ returns output')
              × ((t x : Bytes)
                  → lists output' t x
                    ≡ (lists output t x || (contains t terms && in_entries es t x))))

    control-Reads :
        (row : IndexTableRow B) (rows : List (IndexTableRow B)) (es : List Entry)
        → is_control ciphers row ≡ true
        → Reads rows es
        → Reads (row ∷ rows) es
    control-Reads row rows es h (pages, run, results) =
        (pages, decrypted-miss row rows (hit-control row h) ∙ run, results)

    skipped :
        (a w s e i : Bool)
        → (s ≡ true → w ≡ false)
        → (a || (w && i)) ≡ (a || (w && ((s && e) || i)))
    skipped a w s e i h = ground (arith, h)

    skipped-Reads :
        (row : IndexTableRow B) (rows : List (IndexTableRow B)) (e : Entry) (es : List Entry)
        → IsStored ciphers size m.version row e
        → e.number < get_num_pages m.metadata e.keyword
        → contains e.keyword vocabulary ≡ true
        → contains e.keyword terms ≡ false
        → Reads rows es
        → Reads (row ∷ rows) (e ∷ es)
    skipped-Reads row rows e es stored covered known absent (pages, run, results) =
        let miss : get row.tag tag_to_kw ≡ none =
          hit-page row e stored covered known ∙ rw absent refl in
        (
          pages,
          decrypted-miss row rows (contains-keys row.tag tag_to_kw ∙ ap is_some miss) ∙ run,
          λ output.
              let (output', collected, means) = results output in
              (
                output',
                collected,
                λ t x.
                    means t x
                    ∙ skipped (lists output t x) (contains t terms) (same_bytes t e.keyword)
                        (contains x e.ids) (in_entries es t x)
                        (λ s. ap (λ z. contains z terms) (same_bytes-eq t e.keyword s) ∙ absent),
              ),
        )

    counted :
        (a w s c i : Bool)
        → (s ≡ true → w ≡ true)
        → ((a || (s && c)) || (w && i)) ≡ (a || (w && ((s && c) || i)))
    counted a w s c i h = ground (arith, h)

    collect_pages-hit :
        (tag kw : Bytes) (page : TermPage) (ids : List Bytes) (pages : List (Bytes × TermPage))
        (output : List (Bytes × List Bytes))
        → get tag tag_to_kw ≡ some kw
        → items size page ≡ returns ids
        → collect_pages ciphers size tag_to_kw ((tag, page) ∷ pages) output
          ≡ collect_pages ciphers size tag_to_kw pages (extend_entry kw ids output)
    unfolding collect_pages
    collect_pages-hit tag kw page ids pages output hit read = rw (hit, collect_pages, read) refl

    page-Reads :
        (row : IndexTableRow B) (rows : List (IndexTableRow B)) (e : Entry) (es : List Entry)
        → IsStored ciphers size m.version row e
        → e.number < get_num_pages m.metadata e.keyword
        → contains e.keyword vocabulary ≡ true
        → contains e.keyword terms ≡ true
        → Reads rows es
        → Reads (row ∷ rows) (e ∷ es)
    page-Reads row rows e es stored covered known present (pages, run, results) =
        let hit : get row.tag tag_to_kw ≡ some e.keyword =
          hit-page row e stored covered known ∙ rw present refl in
        (
          (row.tag, stored.term_page) ∷ pages,
          decrypted-hit row rows e stored pages (contains-keys row.tag tag_to_kw ∙ ap is_some hit)
              run,
          λ output.
              let (output', collected, means) = results (extend_entry e.keyword e.ids output) in
              (
                output',
                collect_pages-hit row.tag e.keyword stored.term_page e.ids pages output hit
                      stored.page_is.items_are
                    ∙ collected,
                λ t x.
                    means t x
                    ∙ ap (λ b. b || (contains t terms && in_entries es t x))
                        (lists-extend_entry e.keyword e.ids output t x)
                    ∙ counted (lists output t x) (contains t terms) (same_bytes t e.keyword)
                        (contains x e.ids) (in_entries es t x)
                        (λ s. ap (λ z. contains z terms) (same_bytes-eq t e.keyword s) ∙ present),
              ),
        )

    uncons-AreStored :
        (row : IndexTableRow B) (rows : List (IndexTableRow B)) (es : List Entry)
        → AreStored ciphers size m.version (row ∷ rows) es
        → (e : Entry) × (fs : List Entry) × (es ≡ e ∷ fs)
          × IsStored ciphers size m.version row e
          × AreStored ciphers size m.version rows fs
    uncons-AreStored row rows [] x = elim x [ ]
    uncons-AreStored row rows (e ∷ fs) (one_stored s ss) = (e, fs, refl, s, ss)

    no_stored : (es : List Entry) → AreStored ciphers size m.version [] es → es ≡ []
    no_stored [] none_stored = refl
    no_stored (e ∷ es) x = elim x [ ]

    rows-Reads :
        (rows : List (IndexTableRow B)) (es : List Entry)
        → AreStored ciphers size m.version (filter (is_page ciphers) rows) es
        → IsCovered m.metadata es
        → AreKnown vocabulary es
        → Reads rows es
    unfolding decrypt_pages collect_pages
    rows-Reads [] es stored covered known =
        let none_left : es ≡ [] = no_stored es stored in
        ([], refl, λ output. (output, refl, λ t x. rw none_left (ground arith)))
    rows-Reads (row ∷ rows) es stored covered known = elim (Bool-cases (is_control ciphers row)) [
      | inl control ↦
          let rest : AreStored ciphers size m.version (filter (is_page ciphers) rows) es =
            subst (λ l. AreStored ciphers size m.version l es) (rw control refl) stored in
          control-Reads row rows es control (rows-Reads rows es rest covered known)
      | inr page ↦
          let here : AreStored ciphers size m.version (row ∷ filter (is_page ciphers) rows) es =
            subst (λ l. AreStored ciphers size m.version l es) (rw page refl) stored in
          let (e, fs, split, s, ss) =
            uncons-AreStored row (filter (is_page ciphers) rows) es here in
          let covers : IsCovered m.metadata (e ∷ fs) = subst (IsCovered m.metadata) split covered in
          let knows : AreKnown vocabulary (e ∷ fs) = subst (AreKnown vocabulary) split known in
          let rest : Reads rows fs = rows-Reads rows fs ss covers.1 knows.1 in
          subst (Reads (row ∷ rows)) (sym split) (elim (Bool-cases (contains e.keyword terms)) [
            | inl present ↦ page-Reads row rows e fs s covers.0 knows.0 present rest
            | inr absent ↦ skipped-Reads row rows e fs s covers.0 knows.0 absent rest
          ])
    ]

    -- The results have the documents of the pages of each term asked for, and no others, if the
    -- metadata promise all pages of the table.
    pub query_terms-entries :
        (rows : List (IndexTableRow B)) (es : List Entry)
        → AreStored ciphers size m.version (filter (is_page ciphers) rows) es
        → IsCovered m.metadata es
        → AreKnown vocabulary es
        → (results : List (Bytes × List Bytes)) × (query_terms ciphers size rows m terms
            ≡ returns results)
          × ((t x : Bytes) → lists results t x ≡ (contains t terms && in_entries es t x))
    unfolding query_terms tag_to_kw
    query_terms-entries rows es stored covered known =
        let (pages, run, collected) = rows-Reads rows es stored covered known in
        let (results, done, means) = collected (tags_of ciphers m terms [] []).1 in
        (
          results,
          rw (query_pages_lem rows (keys tag_to_kw) m.version, run) done,
          λ t x.
              means t x
              ∙ ap (λ b. b || (contains t terms && in_entries es t x))
                  (lists-tags_of ciphers m t x terms [] [] refl),
        )
