-- ===== src/InvertedIndex/Rebuild/Kept.antt =====
-- The pass over the old pages of an index: what is kept, and what is paged anew.
use secure_fusion.Prelude.{
  ℕ, ◌+◌, ◌-◌, ◌≤◌, ◌<◌, some, List, [], ◌∷◌, ◌++◌, Bool, true, false, ◌&&◌, ◌||◌, ltb, leb, ◌==◌,
  length, ◌*◌, ◌/◌, ◌≡◌, refl, sym, ap, ap₂, subst, ◌∙◌, All, Bool-cases, inl, inr, arith,
}
use mathlib.Core.List.{append_assoc, append-nil}
use native.Mathlib.Nat.{le-div_iff_mul-le, mul_comm}
use secure_fusion.Prelude.Sets.{
  Bytes, same_bytes, contains, get, set, same_bytes-eq, get-set, get-set_ne,
}
use secure_fusion.Run.{returns}
use secure_fusion.InvertedIndex.{ModificationsTable}
use secure_fusion.InvertedIndex.Modifications.{lists}
use secure_fusion.InvertedIndex.Metadata.{MetadataPage, get_num_pages, unwrap_or}
use secure_fusion.InvertedIndex.Pages.{
  TermPage, header_term, page_number, max_entries, free_space, entries_data_size,
}
use secure_fusion.InvertedIndex.Pages.RoundTrip.{IsPage}
use secure_fusion.InvertedIndex.Store.{page_tag, Ciphers, IndexTableRow}
use secure_fusion.InvertedIndex.Store.Entries.{
  AreKnown, Entry, in_entries, in_entries-append, IsCovered, IsStored, AreStored, none_stored,
  one_stored,
}
use secure_fusion.InvertedIndex.Rebuild.{
  Pass, sealed, push, to_partial, raise_last, larger, keep_full, visit_page, visit_pages,
}
use secure_fusion.InvertedIndex.Rebuild.Maps.{
  IsMap, lists-extend_or_default, extend_or_default-IsMap, has_word, has_word-extend_or_default,
}

larger_left : (a b : ℕ) → a ≤ larger a b
larger_left a b = ground arith

larger_right : (a b : ℕ) → b ≤ larger a b
larger_right a b = ground arith

AreKnown-unlast :
    (vocabulary : List Bytes) (es : List Entry) (e : Entry)
    → AreKnown vocabulary (es ++ e ∷ [])
    → AreKnown vocabulary es × (contains e.keyword vocabulary ≡ true)
AreKnown-unlast vocabulary [] e h = (tt, h.0)
AreKnown-unlast vocabulary (f ∷ es) e h =
    let (front, last) = AreKnown-unlast vocabulary es e h.1 in ((h.0, front), last)

pub All-imp :
    (P Q : Entry → Type 0) (es : List Entry) → ((e : Entry) → P e → Q e) → All P es → All Q es
All-imp P Q [] f h = tt
All-imp P Q (e ∷ es) f h = (f e h.0, All-imp P Q es f h.1)

module _ {ℓ} {B : Type ℓ} (ciphers : Ciphers B) (size : ℕ) where
  -- The encryption of the pages, which the decryption undoes.
  abbrev pub PageRoundTrip : Type 0
  PageRoundTrip =
      (v : ℕ) (tag : Bytes) (p : TermPage)
      → ciphers.decrypt_page v tag (ciphers.encrypt_page v tag p) ≡ some p

  pub append-AreStored :
      (version : ℕ) (rows more : List (IndexTableRow B)) (es fs : List Entry)
      → AreStored ciphers size version rows es
      → AreStored ciphers size version more fs
      → AreStored ciphers size version (rows ++ more) (es ++ fs)
  append-AreStored version [] more [] fs none_stored h = h
  append-AreStored version (row ∷ rows) more (e ∷ es) fs (one_stored s ss) h =
      one_stored s (append-AreStored version rows more es fs ss h)
  append-AreStored version [] more (e ∷ es) fs x h = elim x [ ]
  append-AreStored version (row ∷ rows) more [] fs x h = elim x [ ]

  module _ (version : ℕ) (changes : ModificationsTable) (metadata : MetadataPage)
      (undone : PageRoundTrip) where
    -- A page that is kept: its word has no deletions, and if it has additions, the page is not after
    -- the last full one.
    pub record IsKept (last_full : List (Bytes × ℕ)) (e : Entry) : Type 0 where
      pub no_deletions : has_word e.keyword changes.removed_entries ≡ false
      pub promised : e.number < get_num_pages metadata e.keyword
      pub not_after :
          has_word e.keyword changes.added_entries ≡ true
          → (last : ℕ) × (get e.keyword last_full ≡ some last) × (e.number ≤ last)

    -- The pages so far are kept or are in the documents to page anew.
    pub record IsPassed (done : List Entry) (pass : Pass ciphers size) : Type ℓ where
      pub kept : List Entry
      pub stored : AreStored ciphers size (version + 1) pass.new_pages kept
      pub all_kept : All (IsKept pass.last_full_page) kept
      pub same :
          (t x : Bytes)
          → (in_entries kept t x || lists pass.partial_pages t x) ≡ in_entries done t x
      pub changed_words :
          (t : Bytes)
          → has_word t pass.partial_pages ≡ true
          → (has_word t changes.removed_entries || has_word t changes.added_entries) ≡ true
      pub is_map : IsMap pass.partial_pages
      pub known : (vocabulary : List Bytes) → AreKnown vocabulary done → AreKnown vocabulary kept

    sealed-IsStored :
        (page : TermPage) (e : Entry)
        → IsPage size page e.keyword e.number e.ids
        → IsStored ciphers size
            (version + 1)
            (sealed ciphers size
              (version + 1)
              (header_term page.header)
              (page_number page.header)
              page)
            e
    sealed-IsStored page e is_page = record {
      version_is = refl;
      tag_is = ap₂ (page_tag ciphers (version + 1)) is_page.term_is is_page.number_is;
      term_page = page;
      decrypts = undone (version + 1) _ page;
      page_is = is_page;
    }

    in_entries-last :
        (es : List Entry) (e : Entry) (t x : Bytes)
        → in_entries (es ++ e ∷ []) t x
          ≡ (in_entries es t x || (same_bytes t e.keyword && contains x e.ids))
    in_entries-last es e t x = in_entries-append es (e ∷ []) t x ∙ ground arith

    All-last :
        (P : Entry → Type 0) (es : List Entry) (e : Entry) → All P es → P e → All P (es ++ e ∷ [])
    All-last P [] e h k = (k, tt)
    All-last P (d ∷ es) e h k = (h.0, All-last P es e h.1 k)

    swap_or : (a b c : Bool) → ((a || b) || c) ≡ ((a || c) || b)
    swap_or a b c = ground arith

    -- A page that goes to the documents to page anew.
    to_partial-IsPassed :
        (done : List Entry) (pass : Pass ciphers size) (e : Entry)
        → IsPassed done pass
        → (has_word e.keyword changes.removed_entries || has_word e.keyword changes.added_entries)
          ≡ true
        → IsPassed (done ++ e ∷ []) (to_partial ciphers size e.keyword e.ids pass)
    to_partial-IsPassed done pass e h changed = record {
      kept = h.kept;
      stored = h.stored;
      all_kept = h.all_kept;
      same = λ t x.
          ap (λ b. in_entries h.kept t x || b)
            (lists-extend_or_default e.keyword e.ids pass.partial_pages t x)
          ∙ ground (arith, h.same t x, in_entries-last done e t x);
      changed_words = λ t has_t. elim (Bool-cases (same_bytes t e.keyword)) [
        | inl here ↦ ground (arith, same_bytes-eq t e.keyword here)
        | inr there ↦
            h.changed_words t
              (ground (arith, has_word-extend_or_default t e.keyword e.ids pass.partial_pages))
      ];
      is_map = extend_or_default-IsMap e.keyword e.ids pass.partial_pages h.is_map;
      known = λ vocabulary k. h.known vocabulary (AreKnown-unlast vocabulary done e k).0;
    }

    -- A page that is kept, with the last full pages after it.
    push-IsPassed :
        (done : List Entry) (pass : Pass ciphers size) (page : TermPage) (e : Entry)
        (last_full : List (Bytes × ℕ)) (h : IsPassed done pass)
        → IsPage size page e.keyword e.number e.ids
        → All (IsKept last_full) h.kept
        → IsKept last_full e
        → IsPassed (done ++ e ∷ []) (
            push ciphers size
              (sealed ciphers size
                (version + 1)
                (header_term page.header)
                (page_number page.header)
                page)
              (record pass { last_full_page = last_full }))
    push-IsPassed done pass page e last_full h is_page all e_kept = record {
      kept = h.kept ++ e ∷ [];
      stored =
          append-AreStored (version + 1) pass.new_pages _ h.kept (e ∷ []) h.stored
            (one_stored (sealed-IsStored page e is_page) none_stored);
      all_kept = All-last (IsKept last_full) h.kept e all e_kept;
      same = λ t x.
          ap (λ b. b || lists pass.partial_pages t x) (in_entries-last h.kept e t x)
          ∙ swap_or (in_entries h.kept t x) (same_bytes t e.keyword && contains x e.ids)
              (lists pass.partial_pages t x)
          ∙ ap (λ b. b || (same_bytes t e.keyword && contains x e.ids)) (h.same t x)
          ∙ sym (in_entries-last done e t x);
      changed_words = h.changed_words;
      is_map = h.is_map;
      known = λ vocabulary k.
          let (front, last) = AreKnown-unlast vocabulary done e k in
          All-last (λ (f : Entry). contains f.keyword vocabulary ≡ true) h.kept e
            (h.known vocabulary front) last;
    }

    -- The last full pages only move on.
    raise_last-IsKept :
        (kw : Bytes) (n : ℕ) (last_full : List (Bytes × ℕ)) (e : Entry)
        → IsKept last_full e
        → IsKept (raise_last kw n last_full) e
    raise_last-IsKept kw n last_full e h = record {
      no_deletions = h.no_deletions;
      promised = h.promised;
      not_after = λ added.
          let (last, found, le) = h.not_after added in
          let raised : ℕ = larger (unwrap_or 0 (get kw last_full)) n in
          elim (Bool-cases (same_bytes e.keyword kw)) [
            | inl here ↦
                let same_word : e.keyword ≡ kw = same_bytes-eq e.keyword kw here in
                let was : unwrap_or 0 (get kw last_full) ≡ last =
                  ap (λ z. unwrap_or 0 (get z last_full)) (sym same_word)
                  ∙ ap (unwrap_or 0) found in
                (
                  raised,
                  ap (λ z. get z (set kw raised last_full)) same_word ∙ get-set kw raised last_full,
                  omega (arith, was, larger_left (unwrap_or 0 (get kw last_full)) n),
                )
            | inr there ↦ (last, get-set_ne e.keyword kw raised last_full there ∙ found, le)
          ];
    }

    raised-IsKept :
        (e : Entry) (last_full : List (Bytes × ℕ))
        → has_word e.keyword changes.removed_entries ≡ false
        → e.number < get_num_pages metadata e.keyword
        → IsKept (raise_last e.keyword e.number last_full) e
    raised-IsKept e last_full no_deletions promised = record {
      no_deletions = no_deletions;
      promised = promised;
      not_after = λ added.
          let raised : ℕ = larger (unwrap_or 0 (get e.keyword last_full)) e.number in
          (
            raised,
            get-set e.keyword raised last_full,
            larger_right (unwrap_or 0 (get e.keyword last_full)) e.number,
          );
    }

    free_space-returns :
        (page : TermPage) (e : Entry)
        → 0 < size
        → IsPage size page e.keyword e.number e.ids
        → (free : ℕ) × (free_space size page ≡ returns free)
    unfolding free_space max_entries
    free_space-returns page e positive is_page =
        let nonzero : (size == 0) ≡ false = ground arith in
        let few : page.header.num_present ≤ entries_data_size / size =
          (le-div_iff_mul-le positive).1 (
            omega (
              arith,
              is_page.room,
              is_page.present,
              mul_comm size (length e.ids),
              ap (λ k. k * size) is_page.present,
            )) in
        let fits : leb page.header.num_present (entries_data_size / size) ≡ true = ground arith in
        (entries_data_size / size - page.header.num_present, rw (nonzero, fits) refl)

    -- One page.
    visit_page-IsPassed :
        (done : List Entry) (pass : Pass ciphers size) (page : TermPage) (e : Entry)
        → 0 < size
        → IsPage size page e.keyword e.number e.ids
        → e.number < get_num_pages metadata e.keyword
        → IsPassed done pass
        → (pass' : Pass ciphers size) × (visit_page ciphers size version changes page pass
            ≡ returns pass')
          × IsPassed (done ++ e ∷ []) pass'
    unfolding visit_page keep_full
    visit_page-IsPassed done pass page e positive is_page promised h =
        elim (Bool-cases (has_word e.keyword changes.removed_entries)) [
          | inl deletions ↦ (
            to_partial ciphers size e.keyword e.ids pass,
            rw (is_page.term_is, deletions, is_page.items_are) refl,
            to_partial-IsPassed done pass e h (ground arith),
          )
          | inr no_deletions ↦ elim (Bool-cases (has_word e.keyword changes.added_entries)) [
            | inl additions ↦
                let (free, is_free) = free_space-returns page e positive is_page in
                elim (Bool-cases (ltb 0 free)) [
                  | inl room ↦ (
                    to_partial ciphers size e.keyword e.ids pass,
                    rw (is_page.term_is, no_deletions, additions, is_free, room, is_page.items_are)
                        refl,
                    to_partial-IsPassed done pass e h (ground arith),
                  )
                  | inr full ↦ (
                    push ciphers size
                        (sealed ciphers size (version + 1) (header_term page.header)
                          (page_number page.header) page)
                        (record pass {
                          last_full_page = raise_last e.keyword e.number pass.last_full_page;
                        }),
                    rw (is_page.term_is, is_page.number_is, no_deletions, additions, is_free, full)
                        refl,
                    push-IsPassed done pass page e
                        (raise_last e.keyword e.number pass.last_full_page) h is_page
                        (All-imp (IsKept pass.last_full_page)
                          (IsKept (raise_last e.keyword e.number pass.last_full_page)) h.kept
                          (raise_last-IsKept e.keyword e.number pass.last_full_page) h.all_kept)
                        (raised-IsKept e pass.last_full_page no_deletions promised),
                  )
                ]
            | inr no_additions ↦ (
              push ciphers size
                  (sealed ciphers size (version + 1) (header_term page.header)
                    (page_number page.header) page)
                  pass,
              rw (is_page.term_is, no_deletions, no_additions) refl,
              push-IsPassed done pass page e pass.last_full_page h is_page h.all_kept (record {
                no_deletions = no_deletions;
                promised = promised;
                not_after = λ additions. absurd (ground arith);
              }),
            )
          ]
        ]

    -- All pages.
    pub visit_pages-IsPassed :
        (rows : List (IndexTableRow B)) (es done : List Entry) (pass : Pass ciphers size)
        → 0 < size
        → AreStored ciphers size version rows es
        → IsCovered metadata es
        → IsPassed done pass
        → (pass' : Pass ciphers size) × (visit_pages ciphers size version changes rows pass
            ≡ returns pass')
          × IsPassed (done ++ es) pass'
    unfolding visit_pages
    visit_pages-IsPassed [] [] done pass positive none_stored covered h =
        (pass, refl, subst (λ l. IsPassed l pass) (sym (append-nil done)) h)
    visit_pages-IsPassed (row ∷ rows) (e ∷ es) done pass positive (one_stored s ss) covered h =
        let (pass₁, run, h₁) =
          visit_page-IsPassed done pass s.term_page e positive s.page_is covered.0 h in
        let (pass₂, run', h₂) =
          visit_pages-IsPassed rows es (done ++ e ∷ []) pass₁ positive ss covered.1 h₁ in
        (
          pass₂,
          rw (s.decrypts, run) run',
          subst (λ l. IsPassed l pass₂) (append_assoc done (e ∷ []) es) h₂,
        )
    visit_pages-IsPassed [] (e ∷ es) done pass positive x covered h = elim x [ ]
    visit_pages-IsPassed (row ∷ rows) [] done pass positive x covered h = elim x [ ]
