-- ===== src/InvertedIndex/Store/Lookup/Tags.antt =====
-- The map from the tags of pages to their terms.
use secure_fusion.Prelude.{
  ℕ, suc, zero, ◌+◌, some, List, [], ◌∷◌, true, false, ◌≤◌, ◌<◌, ◌==◌, is_some, if◌then◌else◌, ◌≡◌,
  refl, sym, ap, subst, ◌∙◌, Bool-cases, inl, inr, arith,
}
use secure_fusion.Prelude.Sets.{
  Bytes, same_bytes, contains, get, set, same_bytes-eq, same_bytes_refl, get-set, get-set_ne,
}
use secure_fusion.InvertedIndex.Modifications.{lists, lists-set, lists-set_ne}
use secure_fusion.InvertedIndex.Metadata.{get_num_pages}
use secure_fusion.InvertedIndex.Store.{page_tag, Ciphers, VersionedMetadataPage}
use secure_fusion.InvertedIndex.Store.Lookup.{keys, add_tags, tags_of}

pub contains-keys : (k : Bytes) (m : List (Bytes × Bytes)) → contains k (keys m) ≡ is_some (get k m)
contains-keys k [] = refl
contains-keys k ((j, v) ∷ m) = ground (arith, contains-keys k m)

lists-set_empty :
    (t x kw : Bytes) (output : List (Bytes × List Bytes))
    → lists output t x ≡ false
    → lists (set kw [] output) t x ≡ false
lists-set_empty t x kw output h = elim (Bool-cases (same_bytes t kw)) [
  | inl e ↦ lists-set t x kw [] output e
  | inr e ↦ lists-set_ne t x kw [] output e ∙ h
]

module _ {ℓ} {B : Type ℓ} (ciphers : Ciphers B) (m : VersionedMetadataPage) where
  -- The tag of a page of another term, or of no page.
  abbrev pub IsOther : Bytes → Bytes → Type 0
  IsOther tag kw =
      (n : ℕ)
      → n < get_num_pages m.metadata kw
      → same_bytes tag (page_tag ciphers m.version kw n) ≡ false

  get-add_tags_other :
      (tag kw : Bytes) (page count : ℕ) (tk : List (Bytes × Bytes))
      → page + count ≤ get_num_pages m.metadata kw
      → IsOther tag kw
      → get tag (add_tags ciphers m.version kw page count tk) ≡ get tag tk
  unfolding add_tags
  get-add_tags_other tag kw page zero tk few other = refl
  get-add_tags_other tag kw page (suc count) tk few other =
      get-add_tags_other tag kw (page + 1) count _ (omega arith) other
      ∙ get-set_ne tag (page_tag ciphers m.version kw page) kw tk (other page (omega arith))

  -- A tag that the term has already stays the term's.
  get-add_tags_kept :
      (tag kw : Bytes) (page count : ℕ) (tk : List (Bytes × Bytes))
      → get tag tk ≡ some kw
      → get tag (add_tags ciphers m.version kw page count tk) ≡ some kw
  unfolding add_tags
  get-add_tags_kept tag kw page zero tk h = h
  get-add_tags_kept tag kw page (suc count) tk h =
      get-add_tags_kept tag kw (page + 1) count _
        (elim (Bool-cases (same_bytes tag (page_tag ciphers m.version kw page))) [
          | inl e ↦
              ap (λ z. get z (set (page_tag ciphers m.version kw page) kw tk))
                (same_bytes-eq tag (page_tag ciphers m.version kw page) e)
              ∙ get-set (page_tag ciphers m.version kw page) kw tk
          | inr e ↦ get-set_ne tag (page_tag ciphers m.version kw page) kw tk e ∙ h
        ])

  get-add_tags :
      (kw : Bytes) (n page count : ℕ) (tk : List (Bytes × Bytes))
      → page ≤ n
      → n < page + count
      → get (page_tag ciphers m.version kw n) (add_tags ciphers m.version kw page count tk)
        ≡ some kw
  unfolding add_tags
  get-add_tags kw n page zero tk le lt = absurd (omega arith)
  get-add_tags kw n page (suc count) tk le lt = elim (Bool-cases (n == page)) [
    | inl e ↦
        let here : page ≡ n = ground arith in
        get-add_tags_kept (page_tag ciphers m.version kw n) kw (page + 1) count _ (
          subst
            (λ p.
              get (page_tag ciphers m.version kw n) (set (page_tag ciphers m.version kw p) kw tk)
              ≡ some kw)
            (sym here) (get-set (page_tag ciphers m.version kw n) kw tk))
    | inr e ↦
        let after : page + 1 ≤ n = ground arith in
        get-add_tags kw n (page + 1) count _ after (omega arith)
  ]

  pub get-tags_of_other :
      (tag : Bytes) (terms : List Bytes) (tk : List (Bytes × Bytes))
      (output : List (Bytes × List Bytes))
      → ((kw : Bytes) → contains kw terms ≡ true → IsOther tag kw)
      → get tag (tags_of ciphers m terms tk output).0 ≡ get tag tk
  unfolding tags_of
  get-tags_of_other tag [] tk output other = refl
  get-tags_of_other tag (kw ∷ terms) tk output other =
      let later : (t : Bytes) → contains t terms ≡ true → IsOther tag t =
        λ t h. other t (ground arith) in
      elim (Bool-cases (get_num_pages m.metadata kw == 0)) [
        | inl empty ↦ rw empty (get-tags_of_other tag terms tk (set kw [] output) later)
        | inr some_pages ↦ rw some_pages (
            get-tags_of_other tag terms
              (add_tags ciphers m.version kw 0 (get_num_pages m.metadata kw) tk) output later
            ∙ get-add_tags_other tag kw 0 (get_num_pages m.metadata kw) tk (omega arith)
                (other kw (ground (arith, same_bytes_refl kw))))
      ]

  module _ (k : Bytes) (n : ℕ) (promised : n < get_num_pages m.metadata k) where
    -- The tag of a page of a term, where the other terms have other tags.
    get-tags_of_kept :
        (terms : List Bytes) (tk : List (Bytes × Bytes)) (output : List (Bytes × List Bytes))
        → ((kw : Bytes)
            → contains kw terms ≡ true
            → same_bytes k kw ≡ false
            → IsOther (page_tag ciphers m.version k n) kw)
        → get (page_tag ciphers m.version k n) tk ≡ some k
        → get (page_tag ciphers m.version k n) (tags_of ciphers m terms tk output).0 ≡ some k
    unfolding tags_of
    get-tags_of_kept [] tk output other h = h
    get-tags_of_kept (kw ∷ terms) tk output other h =
        elim (Bool-cases (get_num_pages m.metadata kw == 0)) [
          | inl empty ↦
              rw empty
                (get-tags_of_kept terms tk (set kw [] output) (λ t i d. other t (ground arith) d) h)
          | inr some_pages ↦ rw some_pages (
              get-tags_of_kept terms
                (add_tags ciphers m.version kw 0 (get_num_pages m.metadata kw) tk) output
                (λ t i d. other t (ground arith) d)
                (elim (Bool-cases (same_bytes k kw)) [
                  | inl e ↦
                      subst
                        (λ z.
                          get (page_tag ciphers m.version k n)
                            (add_tags ciphers m.version z 0 (get_num_pages m.metadata kw) tk)
                          ≡ some k)
                        (same_bytes-eq k kw e)
                        (get-add_tags_kept (page_tag ciphers m.version k n) k 0
                          (get_num_pages m.metadata kw) tk h)
                  | inr d ↦
                      get-add_tags_other (page_tag ciphers m.version k n) kw 0
                        (get_num_pages m.metadata kw) tk (omega arith)
                        (other kw (ground (arith, same_bytes_refl kw)) d)
                      ∙ h
                ]))
        ]

    pub get-tags_of :
        (terms : List Bytes) (tk : List (Bytes × Bytes)) (output : List (Bytes × List Bytes))
        → ((kw : Bytes)
            → contains kw terms ≡ true
            → same_bytes k kw ≡ false
            → IsOther (page_tag ciphers m.version k n) kw)
        → get (page_tag ciphers m.version k n) (tags_of ciphers m terms tk output).0
          ≡ (if contains k terms then some k else get (page_tag ciphers m.version k n) tk)
    unfolding tags_of
    get-tags_of [] tk output other = refl
    get-tags_of (kw ∷ terms) tk output other =
        let later : (t : Bytes)
            → contains t terms ≡ true
            → same_bytes k t ≡ false
            → IsOther (page_tag ciphers m.version k n) t =
          λ t i d. other t (ground arith) d in
        elim (Bool-cases (same_bytes k kw)) [
          | inl e ↦
              let pages : get_num_pages m.metadata k ≡ get_num_pages m.metadata kw =
                ap (get_num_pages m.metadata) (same_bytes-eq k kw e) in
              let some_pages : (get_num_pages m.metadata kw == 0) ≡ false =
                ground (arith, promised) in
              rw (some_pages, e)
                (get-tags_of_kept terms
                  (add_tags ciphers m.version kw 0 (get_num_pages m.metadata kw) tk) output later
                  (subst
                    (λ z.
                      get (page_tag ciphers m.version k n)
                        (add_tags ciphers m.version z 0 (get_num_pages m.metadata kw) tk)
                      ≡ some k)
                    (same_bytes-eq k kw e)
                    (get-add_tags k n 0 (get_num_pages m.metadata kw) tk (omega arith)
                      (omega (arith, promised, pages)))))
          | inr d ↦ elim (Bool-cases (get_num_pages m.metadata kw == 0)) [
            | inl empty ↦ rw (empty, d) (get-tags_of terms tk (set kw [] output) later)
            | inr some_pages ↦
                rw (some_pages, d)
                  (get-tags_of terms
                      (add_tags ciphers m.version kw 0 (get_num_pages m.metadata kw) tk) output
                      later
                    ∙ ap (λ o. if contains k terms then some k else o)
                        (get-add_tags_other (page_tag ciphers m.version k n) kw 0
                          (get_num_pages m.metadata kw) tk (omega arith)
                          (other kw (ground (arith, same_bytes_refl kw)) d)))
          ]
        ]

  -- The results that are there before any page is read have no document.
  pub lists-tags_of :
      (t x : Bytes) (terms : List Bytes) (tk : List (Bytes × Bytes))
      (output : List (Bytes × List Bytes))
      → lists output t x ≡ false
      → lists (tags_of ciphers m terms tk output).1 t x ≡ false
  unfolding tags_of
  lists-tags_of t x [] tk output h = h
  lists-tags_of t x (kw ∷ terms) tk output h =
      elim (Bool-cases (get_num_pages m.metadata kw == 0)) [
        | inl empty ↦
            rw empty
              (lists-tags_of t x terms tk (set kw [] output) (lists-set_empty t x kw output h))
        | inr some_pages ↦ rw some_pages (lists-tags_of t x terms _ output h)
      ]
