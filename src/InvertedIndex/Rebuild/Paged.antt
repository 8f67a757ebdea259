-- ===== src/InvertedIndex/Rebuild/Paged.antt =====
-- The new pages of a rebuilt index: they have the documents to page anew, and the metadata promise
-- them.
use secure_fusion.Prelude.{
  ℕ, suc, zero, ◌+◌, ◌*◌, ◌≤◌, ◌<◌, none, some, List, [], ◌∷◌, ◌++◌, length, take, drop, Bool, true,
  false, ◌&&◌, ◌||◌, is_some, ◌≡◌, refl, sym, ap, ap₂, subst, ◌∙◌, All, Bool-cases, inl, inr, arith,
}
use native.Mathlib.Nat.{mul-le-mul_left}
use secure_fusion.Prelude.Sets.{Bytes, same_bytes, contains, get, same_bytes-eq, same_bytes_refl}
use secure_fusion.Run.{returns}
use secure_fusion.RowId.Encoding.{capacity}
use secure_fusion.InvertedIndex.{max_term_size}
use secure_fusion.InvertedIndex.Modifications.{lists}
use secure_fusion.InvertedIndex.Metadata.{
  MetadataPage, get_num_pages, insert_entry, get_num_pages-insert_entry,
  get_num_pages-insert_entry_ne,
}
use secure_fusion.InvertedIndex.Tree.Leaf.{IsDocument}
use secure_fusion.InvertedIndex.Pages.{entries_data_size, page_num_len}
use secure_fusion.InvertedIndex.Pages.RoundTrip.{from_iterator-IsPage}
use secure_fusion.InvertedIndex.Store.{Ciphers, IndexTableRow}
use secure_fusion.InvertedIndex.Store.Entries.{
  Entry, in_entries, in_entries-append, AreStored, none_stored, one_stored,
}
use secure_fusion.InvertedIndex.Rebuild.{
  sealed, chunk_before, chunked, page_chunks, first_number, page_word, page_words,
}
use secure_fusion.InvertedIndex.Rebuild.Maps.{IsMap, has_word}
use secure_fusion.InvertedIndex.Rebuild.Kept.{PageRoundTrip, All-imp, append-AreStored}

-- Whether one of the chunks has the document.
abbrev in_chunks : Bytes → List (List Bytes) → Bool
in_chunks x [] = false
in_chunks x (c ∷ cs) = contains x c || in_chunks x cs

contains-take-drop :
    (x : Bytes) (n : ℕ) (s : List Bytes)
    → (contains x (take n s) || contains x (drop n s)) ≡ contains x s
contains-take-drop x zero s = refl
contains-take-drop x (suc n) [] = refl
contains-take-drop x (suc n) (y ∷ s) = ground (arith, contains-take-drop x n s)

take-All :
    (P : Bytes → Type 0) (n : ℕ) (s : List Bytes) → All P s → All P (take n s) × All P (drop n s)
take-All P zero s h = (tt, h)
take-All P (suc n) [] h = (tt, tt)
take-All P (suc n) (y ∷ s) h = ((h.0, (take-All P n s h.1).0), (take-All P n s h.1).1)

length-take_le : (n : ℕ) (s : List Bytes) → length (take n s) ≤ n
length-take_le zero s = omega arith
length-take_le (suc n) [] = omega arith
length-take_le (suc n) (y ∷ s) = omega (arith, length-take_le n s)

length-drop_le : (n : ℕ) (s : List Bytes) → length (drop n s) ≤ length s
length-drop_le zero s = omega arith
length-drop_le (suc n) [] = omega arith
length-drop_le (suc n) (y ∷ s) = omega (arith, length-drop_le n s)

drop_shorter : (n : ℕ) (x : Bytes) (xs : List Bytes) → 0 < n → length (drop n (x ∷ xs)) ≤ length xs
drop_shorter zero x xs h = absurd (omega arith)
drop_shorter (suc n) x xs h = length-drop_le n xs

module _ (size most : ℕ) (positive : 0 < most) where
  -- The chunks of documents: none is too long, and together they have the documents.
  abbrev IsChunk : List Bytes → Type 0
  IsChunk c = (length c ≤ most) × All (IsDocument size) c

  abbrev IsChunked : List Bytes → List (List Bytes) → Type 0
  IsChunked ids chunks =
      All IsChunk chunks
      × (length chunks ≤ length ids)
      × ((x : Bytes) → in_chunks x chunks ≡ contains x ids)

  chunked-IsChunked :
      (fuel : ℕ) (ids : List Bytes)
      → length ids ≤ fuel
      → All (IsDocument size) ids
      → (chunks : List (List Bytes)) × (chunked fuel most ids ≡ some chunks) × IsChunked ids chunks
  unfolding chunked
  chunked-IsChunked fuel [] enough h = ([], refl, (tt, omega arith, λ x. refl))
  chunked-IsChunked zero (x ∷ xs) enough h = absurd (omega arith)
  chunked-IsChunked (suc fuel) (x ∷ xs) enough h =
      let shorter : length (drop most (x ∷ xs)) ≤ length xs = drop_shorter most x xs positive in
      let (rest, run, (chunks, few, same)) =
        chunked-IsChunked fuel (drop most (x ∷ xs)) (omega (arith, shorter))
          (take-All (IsDocument size) most (x ∷ xs) h).1 in
      (
        take most (x ∷ xs) ∷ rest,
        ap (chunk_before (take most (x ∷ xs))) run,
        (
          ((length-take_le most (x ∷ xs), (take-All (IsDocument size) most (x ∷ xs) h).0), chunks),
          omega (arith, few, shorter),
          λ y.
              ap (λ b. contains y (take most (x ∷ xs)) || b) (same y)
              ∙ contains-take-drop y most (x ∷ xs),
        ),
      )

lists-first :
    (t x keyword : Bytes) (ids : List Bytes) (m : List (Bytes × List Bytes))
    → get keyword m ≡ none
    → ((same_bytes t keyword && contains x ids) || lists m t x) ≡ lists ((keyword, ids) ∷ m) t x
lists-first t x keyword ids m h = elim (Bool-cases (same_bytes t keyword)) [
  | inl here ↦ ground (arith, same_bytes-eq t keyword here)
  | inr there ↦ ground arith
]

has_word-later :
    (t keyword : Bytes) (ids : List Bytes) (m : List (Bytes × List Bytes))
    → has_word t m ≡ true
    → has_word t ((keyword, ids) ∷ m) ≡ true
has_word-later t keyword ids m h = ground arith

module _ {ℓ} {B : Type ℓ} (ciphers : Ciphers B) (size : ℕ) (undone : PageRoundTrip ciphers size)
    (version most : ℕ) (positive : 0 < most) (room : size * most ≤ entries_data_size) where
  -- The pages of a word with the chunks, whose numbers start at `number`.
  page_chunks-AreStored :
      (keyword : Bytes) (number : ℕ) (chunks : List (List Bytes))
      → All (IsChunk size most positive) chunks
      → length keyword ≤ max_term_size
      → number + length chunks ≤ capacity page_num_len
      → (rows : List (IndexTableRow B)) × (es : List Entry) × (next : ℕ) × (page_chunks ciphers size
            version keyword number chunks
          ≡ returns (rows, next))
        × (next ≡ number + length chunks)
        × AreStored ciphers size version rows es
        × ((t x : Bytes) → in_entries es t x ≡ (same_bytes t keyword && in_chunks x chunks))
        × All (λ (e : Entry). (e.keyword ≡ keyword) × (e.number < next)) es
  unfolding page_chunks
  page_chunks-AreStored keyword number [] h short small =
      ([], [], number, refl, omega arith, none_stored, λ t x. ground arith, tt)
  page_chunks-AreStored keyword number (c ∷ cs) h short small =
      let c_short : length c ≤ most = h.0.0 in
      let fits : size * length c ≤ entries_data_size =
        omega (arith, mul-le-mul_left size c_short) in
      let (page, run, is_page) =
        from_iterator-IsPage size keyword number c h.0.1 fits short (omega arith) in
      let (rows, es, next, run', next_is, stored, same, numbered) =
        page_chunks-AreStored keyword (number + 1) cs h.1 short (omega arith) in
      let e : Entry = record { keyword = keyword; number = number; ids = c } in
      (
        sealed ciphers size version keyword number page ∷ rows,
        e ∷ es,
        next,
        rw (run, run') refl,
        omega (arith, next_is),
        one_stored
            (record {
              version_is = refl;
              tag_is = refl;
              term_page = page;
              decrypts = undone version _ page;
              page_is = is_page;
            })
            stored,
        λ t x. ap (λ b. (same_bytes t keyword && contains x c) || b) (same t x) ∙ ground arith,
        ((refl, omega (arith, next_is)), numbered),
      )

  -- A word and its documents that fit pages: the term has at most 64 bytes, the documents have the
  -- size of the index, and the numbers of the pages fit 5 bytes.
  abbrev pub FitsPages : List (Bytes × ℕ) → Bytes × List Bytes → Type 0
  FitsPages last_full (keyword, ids) =
      (length keyword ≤ max_term_size)
      × All (IsDocument size) ids
      × (first_number ciphers size (get keyword last_full) + length ids ≤ capacity page_num_len)

  -- The pages of all words: they have the documents of the map, the metadata promise them, and also
  -- the pages up to the last full one of each word; for the other words they are as before.
  pub record ArePaged (last_full : List (Bytes × ℕ)) (partial : List (Bytes × List Bytes))
      (before after : MetadataPage) (rows : List (IndexTableRow B)) : Type ℓ where
    pub paged : List Entry
    pub stored : AreStored ciphers size version rows paged
    pub same : (t x : Bytes) → in_entries paged t x ≡ lists partial t x
    pub promised :
        All
          (λ (e : Entry).
            (has_word e.keyword partial ≡ true) × (e.number < get_num_pages after e.keyword))
          paged
    pub others :
        (t : Bytes) → has_word t partial ≡ false → get_num_pages after t ≡ get_num_pages before t
    pub last_promised :
        (t : Bytes) (last : ℕ)
        → has_word t partial ≡ true
        → get t last_full ≡ some last
        → last < get_num_pages after t

  All-both :
      (P Q : Entry → Type 0) (es fs : List Entry)
      → ((e : Entry) → P e → Q e)
      → All P es
      → All Q fs
      → All Q (es ++ fs)
  All-both P Q [] fs f h k = k
  All-both P Q (e ∷ es) fs f h k = (f e h.0, All-both P Q es fs f h.1 k)

  pub page_words-ArePaged :
      (last_full : List (Bytes × ℕ)) (partial : List (Bytes × List Bytes)) (before : MetadataPage)
      → IsMap partial
      → All (FitsPages last_full) partial
      → (rows : List (IndexTableRow B)) × (after : MetadataPage) × (page_words ciphers size version
            most last_full partial before
          ≡ some (returns (rows, after)))
        × ArePaged last_full partial before after rows
  unfolding page_words page_word
  page_words-ArePaged last_full [] before is_map fits = (
    [],
    before,
    refl,
    record {
      paged = [];
      stored = none_stored;
      same = λ t x. refl;
      promised = tt;
      others = λ t h. refl;
      last_promised = λ t last h k. absurd (ground arith);
    },
  )
  page_words-ArePaged last_full ((keyword, ids) ∷ partial) before is_map fits =
      let first : ℕ = first_number ciphers size (get keyword last_full) in
      let (short, documents, small) = fits.0 in
      let (chunks, chunked_run, (all_chunks, few, in_ids)) =
        chunked-IsChunked size most positive (length ids) ids (omega arith) documents in
      let (rows, es, next, run, next_is, stored, same, numbered) =
        page_chunks-AreStored keyword first chunks all_chunks short (omega (arith, small, few)) in
      let middle : MetadataPage = insert_entry keyword next before in
      let (rows', after, run', others) =
        page_words-ArePaged last_full partial middle is_map.1 fits.1 in
      let gone : has_word keyword partial ≡ false = ap is_some is_map.0 in
      let enough : next ≤ get_num_pages after keyword =
        omega (arith, others.others keyword gone, get_num_pages-insert_entry before keyword next) in
      (
        rows ++ rows',
        after,
        rw (chunked_run, run, run') refl,
        record {
          paged = es ++ others.paged;
          stored =
              append-AreStored ciphers size version rows rows' es others.paged stored others.stored;
          same = λ t x.
              in_entries-append es others.paged t x
              ∙ ap₂ ◌||◌ (same t x ∙ ap (λ b. same_bytes t keyword && b) (in_ids x))
                  (others.same t x)
              ∙ lists-first t x keyword ids partial is_map.0;
          promised =
              All-both (λ (e : Entry). (e.keyword ≡ keyword) × (e.number < next))
                (λ (e : Entry).
                  (has_word e.keyword ((keyword, ids) ∷ partial) ≡ true)
                  × (e.number < get_num_pages after e.keyword))
                es others.paged
                (λ e h. (
                  ground (arith, ap (same_bytes e.keyword) h.0, same_bytes_refl e.keyword),
                  subst (λ k. e.number < get_num_pages after k) (sym h.0)
                      (omega (arith, h.1, enough)),
                ))
                numbered
                (All-imp
                  (λ (e : Entry).
                    (has_word e.keyword partial ≡ true)
                    × (e.number < get_num_pages after e.keyword))
                  (λ (e : Entry).
                    (has_word e.keyword ((keyword, ids) ∷ partial) ≡ true)
                    × (e.number < get_num_pages after e.keyword))
                  others.paged (λ e h. (has_word-later e.keyword keyword ids partial h.0, h.1))
                  others.promised);
          others = λ t h. elim (Bool-cases (same_bytes t keyword)) [
            | inl here ↦ absurd (ground arith)
            | inr there ↦
                others.others t (ground arith)
                ∙ get_num_pages-insert_entry_ne before keyword t next there
          ];
          last_promised = λ t last h k. elim (Bool-cases (same_bytes t keyword)) [
            | inl here ↦
                let same_word : t ≡ keyword = same_bytes-eq t keyword here in
                let first_is : first ≡ last + 1 =
                  ap (λ o. first_number ciphers size o)
                    (ap (λ z. get z last_full) (sym same_word) ∙ k) in
                subst (λ z. last < get_num_pages after z) (sym same_word)
                  (omega (arith, first_is, next_is, enough))
            | inr there ↦ others.last_promised t last (ground arith) k
          ];
        },
      )
