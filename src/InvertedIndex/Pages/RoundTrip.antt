-- ===== src/InvertedIndex/Pages/RoundTrip.antt =====
-- What is written to a page of an inverted index, and what is read of it.
use secure_fusion.Prelude.{
  ℕ, suc, zero, ◌+◌, ◌-◌, ◌*◌, ◌/◌, ◌≤◌, ◌<◌, List, [], ◌∷◌, ◌++◌, length, length-append, take,
  drop, true, leb, ◌≡◌, refl, sym, ap, ap₂, ◌∙◌, All, arith,
}
use mathlib.Core.List.{append_assoc, append-nil}
use secure_fusion.Prelude.Sets.{Bytes}
use native.Mathlib.Nat.{mul-suc}
use secure_fusion.RowId.Encoding.{capacity}
use secure_fusion.Run.{returns}
use secure_fusion.InvertedIndex.{max_term_size}
use secure_fusion.InvertedIndex.Tree.{from_le_bytes}
use secure_fusion.InvertedIndex.Tree.Leaf.{IsDocument}
use secure_fusion.InvertedIndex.Pages.{
  TermPage, page_num_len, entries_data_size, header_term, page_number, to_le_bytes, zeros,
  new_header, new_page, chunks, items, copy_entry, push_entries, from_iterator,
}

pub take-append : {A : Type 0} (xs ys : List A) → take (length xs) (xs ++ ys) ≡ xs
take-append [] ys = refl
take-append (x ∷ xs) ys = ap (λ l. x ∷ l) (take-append xs ys)

pub drop-append : {A : Type 0} (xs ys : List A) → drop (length xs) (xs ++ ys) ≡ ys
drop-append [] ys = refl
drop-append (x ∷ xs) ys = drop-append xs ys

pub length-take : {A : Type 0} (n : ℕ) (xs : List A) → n ≤ length xs → length (take n xs) ≡ n
length-take zero xs h = refl
length-take (suc n) [] h = absurd (omega arith)
length-take (suc n) (x ∷ xs) h = ap suc (length-take n xs (omega arith))

pub length-drop :
    {A : Type 0} (n : ℕ) (xs : List A) → n ≤ length xs → length (drop n xs) ≡ length xs - n
length-drop zero xs h = omega arith
length-drop (suc n) [] h = absurd (omega arith)
length-drop (suc n) (x ∷ xs) h = length-drop n xs (omega arith) ∙ omega arith

length-zeros : (n : ℕ) → length (zeros n) ≡ n
length-zeros zero = refl
length-zeros (suc n) = ap suc (length-zeros n)

from_le_bytes-to_le_bytes :
    (width n : ℕ) → n < capacity width → from_le_bytes (to_le_bytes width n) ≡ n
from_le_bytes-to_le_bytes zero n h = omega arith
from_le_bytes-to_le_bytes (suc width) n h =
    omega (arith, from_le_bytes-to_le_bytes width (n / 256) (omega arith))

abbrev flatten : List Bytes → Bytes
flatten [] = []
flatten (x ∷ xs) = x ++ flatten xs

chunks-flatten :
    (size : ℕ) (xs : List Bytes)
    → All (IsDocument size) xs
    → chunks (length xs) size (flatten xs) ≡ xs
chunks-flatten size [] h = refl
chunks-flatten size (x ∷ xs) h =
    let size_of : length x ≡ size = h.0.size in
    ap₂ (λ y ys. y ∷ ys)
      (ap (λ k. take k (x ++ flatten xs)) (sym size_of) ∙ take-append x (flatten xs))
      (ap (λ k. chunks (length xs) size (drop k (x ++ flatten xs))) (sym size_of)
        ∙ ap (chunks (length xs) size) (drop-append x (flatten xs))
        ∙ chunks-flatten size xs h.1)

length-flatten :
    (size : ℕ) (xs : List Bytes) → All (IsDocument size) xs → length (flatten xs) ≡ size * length xs
length-flatten size [] h = omega arith
length-flatten size (x ∷ xs) h =
    length-append x (flatten xs)
    ∙ ap₂ ◌+◌ h.0.size (length-flatten size xs h.1)
    ∙ omega (arith, mul-suc size (length xs))

-- A page after `xs` were written at `position`.
record IsWritten (position : ℕ) (xs : List Bytes) (page page' : TermPage) : Type 0 where
  num_present : page'.header.num_present ≡ page.header.num_present + length xs
  same_term : header_term page'.header ≡ header_term page.header
  same_number : page_number page'.header ≡ page_number page.header
  same_length : length page'.entries_data ≡ length page.entries_data
  prefix_is :
      take (position + length (flatten xs)) page'.entries_data
      ≡ take position page.entries_data ++ flatten xs

abbrev written_at : ℕ → Bytes → Bytes → Bytes
written_at position x data_ = take position data_ ++ x ++ drop (position + length x) data_

copy_entry-returns :
    (position : ℕ) (x data_ : Bytes)
    → position + length x ≤ length data_
    → copy_entry (length x) position x data_ ≡ returns (written_at position x data_)
unfolding copy_entry
copy_entry-returns position x data_ h = ground arith

length-written_at :
    (position : ℕ) (x data_ : Bytes)
    → position + length x ≤ length data_
    → length (written_at position x data_) ≡ length data_
length-written_at position x data_ h = omega (
  arith,
  length-append (take position data_ ++ x) (drop (position + length x) data_),
  length-append (take position data_) x,
  length-take position data_ (omega arith),
  length-drop (position + length x) data_ h,
)

take-written_at :
    (position : ℕ) (x data_ : Bytes)
    → position + length x ≤ length data_
    → take (position + length x) (written_at position x data_) ≡ take position data_ ++ x
take-written_at position x data_ h =
    let before : Bytes = take position data_ in
    let size_of : length (before ++ x) ≡ position + length x =
      length-append before x ∙ ap (λ k. k + length x) (length-take position data_ (omega arith)) in
    ap (λ k. take k (written_at position x data_)) (sym size_of)
    ∙ take-append (before ++ x) (drop (position + length x) data_)

push_entries-IsWritten :
    (size position : ℕ) (xs : List Bytes) (page : TermPage)
    → All (IsDocument size) xs
    → position + length (flatten xs) ≤ length page.entries_data
    → (page' : TermPage) × (push_entries size position xs page ≡ returns page')
      × IsWritten position xs page page'
unfolding push_entries header_term page_number
push_entries-IsWritten size position [] page h enough = (
  page,
  refl,
  record {
    num_present = omega arith;
    same_term = refl;
    same_number = refl;
    same_length = refl;
    prefix_is =
        ap (λ k. take k page.entries_data) (omega arith)
        ∙ sym (append-nil (take position page.entries_data));
  },
)
push_entries-IsWritten size position (x ∷ xs) page h enough =
    let size_of : length x ≡ size = h.0.size in
    let both : length (x ++ flatten xs) ≡ length x + length (flatten xs) =
      length-append x (flatten xs) in
    let data' : Bytes = written_at position x page.entries_data in
    let page₁ : TermPage = record {
      header = record page.header { num_present = page.header.num_present + 1 };
      entries_data = data';
    } in
    let same : length data' ≡ length page.entries_data =
      length-written_at position x page.entries_data (omega arith) in
    let (page', run, w) =
      push_entries-IsWritten size (position + size) xs page₁ h.1 (omega arith) in
    let copied : copy_entry size position x page.entries_data ≡ returns data' =
      ap (λ k. copy_entry k position x page.entries_data) (sym size_of)
      ∙ copy_entry-returns position x page.entries_data (omega arith) in
    (
      page',
      rw copied run,
      record {
        num_present = omega (arith, w.num_present);
        same_term = w.same_term;
        same_number = w.same_number;
        same_length = w.same_length ∙ same;
        prefix_is =
            ap (λ k. take k page'.entries_data) (omega arith)
            ∙ w.prefix_is
            ∙ ap (λ l. l ++ flatten xs)
                (ap (λ k. take (position + k) data') (sym size_of)
                  ∙ take-written_at position x page.entries_data (omega arith))
            ∙ append_assoc (take position page.entries_data) x (flatten xs);
      },
    )

zero_add : (k : ℕ) → 0 + k ≡ k
zero_add k = omega arith

-- A page with the documents `ids` of the term `t`, under the number `n`.
pub record IsPage (size : ℕ) (page : TermPage) (t : Bytes) (n : ℕ) (ids : List Bytes) : Type 0 where
  pub term_is : header_term page.header ≡ t
  pub number_is : page_number page.header ≡ n
  pub items_are : items size page ≡ returns ids
  pub present : page.header.num_present ≡ length ids
  pub room : size * length ids ≤ entries_data_size

header_term-new_header :
    (t : Bytes) (n : ℕ) → length t ≤ max_term_size → header_term (new_header t n) ≡ t
unfolding header_term new_header
header_term-new_header t n h =
    let fits : leb (length t) max_term_size ≡ true = ground arith in
    let whole : take (length t) t ≡ t =
      ap (take (length t)) (sym (append-nil t)) ∙ take-append t [] in
    rw (fits, whole)
      (ap (λ k. take k (t ++ zeros (max_term_size - length t))) (omega arith)
        ∙ take-append t (zeros (max_term_size - length t)))

page_number-new_header :
    (t : Bytes) (n : ℕ) → n < capacity page_num_len → page_number (new_header t n) ≡ n
unfolding page_number new_header
page_number-new_header t n h = from_le_bytes-to_le_bytes page_num_len n h

items-flatten :
    (size : ℕ) (ids : List Bytes) (page : TermPage)
    → All (IsDocument size) ids
    → page.header.num_present ≡ length ids
    → length (flatten ids) ≤ length page.entries_data
    → take (length (flatten ids)) page.entries_data ≡ flatten ids
    → items size page ≡ returns ids
unfolding items
items-flatten size ids page h present enough prefix =
    let total : size * page.header.num_present ≡ length (flatten ids) =
      ap (λ k. size * k) present ∙ sym (length-flatten size ids h) in
    let fits : leb (length (flatten ids)) (length page.entries_data) ≡ true = ground arith in
    rw (total, fits)
      (ap returns (ap₂ (λ k bs. chunks k size bs) present prefix ∙ chunks-flatten size ids h))

-- A page that is made of no more documents than it has room for has just these documents, in their
-- order, and its header has the term and the number: the documents have the size of the index, the
-- term has at most 64 bytes, and the number at most 5.
pub from_iterator-IsPage :
    (size : ℕ) (t : Bytes) (n : ℕ) (ids : List Bytes)
    → All (IsDocument size) ids
    → size * length ids ≤ entries_data_size
    → length t ≤ max_term_size
    → n < capacity page_num_len
    → (page : TermPage) × (from_iterator size t n ids ≡ returns page) × IsPage size page t n ids
unfolding from_iterator new_page new_header
from_iterator-IsPage size t n ids h room short small =
    let total : length (flatten ids) ≡ size * length ids = length-flatten size ids h in
    let (page, run, w) =
      push_entries-IsWritten size 0 ids (new_page t n) h (omega (arith, total)) in
    let present : page.header.num_present ≡ length ids = w.num_present ∙ zero_add (length ids) in
    let same_length : length page.entries_data ≡ entries_data_size =
      w.same_length ∙ length-zeros entries_data_size in
    (
      page,
      run,
      record {
        term_is = w.same_term ∙ header_term-new_header t n short;
        number_is = w.same_number ∙ page_number-new_header t n small;
        items_are = items-flatten size ids page h present (omega (arith, total, same_length)) (
            ap (λ k. take k page.entries_data) (sym (zero_add (length (flatten ids))))
            ∙ w.prefix_is);
        present = present;
        room = room;
      },
    )
