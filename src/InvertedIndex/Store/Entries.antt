-- ===== src/InvertedIndex/Store/Entries.antt =====
-- What the rows of an index's table stand for: the documents of each page, by term and number.
use secure_fusion.Prelude.{
  ℕ, ◌<◌, some, List, [], ◌∷◌, ◌++◌, Bool, true, false, ◌&&◌, ◌||◌, flip, ◌≡◌, refl, All, arith,
}
use secure_fusion.Prelude.Sets.{Bytes, same_bytes, contains}
use secure_fusion.InvertedIndex.{ModificationsTable}
use secure_fusion.InvertedIndex.Modifications.{has_with}
use secure_fusion.InvertedIndex.Metadata.{MetadataPage, get_num_pages}
use secure_fusion.InvertedIndex.Pages.{TermPage}
use secure_fusion.InvertedIndex.Pages.RoundTrip.{IsPage}
use secure_fusion.InvertedIndex.Store.{
  page_tag, Ciphers, IndexTableRow, metadata_tag, modifications_tag,
}
use secure_fusion.InvertedIndex.Store.Load.{is_control}

pub record Entry : Type 0 where
  pub keyword : Bytes
  pub number : ℕ
  pub ids : List Bytes

-- Whether the pages have the document under the term.
abbrev pub in_entries : List Entry → Bytes → Bytes → Bool
in_entries [] t x = false
in_entries (e ∷ es) t x = (same_bytes t e.keyword && contains x e.ids) || in_entries es t x

-- Whether the index has the document under the term, by its pages and its modifications.
abbrev pub index_has : List Entry → ModificationsTable → Bytes → Bytes → Bool
index_has es m t x = has_with (in_entries es t x) m t x

-- The metadata promise each page.
abbrev pub IsCovered : MetadataPage → List Entry → Type 0
IsCovered m es = All (λ (e : Entry). e.number < get_num_pages m e.keyword) es

-- The terms of the pages are in the vocabulary.
abbrev pub AreKnown : List Bytes → List Entry → Type 0
AreKnown vocabulary es = All (λ (e : Entry). contains e.keyword vocabulary ≡ true) es

pub in_entries-append :
    (es fs : List Entry) (t x : Bytes)
    → in_entries (es ++ fs) t x ≡ (in_entries es t x || in_entries fs t x)
in_entries-append [] fs t x = refl
in_entries-append (e ∷ es) fs t x = ground (arith, in_entries-append es fs t x)

module _ {ℓ} {B : Type ℓ} (ciphers : Ciphers B) where
  -- The pages that a version has of the terms of a vocabulary have different tags for different terms,
  -- and none has the tag of a control page.
  pub record HasDistinctTags (version : ℕ) (vocabulary : List Bytes) (num_pages : Bytes → ℕ)
      : Type 0 where
    pub different_terms :
        (t u : Bytes) (i j : ℕ)
        → contains t vocabulary ≡ true
        → contains u vocabulary ≡ true
        → i < num_pages t
        → j < num_pages u
        → page_tag ciphers version t i ≡ page_tag ciphers version u j
        → t ≡ u
    pub not_metadata :
        (t : Bytes) (i : ℕ)
        → contains t vocabulary ≡ true
        → i < num_pages t
        → same_bytes (page_tag ciphers version t i) metadata_tag ≡ false
    pub not_modifications :
        (t : Bytes) (i : ℕ)
        → contains t vocabulary ≡ true
        → i < num_pages t
        → same_bytes (page_tag ciphers version t i) modifications_tag ≡ false

  pub record IsStored (size version : ℕ) (row : IndexTableRow B) (e : Entry) : Type ℓ where
    pub version_is : row.version ≡ version
    pub tag_is : row.tag ≡ page_tag ciphers version e.keyword e.number
    pub term_page : TermPage
    pub decrypts : ciphers.decrypt_page version row.tag row.page ≡ some term_page
    pub page_is : IsPage size term_page e.keyword e.number e.ids

  pub data AreStored (size version : ℕ) : List (IndexTableRow B) → List Entry → Type ℓ where
    none_stored : AreStored size version [] []
    one_stored :
        {row : IndexTableRow B} {e : Entry} {rows : List (IndexTableRow B)} {es : List Entry}
        → IsStored size version row e
        → AreStored size version rows es
        → AreStored size version (row ∷ rows) (e ∷ es)

  abbrev pub is_page : IndexTableRow B → Bool
  is_page row = flip (is_control ciphers row)
