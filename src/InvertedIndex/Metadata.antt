-- ===== src/InvertedIndex/Metadata.antt =====
-- How many pages each term of an inverted index has: `MetadataPage` of
-- backends/mysql/src/metadata/indices/inverted_index/db_inverted_index.rs.
use secure_fusion.Prelude.{
  ℕ, suc, zero, ◌+◌, ◌^◌, ◌≤◌, Option, none, some, List, [], ◌∷◌, ltb, if◌then◌else◌, true, false,
  ◌≡◌, refl, subst, All, Bool-cases, inl, inr, arith,
}
use secure_fusion.Prelude.Sets.{
  Bytes, same_bytes, filter, get, set, unset, get-set, get-set_ne, get-unset, get-unset_ne,
}

pub record MetadataPage : Type 0 where
  pub num_pages : List (Bytes × ℕ)
  pub default_num_pages : ℕ
  pub key_size : ℕ

abbrev max_metadata_page_size : ℕ
max_metadata_page_size = 2 ^ 20

unfoldable pub new : ℕ → MetadataPage
new key_size = record { num_pages = []; default_num_pages = 0; key_size = key_size }

abbrev pub unwrap_or : ℕ → Option ℕ → ℕ
unwrap_or d none = d
unwrap_or d (some n) = n

unfoldable pub get_num_pages : MetadataPage → Bytes → ℕ
get_num_pages m tag = unwrap_or m.default_num_pages (get tag m.num_pages)

unfoldable pub insert_entry : Bytes → ℕ → MetadataPage → MetadataPage
insert_entry keyword n m =
    if ltb m.default_num_pages n
    then record m { num_pages = set keyword n m.num_pages }
    else record m { num_pages = unset keyword m.num_pages }

-- The terms of no more pages than the next default are left to it.
unfoldable pub raise_default : MetadataPage → MetadataPage
raise_default m =
    let d = m.default_num_pages + 1 in
    record m {
      default_num_pages = d;
      num_pages = filter (λ (e : Bytes × ℕ). ltb d e.1) m.num_pages;
    }

-- `encoded_size` is the length of bincode's encoding. `none` is out of fuel.
unfoldable pub shrink_to_fit_and_encode :
    (MetadataPage → ℕ) → ℕ → MetadataPage → Option MetadataPage
shrink_to_fit_and_encode encoded_size zero m = none
shrink_to_fit_and_encode encoded_size (suc fuel) m =
    let rest = shrink_to_fit_and_encode encoded_size fuel (raise_default m) in
    if ltb max_metadata_page_size (encoded_size m) then rest else some m

pub get_num_pages-insert_entry :
    (m : MetadataPage) (keyword : Bytes) (n : ℕ)
    → n ≤ get_num_pages (insert_entry keyword n m) keyword
unfolding get_num_pages insert_entry
get_num_pages-insert_entry m keyword n =
    ground (arith, get-set keyword n m.num_pages, get-unset keyword m.num_pages)

pub get_num_pages-insert_entry_ne :
    (m : MetadataPage) (keyword t : Bytes) (n : ℕ)
    → same_bytes t keyword ≡ false
    → get_num_pages (insert_entry keyword n m) t ≡ get_num_pages m t
unfolding get_num_pages insert_entry
get_num_pages-insert_entry_ne m keyword t n h =
    ground (arith, get-set_ne t keyword n m.num_pages h, get-unset_ne t keyword m.num_pages h)

above :
    (d : ℕ) (t : Bytes) (l : List (Bytes × ℕ))
    → d ≤ unwrap_or d (get t (filter (λ (e : Bytes × ℕ). ltb d e.1) l))
above d t [] = omega arith
above d t ((k, v) ∷ l) = ground (arith, above d t l)

unwrap_or-filter :
    (d d' : ℕ) (t : Bytes) (l : List (Bytes × ℕ))
    → d ≤ d'
    → unwrap_or d (get t l) ≤ unwrap_or d' (get t (filter (λ (e : Bytes × ℕ). ltb d' e.1) l))
unwrap_or-filter d d' t [] h = h
unwrap_or-filter d d' t ((k, v) ∷ l) h = ground (arith, unwrap_or-filter d d' t l h, above d' t l)

get_num_pages-raise_default :
    (m : MetadataPage) (t : Bytes) → get_num_pages m t ≤ get_num_pages (raise_default m) t
unfolding get_num_pages raise_default
get_num_pages-raise_default m t =
    unwrap_or-filter m.default_num_pages (m.default_num_pages + 1) t m.num_pages (omega arith)

-- No term has more pages than `n`.
abbrev pub AtMost : ℕ → List (Bytes × ℕ) → Type 0
AtMost n l = All (λ (e : Bytes × ℕ). e.1 ≤ n) l

filter-AtMost :
    (d n : ℕ) (l : List (Bytes × ℕ))
    → AtMost n l
    → AtMost n (filter (λ (e : Bytes × ℕ). ltb d e.1) l)
filter-AtMost d n [] h = h
filter-AtMost d n ((k, v) ∷ l) h = elim (Bool-cases (ltb d v)) [
  | inl kept ↦ rw kept (h.0, filter-AtMost d n l h.1)
  | inr gone ↦ rw gone (filter-AtMost d n l h.1)
]

filter-nil :
    (d : ℕ) (l : List (Bytes × ℕ)) → AtMost d l → filter (λ (e : Bytes × ℕ). ltb d e.1) l ≡ []
filter-nil d [] h = refl
filter-nil d ((k, v) ∷ l) h = ground (arith, filter-nil d l h.1, h.0)

raised-AtMost :
    (m : MetadataPage) (n : ℕ)
    → AtMost (m.default_num_pages + suc n) m.num_pages
    → AtMost ((raise_default m).default_num_pages + n) (raise_default m).num_pages
unfolding raise_default
raised-AtMost m n h =
    let moved : m.default_num_pages + suc n ≡ m.default_num_pages + 1 + n = omega arith in
    filter-AtMost (m.default_num_pages + 1) (m.default_num_pages + 1 + n) m.num_pages
      (subst (λ k. AtMost k m.num_pages) moved h)

AtMost-mono : (d n : ℕ) (l : List (Bytes × ℕ)) → d ≤ n → AtMost d l → AtMost n l
AtMost-mono d n [] le h = h
AtMost-mono d n ((k, v) ∷ l) le h =
    let v_le : v ≤ d = h.0 in (omega arith, AtMost-mono d n l le h.1)

module _ (encoded_size : MetadataPage → ℕ) where
  -- The last page of the loop, from `m`.
  abbrev Shrinks : MetadataPage → Option MetadataPage → Type 0
  Shrinks m run =
      (m' : MetadataPage) × (run ≡ some m')
      × (encoded_size m' ≤ 2 ^ 20)
      × ((t : Bytes) → get_num_pages m t ≤ get_num_pages m' t)

  shrink-fits :
      (fuel : ℕ) (m : MetadataPage)
      → encoded_size m ≤ 2 ^ 20
      → Shrinks m (shrink_to_fit_and_encode encoded_size (suc fuel) m)
  unfolding shrink_to_fit_and_encode
  shrink-fits fuel m h =
      let small : ltb max_metadata_page_size (encoded_size m) ≡ false = ground arith in
      (m, rw small refl, h, λ t. omega arith)

  shrink-step :
      (fuel : ℕ) (m : MetadataPage)
      → ltb max_metadata_page_size (encoded_size m) ≡ true
      → Shrinks (raise_default m) (shrink_to_fit_and_encode encoded_size fuel (raise_default m))
      → Shrinks m (shrink_to_fit_and_encode encoded_size (suc fuel) m)
  unfolding shrink_to_fit_and_encode
  shrink-step fuel m large (m', run, fits, more) =
      (m', rw large run, fits, λ t. omega (arith, get_num_pages-raise_default m t, more t))

  raised-nil :
      (m : MetadataPage)
      → AtMost (m.default_num_pages + zero) m.num_pages
      → (raise_default m).num_pages ≡ []
  unfolding raise_default
  raised-nil m h = filter-nil (m.default_num_pages + 1) m.num_pages (
      AtMost-mono (m.default_num_pages + zero) (m.default_num_pages + 1) m.num_pages (omega arith)
        h)

  shrink-all :
      ((m : MetadataPage) → m.num_pages ≡ [] → encoded_size m ≤ 2 ^ 20)
      → (fuel : ℕ) (m : MetadataPage) → AtMost (m.default_num_pages + fuel) m.num_pages
      → Shrinks m (shrink_to_fit_and_encode encoded_size (suc (suc fuel)) m)
  shrink-all empty zero m bound = elim (Bool-cases (ltb max_metadata_page_size (encoded_size m))) [
    | inr small ↦ shrink-fits 1 m (ground arith)
    | inl large ↦
        shrink-step 1 m large
          (shrink-fits 0 (raise_default m) (empty (raise_default m) (raised-nil m bound)))
  ]
  shrink-all empty (suc fuel) m bound =
      elim (Bool-cases (ltb max_metadata_page_size (encoded_size m))) [
        | inr small ↦ shrink-fits (suc (suc fuel)) m (ground arith)
        | inl large ↦
            shrink-step (suc (suc fuel)) m large
              (shrink-all empty fuel (raise_default m) (raised-AtMost m fuel bound))
      ]

-- The loop ends with a page that fits, which promises no fewer pages of any term than before: the
-- fuel is more than the number of pages of each term over the default, and a page with no entries
-- fits.
pub shrink_to_fit_and_encode_total :
    (encoded_size : MetadataPage → ℕ) (fuel : ℕ) (m : MetadataPage)
    → ((m : MetadataPage) → m.num_pages ≡ [] → encoded_size m ≤ 2 ^ 20)
    → AtMost (m.default_num_pages + fuel) m.num_pages
    → (m' : MetadataPage) × (shrink_to_fit_and_encode encoded_size (suc (suc fuel)) m ≡ some m')
      × (encoded_size m' ≤ 2 ^ 20)
      × ((t : Bytes) → get_num_pages m t ≤ get_num_pages m' t)
shrink_to_fit_and_encode_total encoded_size fuel m empty bound =
    shrink-all encoded_size empty fuel m bound
