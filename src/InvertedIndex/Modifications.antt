-- ===== src/InvertedIndex/Modifications.antt =====
-- The modifications of an inverted index, and the queries that read them.
use secure_fusion.Prelude.{
  Option, none, some, List, [], ◌∷◌, Bool, true, false, ◌&&◌, ◌||◌, flip, ◌≡◌, refl, ap, ap₂, ◌∙◌,
  Bool-cases, Option-cases, inl, inr, arith,
}
use secure_fusion.Prelude.Sets.{
  Bytes, same_bytes, contains, insert, remove, get, set, same_bytes-eq, contains-append,
  contains-filter, contains-insert, contains-collect, contains-extend, contains-remove,
  contains-subtract, contains-intersection, get-set, get-set_ne,
}
use secure_fusion.InvertedIndex.{
  RawIndexQuery, intersect, difference, union, term, ModificationsTable, discard, include,
  unwrap_or_default, with_added, without, insert_terms, remove_terms, evaluate_term, evaluate,
  resize_term,
}

-- Whether a map has the document under the term.
abbrev pub lists : List (Bytes × List Bytes) → Bytes → Bytes → Bool
lists entries t x = elim (get t entries) [ none ↦ false | some s ↦ contains x s ]

-- Whether an index has the document under the term, by whether its pages do.
abbrev pub has_with : Bool → ModificationsTable → Bytes → Bytes → Bool
has_with stored m t x = (stored || lists m.added_entries t x) && flip (lists m.removed_entries t x)

-- Whether the index has the document under the term, by the pages that a query found.
abbrev pub has : List (Bytes × List Bytes) → ModificationsTable → Bytes → Bytes → Bool
has response m t x = has_with (lists response t x) m t x

-- The documents that meet a query, for an index that has the documents `h t x` under its terms.
abbrev pub meets : (Bytes → Bytes → Bool) → RawIndexQuery → Bytes → Bool
meets h (term t) x = h t x
meets h (union a b) x = meets h a x || meets h b x
meets h (difference a b) x = meets h a x && flip (meets h b x)
meets h (intersect a b) x = meets h a x && meets h b x

-- Whether a list of terms has the term once they are cut to the greatest length.
abbrev pub names : List Bytes → Bytes → Bool
names [] q = false
names (t ∷ ts) q = same_bytes q (resize_term t) || names ts q

pub lists-set :
    (q x t : Bytes) (s : List Bytes) (m : List (Bytes × List Bytes))
    → same_bytes q t ≡ true
    → lists (set t s m) q x ≡ contains x s
lists-set q x t s m h = ground (arith, same_bytes-eq q t h, get-set t s m)

pub lists-set_ne :
    (q x t : Bytes) (s : List Bytes) (m : List (Bytes × List Bytes))
    → same_bytes q t ≡ false
    → lists (set t s m) q x ≡ lists m q x
lists-set_ne q x t s m h = ground (arith, get-set_ne q t s m h)

pub lists-get :
    (q x t : Bytes) (s : List Bytes) (m : List (Bytes × List Bytes))
    → same_bytes q t ≡ true
    → get t m ≡ some s
    → lists m q x ≡ contains x s
lists-get q x t s m h g = ground (arith, same_bytes-eq q t h)

pub lists-discard :
    (x : Bytes) (d t q : Bytes) (m : List (Bytes × List Bytes))
    → lists (discard d t m) q x ≡ (lists m q x && flip (same_bytes q t && same_bytes x d))
lists-discard x d t q m = elim (Option-cases (get t m)) [
  | inl g ↦ elim (Bool-cases (same_bytes q t)) [
    | inl h ↦ ground (arith, same_bytes-eq q t h)
    | inr h ↦ ground arith
  ]
  | inr (s, g) ↦ elim (Bool-cases (same_bytes q t)) [
    | inl h ↦
        ground
          (arith, lists-set q x t (remove d s) m h, lists-get q x t s m h g, contains-remove x d s)
    | inr h ↦ ground (arith, lists-set_ne q x t (remove d s) m h)
  ]
]

pub lists-include :
    (x : Bytes) (d t q : Bytes) (m : List (Bytes × List Bytes))
    → lists (include d t m) q x ≡ (lists m q x || (same_bytes q t && same_bytes x d))
lists-include x d t q m = elim (Option-cases (get t m)) [
  | inl g ↦ elim (Bool-cases (same_bytes q t)) [
    | inl h ↦ ground (arith, same_bytes-eq q t h, lists-set q x t (d ∷ []) m h)
    | inr h ↦ ground (arith, lists-set_ne q x t (d ∷ []) m h)
  ]
  | inr (s, g) ↦ elim (Bool-cases (same_bytes q t)) [
    | inl h ↦
        ground
          (arith, lists-set q x t (insert d s) m h, lists-get q x t s m h g, contains-insert x d s)
    | inr h ↦ ground (arith, lists-set_ne q x t (insert d s) m h)
  ]
]

contains-with_added :
    (x : Bytes) (o : Option (List Bytes)) (s : List Bytes)
    → contains x (with_added o s)
      ≡ (contains x s || (elim o as (λ z. Bool) [ none ↦ false | some a ↦ contains x a ]))
contains-with_added x none s = ground arith
contains-with_added x (some a) s = contains-append x s a

contains-without :
    (x : Bytes) (o : Option (List Bytes)) (s : List Bytes)
    → contains x (without o s)
      ≡ (contains x s && flip (elim o as (λ z. Bool) [ none ↦ false | some a ↦ contains x a ]))
contains-without x none s = ground arith
contains-without x (some a) s = contains-filter x (λ z. flip (contains z a)) s

pub contains-unwrap_or_default :
    (x : Bytes) (o : Option (List Bytes))
    → contains x (unwrap_or_default o)
      ≡ (elim o as (λ z. Bool) [ none ↦ false | some a ↦ contains x a ])
contains-unwrap_or_default x none = refl
contains-unwrap_or_default x (some s) = refl

contains-evaluate_term :
    (response : List (Bytes × List Bytes)) (m : ModificationsTable) (t x : Bytes)
    → contains x (evaluate_term response m t) ≡ has response m t x
unfolding evaluate_term
contains-evaluate_term response m t x =
    let stored : List Bytes = unwrap_or_default (get t response) in
    let chained : List Bytes = with_added (get t m.added_entries) stored in
    contains-collect x (without (get t m.removed_entries) chained)
    ∙ contains-without x (get t m.removed_entries) chained
    ∙ ap (λ b. b && flip (lists m.removed_entries t x))
        (contains-with_added x (get t m.added_entries) stored
          ∙ ap (λ b. b || lists m.added_entries t x)
              (contains-unwrap_or_default x (get t response)))

pub contains-evaluate :
    (response : List (Bytes × List Bytes)) (m : ModificationsTable) (q : RawIndexQuery) (x : Bytes)
    → contains x (evaluate response m q) ≡ meets (has response m) q x
unfolding evaluate
contains-evaluate response m (term t) x = contains-evaluate_term response m t x
contains-evaluate response m (union a b) x =
    contains-extend x (evaluate response m a) (evaluate response m b)
    ∙ ap₂ ◌||◌ (contains-evaluate response m a x) (contains-evaluate response m b x)
contains-evaluate response m (difference a b) x =
    contains-subtract x (evaluate response m a) (evaluate response m b)
    ∙ ap₂ (λ u v. u && flip v) (contains-evaluate response m a x) (contains-evaluate response m b x)
contains-evaluate response m (intersect a b) x =
    contains-intersection x (evaluate response m a) (evaluate response m b)
    ∙ ap₂ ◌&&◌ (contains-evaluate response m a x) (contains-evaluate response m b x)

-- What an index has after a step with one document and one term.
hit-insert :
    (stored added removed here : Bool)
    → ((stored || (added || here)) && flip (removed && flip here))
      ≡ (((stored || added) && flip removed) || here)
hit-insert stored added removed here = ground arith

hit-remove :
    (stored added removed here : Bool)
    → ((stored || (added && flip here)) && flip (removed || here))
      ≡ (((stored || added) && flip removed) && flip here)
hit-remove stored added removed here = ground arith

or-and : (a b c d : Bool) → ((a || (b && d)) || (c && d)) ≡ (a || ((b || c) && d))
or-and a b c d = ground arith

and-not : (a b c d : Bool) → ((a && flip (b && d)) && flip (c && d)) ≡ (a && flip ((b || c) && d))
and-not a b c d = ground arith

pub has_with-insert_terms :
    (stored : Bool) (d : Bytes) (ts : List Bytes) (m : ModificationsTable) (q x : Bytes)
    → has_with stored (insert_terms d ts m) q x
      ≡ (has_with stored m q x || (names ts q && same_bytes x d))
unfolding insert_terms
has_with-insert_terms stored d [] m q x = ground arith
has_with-insert_terms stored d (t ∷ ts) m q x =
    has_with-insert_terms stored d ts _ q x
    ∙ ap (λ b. b || (names ts q && same_bytes x d))
        (ap₂ (λ b c. (stored || b) && flip c) (lists-include x d (resize_term t) q m.added_entries)
            (lists-discard x d (resize_term t) q m.removed_entries)
          ∙ hit-insert (stored) (lists m.added_entries q x) (lists m.removed_entries q x)
              (same_bytes q (resize_term t) && same_bytes x d))
    ∙ or-and (has_with stored m q x) (same_bytes q (resize_term t)) (names ts q) (same_bytes x d)

pub has_with-remove_terms :
    (stored : Bool) (d : Bytes) (ts : List Bytes) (m : ModificationsTable) (q x : Bytes)
    → has_with stored (remove_terms d ts m) q x
      ≡ (has_with stored m q x && flip (names ts q && same_bytes x d))
unfolding remove_terms
has_with-remove_terms stored d [] m q x = ground arith
has_with-remove_terms stored d (t ∷ ts) m q x =
    has_with-remove_terms stored d ts _ q x
    ∙ ap (λ b. b && flip (names ts q && same_bytes x d))
        (ap₂ (λ b c. (stored || b) && flip c) (lists-discard x d (resize_term t) q m.added_entries)
            (lists-include x d (resize_term t) q m.removed_entries)
          ∙ hit-remove (stored) (lists m.added_entries q x) (lists m.removed_entries q x)
              (same_bytes q (resize_term t) && same_bytes x d))
    ∙ and-not (has_with stored m q x) (same_bytes q (resize_term t)) (names ts q) (same_bytes x d)

-- No document is added and removed under the same term.
abbrev pub IsDisjoint : ModificationsTable → Type 0
IsDisjoint m = (t x : Bytes) → (lists m.added_entries t x && lists m.removed_entries t x) ≡ false

disjoint_step : (a b here : Bool) → (a && b) ≡ false → ((a || here) && (b && flip here)) ≡ false
disjoint_step a b here h = ground arith

disjoint_step_removed :
    (a b here : Bool) → (a && b) ≡ false → ((a && flip here) && (b || here)) ≡ false
disjoint_step_removed a b here h = ground arith

-- Inserting or removing the terms of a document keeps the added and the removed ones apart.
pub insert_terms-IsDisjoint :
    (d : Bytes) (ts : List Bytes) (m : ModificationsTable)
    → IsDisjoint m
    → IsDisjoint (insert_terms d ts m)
unfolding insert_terms
insert_terms-IsDisjoint d [] m h = h
insert_terms-IsDisjoint d (t ∷ ts) m h =
    insert_terms-IsDisjoint d ts
      (record {
        added_entries = include d (resize_term t) m.added_entries;
        removed_entries = discard d (resize_term t) m.removed_entries;
      })
      (λ q x.
        ap₂ ◌&&◌ (lists-include x d (resize_term t) q m.added_entries)
          (lists-discard x d (resize_term t) q m.removed_entries)
        ∙ disjoint_step (lists m.added_entries q x) (lists m.removed_entries q x)
            (same_bytes q (resize_term t) && same_bytes x d) (h q x))

pub remove_terms-IsDisjoint :
    (d : Bytes) (ts : List Bytes) (m : ModificationsTable)
    → IsDisjoint m
    → IsDisjoint (remove_terms d ts m)
unfolding remove_terms
remove_terms-IsDisjoint d [] m h = h
remove_terms-IsDisjoint d (t ∷ ts) m h =
    remove_terms-IsDisjoint d ts
      (record {
        added_entries = discard d (resize_term t) m.added_entries;
        removed_entries = include d (resize_term t) m.removed_entries;
      })
      (λ q x.
        ap₂ ◌&&◌ (lists-discard x d (resize_term t) q m.added_entries)
          (lists-include x d (resize_term t) q m.removed_entries)
        ∙ disjoint_step_removed (lists m.added_entries q x) (lists m.removed_entries q x)
            (same_bytes q (resize_term t) && same_bytes x d) (h q x))
