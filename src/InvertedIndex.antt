-- ===== src/InvertedIndex.antt =====
-- The index of the keywords of a column: backends/mysql/src/metadata/indices/inverted_index,
-- db_inverted_index.rs: the queries on the terms, and the table of the modifications that the stored
-- pages do not have yet. A set of documents is a list, read by `contains` alone.
use secure_fusion.Prelude.{
  ℕ, Option, none, some, List, [], ◌∷◌, ◌++◌, ltb, length, take, Bool, false, if◌then◌else◌,
}
use secure_fusion.Prelude.Sets.{
  Bytes, contains, insert, collect, extend, remove, subtract, intersection, filter, get, set,
}
use secure_fusion.Prelude.{flip}
pub mod Modifications
pub mod Tree
pub mod Pages
pub mod Metadata
pub mod Store
pub mod Update
pub mod Rebuild

abbrev pub max_term_size : ℕ
max_term_size = 64

unfoldable pub resize_term : Bytes → Bytes
resize_term term = if ltb max_term_size (length term) then take max_term_size term else term

pub data RawIndexQuery : Type 0 where
  intersect : RawIndexQuery → RawIndexQuery → RawIndexQuery
  difference : RawIndexQuery → RawIndexQuery → RawIndexQuery
  union : RawIndexQuery → RawIndexQuery → RawIndexQuery
  term : Bytes → RawIndexQuery

unfoldable pub collect_terms : RawIndexQuery → List Bytes → List Bytes
collect_terms (union a b) out = collect_terms b (collect_terms a out)
collect_terms (intersect a b) out = collect_terms b (collect_terms a out)
collect_terms (difference a b) out = collect_terms b (collect_terms a out)
collect_terms (term t) out = insert t out

-- The leaf's second test, on the term that was cut already.
abbrev pub cut_again : Bytes → Bytes
cut_again t = if ltb max_term_size (length t) then take max_term_size t else t

unfoldable pub check_max_lengths : RawIndexQuery → RawIndexQuery
check_max_lengths (intersect a b) = intersect (check_max_lengths a) (check_max_lengths b)
check_max_lengths (difference a b) = difference (check_max_lengths a) (check_max_lengths b)
check_max_lengths (union a b) = union (check_max_lengths a) (check_max_lengths b)
check_max_lengths (term t) = term (cut_again (resize_term t))

-- The maps go from a term to the documents to add or to remove.
pub record ModificationsTable : Type 0 where
  pub added_entries : List (Bytes × List Bytes)
  pub removed_entries : List (Bytes × List Bytes)

-- `if let Some(set) = entries.get_mut(term) { set.remove(&document) }`
abbrev pub discard : Bytes → Bytes → List (Bytes × List Bytes) → List (Bytes × List Bytes)
discard document t entries = elim (get t entries) [
  | none ↦ entries
  | some s ↦ set t (remove document s) entries
]

abbrev pub include : Bytes → Bytes → List (Bytes × List Bytes) → List (Bytes × List Bytes)
include document t entries = elim (get t entries) [
  | some s ↦ set t (insert document s) entries
  | none ↦ set t (document ∷ []) entries
]

unfoldable pub insert_terms : Bytes → List Bytes → ModificationsTable → ModificationsTable
insert_terms document [] m = m
insert_terms document (t ∷ ts) m =
    let t' = resize_term t in
    insert_terms document ts (record {
      added_entries = include document t' m.added_entries;
      removed_entries = discard document t' m.removed_entries;
    })

unfoldable pub remove_terms : Bytes → List Bytes → ModificationsTable → ModificationsTable
remove_terms document [] m = m
remove_terms document (t ∷ ts) m =
    let t' = resize_term t in
    remove_terms document ts (record {
      added_entries = discard document t' m.added_entries;
      removed_entries = include document t' m.removed_entries;
    })

abbrev pub unwrap_or_default : Option (List Bytes) → List Bytes
unwrap_or_default none = []
unwrap_or_default (some s) = s

abbrev pub with_added : Option (List Bytes) → List Bytes → List Bytes
with_added none stream = stream
with_added (some add) stream = stream ++ add

abbrev pub without : Option (List Bytes) → List Bytes → List Bytes
without none stream = stream
without (some gone) stream = filter (λ elem. flip (contains elem gone)) stream

-- The documents of one term: those of the pages and the added ones, without the removed ones.
unfoldable pub evaluate_term : List (Bytes × List Bytes) → ModificationsTable → Bytes → List Bytes
evaluate_term response m t = collect (
    without (get t m.removed_entries)
      (with_added (get t m.added_entries) (unwrap_or_default (get t response))))

unfoldable pub evaluate :
    List (Bytes × List Bytes) → ModificationsTable → RawIndexQuery → List Bytes
evaluate response m (term t) = evaluate_term response m t
evaluate response m (union a b) = extend (evaluate response m a) (evaluate response m b)
evaluate response m (difference a b) = subtract (evaluate response m a) (evaluate response m b)
evaluate response m (intersect a b) = intersection (evaluate response m a) (evaluate response m b)
