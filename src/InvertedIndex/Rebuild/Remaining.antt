-- ===== src/InvertedIndex/Rebuild/Remaining.antt =====
-- The modifications that the rebuilding of an index leaves: the end of
-- `DbNextVersionTask::do_next_version` of
-- backends/mysql/src/metadata/indices/inverted_index/db_inverted_index.rs.
use secure_fusion.Prelude.{
  ◌≡◌, refl, ap, subst, ◌∙◌, inl, inr, none, List, [], ◌∷◌, true, if◌then◌else◌, is_some,
  Bool-cases, arith,
}
use secure_fusion.Prelude.Sets.{
  Bytes, same_bytes, same_bytes-eq, contains, get, unset, get-unset, get-unset_ne,
}
use secure_fusion.InvertedIndex.{ModificationsTable}
use secure_fusion.InvertedIndex.Rebuild.{words, unset_all, remaining}

get-unset_same :
    (q k : Bytes) (m : List (Bytes × List Bytes)) → same_bytes q k ≡ true → get q (unset k m) ≡ none
get-unset_same q k m h = subst (λ j. get q (unset j m) ≡ none) (same_bytes-eq q k h) (get-unset q m)

get-unset_all :
    (q : Bytes) (ws : List Bytes) (m : List (Bytes × List Bytes))
    → get q (unset_all ws m) ≡ (if contains q ws then none else get q m)
get-unset_all q [] m = refl
get-unset_all q (w ∷ ws) m = elim (Bool-cases (same_bytes q w)) [
  | inl h ↦ ground (arith, get-unset_all q ws (unset w m), get-unset_same q w m h)
  | inr h ↦ ground (arith, get-unset_all q ws (unset w m), get-unset_ne q w m h)
]

contains-words :
    (q : Bytes) (m : List (Bytes × List Bytes)) → contains q (words m) ≡ is_some (get q m)
contains-words q [] = refl
contains-words q ((j, v) ∷ m) = ground (arith, contains-words q m)

get-unset_words :
    (q : Bytes) (done m : List (Bytes × List Bytes))
    → get q (unset_all (words done) m) ≡ (if is_some (get q done) then none else get q m)
get-unset_words q done m =
    get-unset_all q (words done) m ∙ ap (λ b. if b then none else get q m) (contains-words q done)

-- Once the changes are incorporated, the modifications that the table had by then keep their
-- entries for a word alone that the changes have none for: for a word that the changes add
-- documents to, every addition is dropped, whether or not the changes have it, and for a word that
-- they remove documents from, every removal.
pub remaining-drops :
    (changes latest : ModificationsTable) (word : Bytes)
    → (get word (remaining changes latest).added_entries ≡ (
        if is_some (get word changes.added_entries) then none else get word latest.added_entries))
      × (get word (remaining changes latest).removed_entries ≡ (
          if is_some (get word changes.removed_entries)
          then none
          else get word latest.removed_entries))
unfolding remaining
remaining-drops changes latest word = (
  get-unset_words word changes.added_entries latest.added_entries,
  get-unset_words word changes.removed_entries latest.removed_entries,
)
