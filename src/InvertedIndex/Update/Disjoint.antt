-- ===== src/InvertedIndex/Update/Disjoint.antt =====
-- The added and the removed entries of an index stay apart, however it is changed.
use secure_fusion.Prelude.{List, [], ◌∷◌, refl}
use secure_fusion.Prelude.Sets.{Bytes}
use secure_fusion.InvertedIndex.{ModificationsTable, insert_terms, remove_terms}
use secure_fusion.InvertedIndex.Modifications.{
  IsDisjoint, insert_terms-IsDisjoint, remove_terms-IsDisjoint,
}
use secure_fusion.InvertedIndex.Update.{
  insert_many, update_many, IsReached, created, inserted, updated, deleted,
}

insert_many-IsDisjoint :
    (documents : List (Bytes × List Bytes)) (m : ModificationsTable)
    → IsDisjoint m
    → IsDisjoint (insert_many documents m)
unfolding insert_many
insert_many-IsDisjoint [] m h = h
insert_many-IsDisjoint ((d, ts) ∷ documents) m h =
    insert_many-IsDisjoint documents (insert_terms d ts m) (insert_terms-IsDisjoint d ts m h)

update_many-IsDisjoint :
    (documents : List (Bytes × (List Bytes × List Bytes))) (m : ModificationsTable)
    → IsDisjoint m
    → IsDisjoint (update_many documents m)
unfolding update_many
update_many-IsDisjoint [] m h = h
update_many-IsDisjoint ((d, (ts, us)) ∷ documents) m h =
    update_many-IsDisjoint documents (remove_terms d us (insert_terms d ts m))
      (remove_terms-IsDisjoint d us (insert_terms d ts m) (insert_terms-IsDisjoint d ts m h))

-- Whatever sequence of insertions, updates and deletions led to the modifications of an index, no
-- document is in both the added and the removed entries of a term.
pub IsReached-IsDisjoint : (m : ModificationsTable) → IsReached m → IsDisjoint m
IsReached-IsDisjoint m created = λ t x. refl
IsReached-IsDisjoint m (inserted {m = before} documents r) =
    insert_many-IsDisjoint documents before (IsReached-IsDisjoint before r)
IsReached-IsDisjoint m (updated {m = before} documents r) =
    update_many-IsDisjoint documents before (IsReached-IsDisjoint before r)
IsReached-IsDisjoint m (deleted {m = before} document terms r) =
    remove_terms-IsDisjoint document terms before (IsReached-IsDisjoint before r)
