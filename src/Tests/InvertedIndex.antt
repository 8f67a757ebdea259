-- ===== src/Tests/InvertedIndex.antt =====
-- The inverted index of backends/mysql/src/metadata/indices/inverted_index on documents of two bytes,
-- with ciphers that keep the page as it is and check its version and its tag.
use secure_fusion.Prelude.{
  ℕ, ◌*◌, ◌^◌, ◌≤◌, ◌≡◌, refl, ap, String, Option, none, some, List, [], ◌∷◌, Bool, true, false,
  map, ◌&&◌, ◌||◌, if◌then◌else◌, length, All, arith,
}
use text.Mathlib.Text.{◌==◌ as str_eq}
use secure_fusion.Prelude.Sets.{Bytes, same_bytes, contains, filter, contains-filter}
use secure_fusion.Run.{Run, returns}
use secure_fusion.RowId.{DataType}
use secure_fusion.Sql.{SqlValue, SqlExpr, eval_sql}
use secure_fusion.InvertedIndex.{RawIndexQuery, term, insert_terms, resize_term}
use secure_fusion.InvertedIndex.Modifications.{meets}
use secure_fusion.InvertedIndex.Tree.{
  ExecutableFilterTree, Field, execute_filter, simplify, as_u64, document_value, document_values,
  values_to_expr, to_expr,
}
use secure_fusion.InvertedIndex.Tree.Simplify.{meets_tree}
use secure_fusion.InvertedIndex.Tree.Leaf.{IsDocument, truth}
use secure_fusion.InvertedIndex.Tree.Execute.{IsAnswered, opposite}
use secure_fusion.InvertedIndex.Tree.Conjunction.{execute_filter-simplify_sound}
use secure_fusion.InvertedIndex.Pages.{TermPage, from_iterator, header_term, page_number, items}
use secure_fusion.InvertedIndex.Pages.RoundTrip.{IsPage, from_iterator-IsPage}
use secure_fusion.InvertedIndex.Metadata.{
  MetadataPage, shrink_to_fit_and_encode, raise_default, get_num_pages,
  shrink_to_fit_and_encode_total,
}
use secure_fusion.InvertedIndex.Modifications.{IsDisjoint}
use secure_fusion.InvertedIndex.Update.{
  insert_many, update_many, no_changes, IsReached, created, inserted, updated,
}
use secure_fusion.InvertedIndex.Update.Disjoint.{IsReached-IsDisjoint}

program : Unit {0}
unfolding insert_terms resize_term execute_filter simplify as_u64 document_value document_values
    values_to_expr to_expr from_iterator header_term page_number items shrink_to_fit_and_encode
    raise_default get_num_pages
program = tt

-- The documents are 1 and 2, both of "red", and 2 of "car"; the row is 2.
abbrev pub red : Bytes
red = 107 ∷ 114 ∷ []

abbrev pub car : Bytes
car = 107 ∷ 99 ∷ []

abbrev pub one : Bytes
one = 1 ∷ 0 ∷ []

abbrev pub two : Bytes
two = 2 ∷ 0 ∷ []

abbrev has_document : Bytes → Bytes → Bool
has_document t x =
    (same_bytes t red && contains x (one ∷ two ∷ [])) || (same_bytes t car && same_bytes x two)

-- Every query has the documents out of these two that meet it.
abbrev answer : RawIndexQuery → List Bytes
answer q = filter (λ x. meets has_document q x) (one ∷ two ∷ [])

abbrev ask : List RawIndexQuery → Run (List (List Bytes))
ask qs = returns (map answer qs)

abbrev id_column : Field
id_column = record { name = "id"; data_type = DataType.uint64 }

abbrev stored_row : String → Option SqlValue
stored_row name = if str_eq name "id" then some (SqlValue.number 2) else none

-- NOT car AND red, and NOT car OR red
abbrev neither : ExecutableFilterTree
neither =
    ExecutableFilterTree.and
      (ExecutableFilterTree.not (ExecutableFilterTree.filter_expr (term car)))
      (ExecutableFilterTree.filter_expr (term red))

abbrev either : ExecutableFilterTree
either =
    ExecutableFilterTree.or (ExecutableFilterTree.not (ExecutableFilterTree.filter_expr (term car)))
      (ExecutableFilterTree.filter_expr (term red))

pub two_documents : IsDocument 2 one × IsDocument 2 two
two_documents = (
  record { size = refl; bytes = (omega arith, (omega arith, tt)) },
  record { size = refl; bytes = (omega arith, (omega arith, tt)) },
)

-- Some of the two documents.
picked :
    (b c : Bool)
    → All
        (IsDocument 2)
        (if b then one ∷ (if c then two ∷ [] else []) else (if c then two ∷ [] else []))
picked true true = (two_documents.0, (two_documents.1, tt))
picked true false = (two_documents.0, tt)
picked false true = (two_documents.1, tt)
picked false false = tt

answer_documents : (q : RawIndexQuery) → All (IsDocument 2) (answer q)
answer_documents q = picked (meets has_document q one) (meets has_document q two)

answered : IsAnswered ask has_document answer id_column 2 stored_row two
answered = record {
  column_fits = λ _. omega arith;
  document = two_documents.1;
  read = refl;
  asked = λ qs. refl;
  documents = answer_documents;
  correct = λ q. contains-filter two (λ x. meets has_document q x) (one ∷ two ∷ []);
}

execute_filter-simplify_sound_example :
    (e : SqlExpr) × (execute_filter ask id_column (simplify neither) ≡ returns e)
    × (eval_sql stored_row e ≡ truth (meets_tree has_document neither two))
execute_filter-simplify_sound_example =
    execute_filter-simplify_sound ask has_document answer id_column 2 stored_row two answered
      neither (tt, tt)

opposite-either :
    opposite either
    ≡ ExecutableFilterTree.or
        (ExecutableFilterTree.not (ExecutableFilterTree.filter_expr (term red)))
        (ExecutableFilterTree.filter_expr (term car))
opposite-either = refl

from_iterator-IsPage_example :
    (page : TermPage) × (from_iterator 2 red 3 (one ∷ two ∷ []) ≡ returns page)
    × IsPage 2 page red 3 (one ∷ two ∷ [])
from_iterator-IsPage_example =
    from_iterator-IsPage 2 red 3 (one ∷ two ∷ []) (two_documents.0, (two_documents.1, tt))
      (omega arith) (omega arith) (omega arith)

-- An encoding of 2 ^ 19 bytes for each entry, of which two fit.
abbrev encoded_size : MetadataPage → ℕ
encoded_size m = 2 ^ 19 * length m.num_pages

abbrev three_terms : MetadataPage
three_terms = record {
  num_pages = (red, 1) ∷ (car, 2) ∷ (one, 3) ∷ [];
  default_num_pages = 0;
  key_size = 2;
}

encoded_size-nil : (m : MetadataPage) → m.num_pages ≡ [] → encoded_size m ≤ 2 ^ 20
encoded_size-nil m h =
    let none_left : length m.num_pages ≡ 0 = ap length h in omega (arith, none_left)

shrink_to_fit_and_encode_total_example :
    (m : MetadataPage) × (shrink_to_fit_and_encode encoded_size 5 three_terms ≡ some m)
    × (encoded_size m ≤ 2 ^ 20)
    × ((t : Bytes) → get_num_pages three_terms t ≤ get_num_pages m t)
shrink_to_fit_and_encode_total_example =
    shrink_to_fit_and_encode_total encoded_size 3 three_terms encoded_size-nil
      (omega arith, (omega arith, (omega arith, tt)))

-- The document 1 is inserted under "red", and moved to "car".
moved :
    IsReached (
      update_many
        ((one, (car ∷ [], red ∷ [])) ∷ [])
        (insert_many ((one, red ∷ []) ∷ []) no_changes))
moved = updated ((one, (car ∷ [], red ∷ [])) ∷ []) (inserted ((one, red ∷ []) ∷ []) created)

IsReached-IsDisjoint_example :
    IsDisjoint (
      update_many
        ((one, (car ∷ [], red ∷ [])) ∷ [])
        (insert_many ((one, red ∷ []) ∷ []) no_changes))
IsReached-IsDisjoint_example =
    IsReached-IsDisjoint
      (update_many ((one, (car ∷ [], red ∷ [])) ∷ [])
        (insert_many ((one, red ∷ []) ∷ []) no_changes))
      moved
