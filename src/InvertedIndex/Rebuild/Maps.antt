-- ===== src/InvertedIndex/Rebuild/Maps.antt =====
-- The maps from words to documents that a rebuilding of an index changes.
use secure_fusion.Prelude.{
  none, List, [], ◌∷◌, Bool, true, false, ◌&&◌, ◌||◌, flip, is_some, ◌≡◌, refl, sym, ap, ◌∙◌,
  Bool-cases, Option-cases, inl, inr, arith,
}
use secure_fusion.Prelude.Sets.{
  Bytes, same_bytes, contains, get, set, extend, subtract, same_bytes-eq, get-set, get-set_ne,
  contains-extend, contains-subtract, same_bytes_comm,
}
use secure_fusion.InvertedIndex.{unwrap_or_default}
use secure_fusion.InvertedIndex.Modifications.{
  lists, lists-set, lists-set_ne, lists-get, contains-unwrap_or_default,
}
use secure_fusion.InvertedIndex.Rebuild.{
  extend_or_default, delete_changes, delete_word, append_changes,
}

-- Each key is there once.
abbrev pub IsMap {ℓ} : {V : Type ℓ} → List (Bytes × V) → Type ℓ
IsMap [] = Unit
IsMap ((k, v) ∷ m) = (get k m ≡ none) × IsMap m

pub set-IsMap {ℓ} :
    {V : Type ℓ} (k : Bytes) (v : V) (m : List (Bytes × V)) → IsMap m → IsMap (set k v m)
set-IsMap k v [] h = (refl, tt)
set-IsMap k v ((j, w) ∷ m) h = elim (Bool-cases (same_bytes k j)) [
  | inl e ↦ rw e h
  | inr e ↦ rw e (get-set_ne j k v m (same_bytes_comm j k ∙ e) ∙ h.0, set-IsMap k v m h.1)
]

lists-default :
    (t x : Bytes) (m : List (Bytes × List Bytes))
    → lists m t x ≡ contains x (unwrap_or_default (get t m))
lists-default t x m = sym (contains-unwrap_or_default x (get t m))

pub lists-extend_or_default :
    (kw : Bytes) (ids : List Bytes) (m : List (Bytes × List Bytes)) (t x : Bytes)
    → lists (extend_or_default kw ids m) t x ≡ (lists m t x || (same_bytes t kw && contains x ids))
unfolding extend_or_default
lists-extend_or_default kw ids m t x = elim (Bool-cases (same_bytes t kw)) [
  | inl h ↦
      lists-set t x kw (extend (unwrap_or_default (get kw m)) ids) m h
      ∙ contains-extend x (unwrap_or_default (get kw m)) ids
      ∙ ap (λ b. b || contains x ids)
          (sym (lists-default kw x m) ∙ ap (λ z. lists m z x) (sym (same_bytes-eq t kw h)))
      ∙ ground arith
  | inr h ↦ lists-set_ne t x kw (extend (unwrap_or_default (get kw m)) ids) m h ∙ ground arith
]

-- A word that is missing in a map has no document.
missing :
    (t w x : Bytes) (m : List (Bytes × List Bytes))
    → same_bytes t w ≡ true
    → get w m ≡ none
    → lists m t x ≡ false
missing t w x m h g = ground (arith, same_bytes-eq t w h)

pub lists-delete_word :
    (w : Bytes) (gone : List Bytes) (partial : List (Bytes × List Bytes)) (t x : Bytes)
    → lists (delete_word w gone partial) t x
      ≡ (lists partial t x && flip (same_bytes t w && contains x gone))
lists-delete_word w gone partial t x = elim (Option-cases (get w partial)) [
  | inl g ↦ elim (Bool-cases (same_bytes t w)) [
    | inl h ↦ ground (arith, missing t w x partial h g)
    | inr h ↦ ground arith
  ]
  | inr (s, g) ↦ elim (Bool-cases (same_bytes t w)) [
    | inl h ↦ ground (
      arith,
      lists-set t x w (subtract s gone) partial h,
      lists-get t x w s partial h g,
      contains-subtract x s gone,
    )
    | inr h ↦ ground (arith, lists-set_ne t x w (subtract s gone) partial h)
  ]
]

pub lists-delete_changes :
    (removed partial : List (Bytes × List Bytes)) (t x : Bytes)
    → IsMap removed
    → lists (delete_changes removed partial) t x ≡ (lists partial t x && flip (lists removed t x))
unfolding delete_changes
lists-delete_changes [] partial t x h = ground arith
lists-delete_changes ((w, gone) ∷ removed) partial t x h =
    lists-delete_changes removed (delete_word w gone partial) t x h.1
    ∙ ap (λ b. b && flip (lists removed t x)) (lists-delete_word w gone partial t x)
    ∙ elim (Bool-cases (same_bytes t w)) [
      | inl e ↦ ground (arith, missing t w x removed e h.0)
      | inr e ↦ ground arith
    ]

pub lists-append_changes :
    (added partial : List (Bytes × List Bytes)) (t x : Bytes)
    → IsMap added
    → lists (append_changes added partial) t x ≡ (lists partial t x || lists added t x)
unfolding append_changes
lists-append_changes [] partial t x h = ground arith
lists-append_changes ((w, more) ∷ added) partial t x h =
    lists-append_changes added (extend_or_default w more partial) t x h.1
    ∙ ap (λ b. b || lists added t x) (lists-extend_or_default w more partial t x)
    ∙ elim (Bool-cases (same_bytes t w)) [
      | inl e ↦ ground (arith, missing t w x added e h.0)
      | inr e ↦ ground arith
    ]

-- The maps stay maps.
pub extend_or_default-IsMap :
    (kw : Bytes) (ids : List Bytes) (m : List (Bytes × List Bytes))
    → IsMap m
    → IsMap (extend_or_default kw ids m)
unfolding extend_or_default
extend_or_default-IsMap kw ids m h = set-IsMap kw (extend (unwrap_or_default (get kw m)) ids) m h

delete_word-IsMap :
    (w : Bytes) (gone : List Bytes) (m : List (Bytes × List Bytes))
    → IsMap m
    → IsMap (delete_word w gone m)
delete_word-IsMap w gone m h = elim (Option-cases (get w m)) [
  | inl g ↦ rw (g, delete_word) h
  | inr (ids, g) ↦ rw (g, delete_word) (set-IsMap w (subtract ids gone) m h)
]

pub delete_changes-IsMap :
    (removed partial : List (Bytes × List Bytes))
    → IsMap partial
    → IsMap (delete_changes removed partial)
unfolding delete_changes
delete_changes-IsMap [] partial h = h
delete_changes-IsMap ((w, gone) ∷ removed) partial h =
    delete_changes-IsMap removed (delete_word w gone partial) (delete_word-IsMap w gone partial h)

pub append_changes-IsMap :
    (added partial : List (Bytes × List Bytes))
    → IsMap partial
    → IsMap (append_changes added partial)
unfolding append_changes
append_changes-IsMap [] partial h = h
append_changes-IsMap ((w, more) ∷ added) partial h =
    append_changes-IsMap added (extend_or_default w more partial)
      (extend_or_default-IsMap w more partial h)

-- Which words the maps have.
abbrev pub has_word : Bytes → List (Bytes × List Bytes) → Bool
has_word t m = is_some (get t m)

pub has_word-set :
    (t w : Bytes) (ids : List Bytes) (m : List (Bytes × List Bytes))
    → has_word t (set w ids m) ≡ (same_bytes t w || has_word t m)
has_word-set t w ids m = elim (Bool-cases (same_bytes t w)) [
  | inl e ↦ ground (arith, same_bytes-eq t w e, get-set w ids m)
  | inr e ↦ ground (arith, get-set_ne t w ids m e)
]

pub has_word-extend_or_default :
    (t w : Bytes) (ids : List Bytes) (m : List (Bytes × List Bytes))
    → has_word t (extend_or_default w ids m) ≡ (same_bytes t w || has_word t m)
unfolding extend_or_default
has_word-extend_or_default t w ids m = has_word-set t w (extend (unwrap_or_default (get w m)) ids) m

has_word-delete_word :
    (t w : Bytes) (gone : List Bytes) (m : List (Bytes × List Bytes))
    → has_word t (delete_word w gone m) ≡ has_word t m
has_word-delete_word t w gone m = elim (Option-cases (get w m)) [
  | inl g ↦ ground arith
  | inr (ids, g) ↦ elim (Bool-cases (same_bytes t w)) [
    | inl e ↦ ground (arith, same_bytes-eq t w e, has_word-set t w (subtract ids gone) m)
    | inr e ↦ ground (arith, has_word-set t w (subtract ids gone) m)
  ]
]

pub has_word-delete_changes :
    (t : Bytes) (removed partial : List (Bytes × List Bytes))
    → has_word t (delete_changes removed partial) ≡ has_word t partial
unfolding delete_changes
has_word-delete_changes t [] partial = refl
has_word-delete_changes t ((w, gone) ∷ removed) partial =
    has_word-delete_changes t removed (delete_word w gone partial)
    ∙ has_word-delete_word t w gone partial

pub has_word-append_changes :
    (t : Bytes) (added partial : List (Bytes × List Bytes))
    → has_word t (append_changes added partial) ≡ (has_word t partial || has_word t added)
unfolding append_changes
has_word-append_changes t [] partial = ground arith
has_word-append_changes t ((w, more) ∷ added) partial =
    has_word-append_changes t added (extend_or_default w more partial)
    ∙ ground (arith, has_word-extend_or_default t w more partial)
