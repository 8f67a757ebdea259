-- ===== src/Prelude/Sets.antt =====
-- Byte strings, and the sets and the maps of byte strings that Rust keeps in hash tables and trees.
use Prim.Native.Nat.{ℕ}
use mathlib.Core.Path.{◌≡◌, refl, ap, ◌∙◌}
use mathlib.Core.Bool.{Bool, true, false, ◌&&◌, ◌||◌}
use mathlib.Core.Option.{Option, none, some}
use mathlib.Core.List.{List, [], ◌∷◌, ◌++◌}
use mathlib.Core.Logic.{inl, inr}
use native.Mathlib.Omega.{arith}
use secure_fusion.Prelude.Tests.{◌==◌, if◌then◌else◌, flip, Bool-cases}

abbrev pub Bytes : Type 0
Bytes = List ℕ

abbrev pub same_bytes : Bytes → Bytes → Bool
same_bytes [] [] = true
same_bytes (a ∷ as') (b ∷ bs) = (a == b) && same_bytes as' bs
same_bytes _ _ = false

pub same_bytes-eq : (a b : Bytes) → same_bytes a b ≡ true → a ≡ b
same_bytes-eq [] [] h = refl
same_bytes-eq (a ∷ as') (b ∷ bs) h = ground (arith, same_bytes-eq as' bs)
same_bytes-eq [] (b ∷ bs) h = cc
same_bytes-eq (a ∷ as') [] h = cc

pub same_bytes_refl : (a : Bytes) → same_bytes a a ≡ true
same_bytes_refl [] = refl
same_bytes_refl (a ∷ as') = ground (arith, same_bytes_refl as')

pub same_bytes_comm : (a b : Bytes) → same_bytes a b ≡ same_bytes b a
same_bytes_comm [] [] = refl
same_bytes_comm (a ∷ as') (b ∷ bs) = ground (arith, same_bytes_comm as' bs)
same_bytes_comm [] (b ∷ bs) = refl
same_bytes_comm (a ∷ as') [] = refl

abbrev pub contains : Bytes → List Bytes → Bool
contains x [] = false
contains x (y ∷ s) = same_bytes x y || contains x s

abbrev pub filter {ℓ} : {A : Type ℓ} → (A → Bool) → List A → List A
filter p [] = []
filter p (x ∷ s) = let rest = filter p s in if p x then x ∷ rest else rest

abbrev pub insert : Bytes → List Bytes → List Bytes
insert x s = if contains x s then s else x ∷ s

abbrev pub collect : List Bytes → List Bytes
collect [] = []
collect (x ∷ s) = insert x (collect s)

abbrev pub extend : List Bytes → List Bytes → List Bytes
extend s [] = s
extend s (x ∷ t) = extend (insert x s) t

abbrev pub remove : Bytes → List Bytes → List Bytes
remove x s = filter (λ y. flip (same_bytes y x)) s

abbrev pub subtract : List Bytes → List Bytes → List Bytes
subtract s [] = s
subtract s (x ∷ t) = subtract (remove x s) t

abbrev pub intersection : List Bytes → List Bytes → List Bytes
intersection s t = filter (λ x. contains x t) s

pub contains-append :
    (x : Bytes) (s t : List Bytes) → contains x (s ++ t) ≡ (contains x s || contains x t)
contains-append x [] t = refl
contains-append x (y ∷ s) t = ground (arith, contains-append x s t)

pub contains-filter :
    (x : Bytes) (p : Bytes → Bool) (s : List Bytes)
    → contains x (filter p s) ≡ (contains x s && p x)
contains-filter x p [] = refl
contains-filter x p (y ∷ s) = elim (Bool-cases (same_bytes x y)) [
  | inl h ↦ let e : p x ≡ p y = ap p (same_bytes-eq x y h) in ground (arith, contains-filter x p s)
  | inr h ↦ ground (arith, contains-filter x p s)
]

pub contains-insert :
    (x y : Bytes) (s : List Bytes) → contains x (insert y s) ≡ (same_bytes x y || contains x s)
contains-insert x y s = elim (Bool-cases (same_bytes x y)) [
  | inl h ↦
      let e : contains x s ≡ contains y s = ap (λ z. contains z s) (same_bytes-eq x y h) in
      ground arith
  | inr h ↦ ground arith
]

pub contains-collect : (x : Bytes) (s : List Bytes) → contains x (collect s) ≡ contains x s
contains-collect x [] = refl
contains-collect x (y ∷ s) =
    contains-insert x y (collect s) ∙ ap (λ b. same_bytes x y || b) (contains-collect x s)

pub contains-extend :
    (x : Bytes) (s t : List Bytes) → contains x (extend s t) ≡ (contains x s || contains x t)
contains-extend x s [] = ground arith
contains-extend x s (y ∷ t) =
    ground (arith, contains-extend x (insert y s) t, contains-insert x y s)

pub contains-remove :
    (x y : Bytes) (s : List Bytes)
    → contains x (remove y s) ≡ (contains x s && flip (same_bytes x y))
contains-remove x y s = contains-filter x (λ z. flip (same_bytes z y)) s

pub contains-subtract :
    (x : Bytes) (s t : List Bytes)
    → contains x (subtract s t) ≡ (contains x s && flip (contains x t))
contains-subtract x s [] = ground arith
contains-subtract x s (y ∷ t) =
    ground (arith, contains-subtract x (remove y s) t, contains-remove x y s)

pub contains-intersection :
    (x : Bytes) (s t : List Bytes) → contains x (intersection s t) ≡ (contains x s && contains x t)
contains-intersection x s t = contains-filter x (λ z. contains z t) s

-- A map whose keys are byte strings.
module _ {ℓ} {V : Type ℓ} where
  abbrev pub get : Bytes → List (Bytes × V) → Option V
  get k [] = none
  get k ((j, v) ∷ m) = let rest = get k m in if same_bytes k j then some v else rest

  abbrev pub set : Bytes → V → List (Bytes × V) → List (Bytes × V)
  set k v [] = (k, v) ∷ []
  set k v ((j, w) ∷ m) =
      let rest = set k v m in if same_bytes k j then (j, v) ∷ m else (j, w) ∷ rest

  abbrev pub unset : Bytes → List (Bytes × V) → List (Bytes × V)
  unset k [] = []
  unset k ((j, w) ∷ m) = let rest = unset k m in if same_bytes k j then rest else (j, w) ∷ rest

  pub get-set : (k : Bytes) (v : V) (m : List (Bytes × V)) → get k (set k v m) ≡ some v
  get-set k v [] = ground (arith, same_bytes_refl k)
  get-set k v ((j, w) ∷ m) = ground (arith, get-set k v m)

  -- The key `k` of a map is another one than `q`.
  pub get-set_ne :
      (q k : Bytes) (v : V) (m : List (Bytes × V))
      → same_bytes q k ≡ false
      → get q (set k v m) ≡ get q m
  get-set_ne q k v [] h = ground arith
  get-set_ne q k v ((j, w) ∷ m) h = elim (Bool-cases (same_bytes k j)) [
    | inl e ↦
        let e' : same_bytes q k ≡ same_bytes q j = ap (same_bytes q) (same_bytes-eq k j e) in
        ground arith
    | inr e ↦ ground (arith, get-set_ne q k v m h)
  ]

  pub get-unset : (k : Bytes) (m : List (Bytes × V)) → get k (unset k m) ≡ none
  get-unset k [] = refl
  get-unset k ((j, w) ∷ m) = ground (arith, get-unset k m)

  pub get-unset_ne :
      (q k : Bytes) (m : List (Bytes × V)) → same_bytes q k ≡ false → get q (unset k m) ≡ get q m
  get-unset_ne q k [] h = refl
  get-unset_ne q k ((j, w) ∷ m) h = elim (Bool-cases (same_bytes k j)) [
    | inl e ↦
        let e' : same_bytes q k ≡ same_bytes q j = ap (same_bytes q) (same_bytes-eq k j e) in
        ground (arith, get-unset_ne q k m h)
    | inr e ↦ ground (arith, get-unset_ne q k m h)
  ]
