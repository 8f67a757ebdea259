-- ===== src/PlanCache/Entries.antt =====
-- The map of the cache: what is found after an insertion or a removal, and its total size.
use secure_fusion.Prelude.{
  ℕ, suc, ◌+◌, ◌≡◌, refl, ◌∙◌, Bool, true, false, Option, none, some, List, [], ◌∷◌, length, leb,
  ◌↔◌, inl, inr, Bool-cases, Option-cases, arith,
}
use secure_fusion.PlanCache.{CacheEntry, remove, find, put, older, oldest}

-- `==` decides equality.
abbrev pub IsEquality {ℓ} : {A : Type ℓ} → (A → A → Bool) → Type ℓ
IsEquality {A} same = (a b : A) → (same a b ≡ true) ↔ (a ≡ b)

module _ {ℓ} {A : Type ℓ} (same : A → A → Bool) (is_eq : IsEquality same) where
  pub same_self : (k : A) → same k k ≡ true
  same_self k = (is_eq k k).1 refl

  pub same_sym : (j k : A) → same j k ≡ false → same k j ≡ false
  same_sym j k h = elim (Bool-cases (same k j)) [
    | inl e ↦ cc ((is_eq k j).0 e, same_self k, h)
    | inr e ↦ e
  ]

module _ {ℓ} {Statement Plan : Type ℓ} where
  abbrev pub total_size : List (Statement × CacheEntry Plan) → ℕ
  total_size [] = 0
  total_size ((k, e) ∷ m) = e.memory_size + total_size m

  -- No key stands twice.
  abbrev pub Distinct : (Statement → Statement → Bool) → List (Statement × CacheEntry Plan) → Type ℓ
  Distinct same [] = Unit
  Distinct same ((k, e) ∷ m) = (find same k m ≡ none) × Distinct same m

  module _ (same : Statement → Statement → Bool) (is_eq : IsEquality same) where
    pub find-put :
        (k : Statement) (e : CacheEntry Plan) (m : List (Statement × CacheEntry Plan))
        → find same k (put same k e m) ≡ some e
    unfolding find put
    find-put k e [] = rw (same_self same is_eq k)
    find-put k e ((j, f) ∷ m) = ground (arith, find-put k e m)

    pub find-put_ne :
        (k q : Statement) (e : CacheEntry Plan) (m : List (Statement × CacheEntry Plan))
        → same k q ≡ false
        → find same q (put same k e m) ≡ find same q m
    unfolding find put
    find-put_ne k q e [] h = rw h
    find-put_ne k q e ((j, f) ∷ m) h = ground (arith, is_eq j k, find-put_ne k q e m h)

    pub total_size-put_new :
        (k : Statement) (e : CacheEntry Plan) (m : List (Statement × CacheEntry Plan))
        → find same k m ≡ none
        → total_size (put same k e m) ≡ total_size m + e.memory_size
    unfolding find put
    total_size-put_new k e [] h = omega arith
    total_size-put_new k e ((j, f) ∷ m) h = ground (arith, total_size-put_new k e m)

    pub total_size-put_same :
        (k : Statement) (e f : CacheEntry Plan) (m : List (Statement × CacheEntry Plan))
        → find same k m ≡ some e
        → f.memory_size ≡ e.memory_size
        → total_size (put same k f m) ≡ total_size m
    unfolding find put
    total_size-put_same k e f [] h s = cc
    total_size-put_same k e f ((j, g) ∷ m) h s = ground (arith, total_size-put_same k e f m)

    pub find-remove_ne :
        (k q : Statement) (m : List (Statement × CacheEntry Plan))
        → same k q ≡ false
        → find same q (remove same k m) ≡ find same q m
    unfolding find remove
    find-remove_ne k q [] h = refl
    find-remove_ne k q ((j, f) ∷ m) h = ground (arith, is_eq j k, find-remove_ne k q m h)

    pub length-remove :
        (k : Statement) (m : List (Statement × CacheEntry Plan)) (e : CacheEntry Plan)
        → find same k m ≡ some e
        → (suc (length (remove same k m)) ≡ length m)
          × (e.memory_size + total_size (remove same k m) ≡ total_size m)
    unfolding find remove
    length-remove k [] e h = cc
    length-remove k ((j, f) ∷ m) e h = ground (arith, length-remove k m e)

    pub Distinct-put :
        (k : Statement) (e : CacheEntry Plan) (m : List (Statement × CacheEntry Plan))
        → Distinct same m
        → Distinct same (put same k e m)
    unfolding put find
    Distinct-put k e [] d = (refl, tt)
    Distinct-put k e ((j, f) ∷ m) d = elim (Bool-cases (same j k)) [
      | inl here ↦ rw here d
      | inr there ↦
          rw there
            (find-put_ne k j e m (same_sym same is_eq j k there) ∙ d.0, Distinct-put k e m d.1)
    ]

    pub Distinct-remove :
        (k : Statement) (m : List (Statement × CacheEntry Plan))
        → Distinct same m
        → Distinct same (remove same k m)
    unfolding remove find
    Distinct-remove k [] d = d
    Distinct-remove k ((j, f) ∷ m) d = elim (Bool-cases (same j k)) [
      | inl here ↦ rw here d.1
      | inr there ↦
          rw there
            (find-remove_ne k j m (same_sym same is_eq j k there) ∙ d.0, Distinct-remove k m d.1)
    ]

    oldest-find-later :
        (j k : Statement) (f e : CacheEntry Plan) (m : List (Statement × CacheEntry Plan))
        → Distinct same ((j, f) ∷ m)
        → find same k m ≡ some e
        → find same k ((j, f) ∷ m) ≡ some e
    unfolding find
    oldest-find-later j k f e m d h = elim (Bool-cases (same j k)) [
      | inl here ↦ cc ((is_eq j k).0 here, d.0, h)
      | inr there ↦ rw there h
    ]

    oldest-find-here :
        (j k : Statement) (f e : CacheEntry Plan) (m : List (Statement × CacheEntry Plan))
        → ◌≡◌ {A = Option (Statement × CacheEntry Plan)} (some (j, f)) (some (k, e))
        → find same k ((j, f) ∷ m) ≡ some e
    unfolding find
    oldest-find-here j k f e m h = ground (arith, is_eq j k)

    -- The entry that is evicted is the one that its key stands for.
    pub oldest-find :
        (m : List (Statement × CacheEntry Plan)) (k : Statement) (e : CacheEntry Plan)
        → Distinct same m
        → oldest m ≡ some (k, e)
        → find same k m ≡ some e
    unfolding oldest older
    oldest-find [] k e d h = cc
    oldest-find ((j, f) ∷ m) k e d h = elim (Option-cases (oldest m)) [
      | inl alone ↦ oldest-find-here j k f e m (ground arith)
      | inr ((q, g), next) ↦ elim (Bool-cases (leb f.last_used g.last_used)) [
        | inl first ↦ oldest-find-here j k f e m (ground arith)
        | inr later ↦ oldest-find-later j k f e m d (oldest-find m k e d.1 (ground arith))
      ]
    ]
