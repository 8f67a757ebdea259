-- ===== src/PlanCache/Newest.antt =====
-- A plan that has just been cached is found: the clean-up evicts older entries first.
use secure_fusion.Prelude.{
  ℕ, zero, suc, ◌<◌, ◌≡◌, ◌⊎◌, refl, sym, ap, subst, ◌∙◌, Bool, true, false, none, some, List, [],
  ◌∷◌, length, leb, leb→le, inl, inr, Bool-cases, arith,
}
use secure_fusion.PlanCache.{
  CacheEntry, Cache, Library, query_cache_size, remove, find, put, oldest, new_entry, free_space,
  with_entry, insert, get,
}
use secure_fusion.PlanCache.Entries.{
  IsEquality, total_size, Distinct, same_self, find-put, total_size-put_new, find-remove_ne,
  Distinct-put, oldest-find,
}
use secure_fusion.PlanCache.Eviction.{
  IsAccounted, AllSince, oldest-AllSince, evicted, evicted-IsAccounted, free_space-zero,
  free_space-small, free_space-evict, free_space_total, oldest-some,
}

module _ {ℓ} {Statement Plan : Type ℓ} (same : Statement → Statement → Bool) (k : Statement) where
  -- Every entry but that of the key was last used before the time.
  abbrev pub OthersBefore : ℕ → List (Statement × CacheEntry Plan) → Type 0
  OthersBefore time [] = Unit
  OthersBefore time ((j, e) ∷ m) = ((same j k ≡ true) ⊎ (e.last_used < time)) × OthersBefore time m

  abbrev OnlyKey : List (Statement × CacheEntry Plan) → Type 0
  OnlyKey [] = Unit
  OnlyKey ((j, e) ∷ m) = (same j k ≡ true) × OnlyKey m

  OnlyKey-of_oldest :
      (t : ℕ) (m : List (Statement × CacheEntry Plan)) → AllSince t m → OthersBefore t m → OnlyKey m
  OnlyKey-of_oldest t [] a o = tt
  OnlyKey-of_oldest t ((j, e) ∷ m) a o = elim o.0 [
    | inl here ↦ (here, OnlyKey-of_oldest t m a.1 o.1)
    | inr before ↦ absurd (omega arith)
  ]

  OnlyKey-none :
      (m : List (Statement × CacheEntry Plan)) → OnlyKey m → find same k m ≡ none → m ≡ []
  unfolding find
  OnlyKey-none [] o h = refl
  OnlyKey-none ((j, e) ∷ m) o h = ground arith

  OthersBefore-remove :
      (t : ℕ) (q : Statement) (m : List (Statement × CacheEntry Plan))
      → OthersBefore t m
      → OthersBefore t (remove same q m)
  unfolding remove
  OthersBefore-remove t q [] o = o
  OthersBefore-remove t q ((j, e) ∷ m) o = elim (Bool-cases (same j q)) [
    | inl here ↦ rw here o.1
    | inr there ↦ rw there (o.0, OthersBefore-remove t q m o.1)
  ]

  module _ (is_eq : IsEquality same) where
    OnlyKey-total_size :
        (m : List (Statement × CacheEntry Plan)) (e : CacheEntry Plan)
        → OnlyKey m
        → Distinct same m
        → find same k m ≡ some e
        → total_size m ≡ e.memory_size
    unfolding find
    OnlyKey-total_size [] e o d h = cc
    OnlyKey-total_size ((j, f) ∷ m) e o d h =
        let alone : m ≡ [] =
          OnlyKey-none m o.1 (subst (λ i. find same i m ≡ none) ((is_eq j k).0 o.0) d.0) in
        let it : f ≡ e = ground arith in
        omega (arith, ap total_size alone, ap (λ (x : CacheEntry Plan). x.memory_size) it)

    -- Above the limit the entry to evict is another one.
    oldest-other :
        (m : List (Statement × CacheEntry Plan)) (e g : CacheEntry Plan) (q : Statement)
        → Distinct same m
        → find same k m ≡ some e
        → OthersBefore e.last_used m
        → e.memory_size < total_size m
        → oldest m ≡ some (q, g)
        → same q k ≡ false
    oldest-other m e g q d h o large found = elim (Bool-cases (same q k)) [
      | inr other ↦ other
      | inl here ↦
          let q_is : q ≡ k = (is_eq q k).0 here in
          let g_is : g ≡ e = cc (oldest-find same is_eq m q g d found, h, q_is) in
          let since : AllSince e.last_used m =
            subst (λ x. AllSince x.last_used m) g_is (oldest-AllSince m q g found) in
          let size : total_size m ≡ e.memory_size =
            OnlyKey-total_size m e (OnlyKey-of_oldest e.last_used m since o) d h in
          absurd (omega arith)
    ]

module _ {ℓ} {Statement Plan : Type ℓ} (lib : Library Statement Plan)
    (is_eq : IsEquality lib.same) where
  free_space_keeps :
      (fuel : ℕ) (c c' : Cache Statement Plan) (k : Statement) (e : CacheEntry Plan)
      → IsAccounted lib.same c
      → find lib.same k c.cache ≡ some e
      → OthersBefore lib.same k e.last_used c.cache
      → e.memory_size < query_cache_size
      → free_space lib fuel c ≡ some c'
      → find lib.same k c'.cache ≡ some e
  free_space_keeps zero c c' k e a h o s r = cc (free_space-zero lib is_eq c, r)
  free_space_keeps (suc fuel) c c' k e a h o s r =
      elim (Bool-cases (leb query_cache_size c.used_memory)) [
        | inr small ↦
            let same_cache : c ≡ c' = ground (arith, free_space-small lib is_eq fuel c small) in
            subst (λ x. find lib.same k x.cache ≡ some e) same_cache h
        | inl large ↦
            let (q, g, found) = oldest-some lib is_eq c a large in
            let size : e.memory_size < total_size c.cache =
              omega (arith, a.accounted, leb→le _ _ large) in
            let other : lib.same q k ≡ false =
              oldest-other lib.same k is_eq c.cache e g q a.distinct h o size found in
            free_space_keeps fuel (evicted lib c q g) c' k e
              (evicted-IsAccounted lib is_eq c q g a found)
              (find-remove_ne lib.same is_eq q k c.cache other ∙ h)
              (OthersBefore-remove lib.same k e.last_used q c.cache o) s
              (sym (free_space-evict lib is_eq fuel c q g large found) ∙ r)
      ]

  OthersBefore-put :
      (k : Statement) (e : CacheEntry Plan) (m : List (Statement × CacheEntry Plan))
      → OthersBefore lib.same k e.last_used m
      → OthersBefore lib.same k e.last_used (put lib.same k e m)
  unfolding put
  OthersBefore-put k e [] o = (inl (same_self lib.same is_eq k), tt)
  OthersBefore-put k e ((j, f) ∷ m) o = elim (Bool-cases (lib.same j k)) [
    | inl here ↦ rw here (inl here, o.1)
    | inr there ↦ rw there (o.0, OthersBefore-put k e m o.1)
  ]

  pub new_entry-fields :
      (now : ℕ) (s : Statement) (p : Plan) (e : CacheEntry Plan)
      → new_entry lib now s p ≡ some e
      → (e.plan ≡ p) × (e.last_used ≡ now) × (e.memory_size < query_cache_size)
  unfolding new_entry
  new_entry-fields now s p e h = ground arith

  pub with_entry-IsAccounted :
      (s : Statement) (e : CacheEntry Plan) (c : Cache Statement Plan)
      → IsAccounted lib.same c
      → find lib.same s c.cache ≡ none
      → IsAccounted lib.same (with_entry lib s e c)
  with_entry-IsAccounted s e c a absent = record {
    accounted = omega (arith, a.accounted, total_size-put_new lib.same is_eq s e c.cache absent);
    distinct = Distinct-put lib.same is_eq s e c.cache a.distinct;
  }

  pub insert-new :
      (now : ℕ) (s : Statement) (p : Plan) (e : CacheEntry Plan) (c : Cache Statement Plan)
      → new_entry lib now s p ≡ some e
      → insert lib now s p c
        ≡ free_space lib (suc (length (put lib.same s e c.cache))) (with_entry lib s e c)
  unfolding insert
  insert-new now s p e c h = rw (h, insert) refl

  pub get-found :
      (later : ℕ) (s : Statement) (e : CacheEntry Plan) (c : Cache Statement Plan)
      → find lib.same s c.cache ≡ some e
      → (get lib later s c).1 ≡ some e.plan
  unfolding get
  get-found later s e c h = rw (h, get) refl

  pub find-insert :
      (now : ℕ) (s : Statement) (p : Plan) (e : CacheEntry Plan) (c : Cache Statement Plan)
      → IsAccounted lib.same c
      → find lib.same s c.cache ≡ none
      → OthersBefore lib.same s now c.cache
      → new_entry lib now s p ≡ some e
      → (c' : Cache Statement Plan) × (insert lib now s p c ≡ some c')
        × (find lib.same s c'.cache ≡ some e)
        × (c'.used_memory < query_cache_size)
        × IsAccounted lib.same c'
  find-insert now s p e c a absent o new =
      let (plan_is, time_is, small) = new_entry-fields now s p e new in
      let a' : IsAccounted lib.same (with_entry lib s e c) =
        with_entry-IsAccounted s e c a absent in
      let (c', done, below, accounts) =
        free_space_total lib is_eq (suc (length (put lib.same s e c.cache))) (with_entry lib s e c)
          (omega arith) a' in
      let kept : find lib.same s c'.cache ≡ some e =
        free_space_keeps _ (with_entry lib s e c) c' s e a' (find-put lib.same is_eq s e c.cache)
          (OthersBefore-put s e c.cache
            (subst (λ t. OthersBefore lib.same s t c.cache) (sym time_is) o))
          small done in
      (c', insert-new now s p e c new ∙ done, kept, below, accounts)

  -- A plan of a cacheable size that is inserted under a new statement is found by the next `get`, the
  -- clean-up ends below the limit of the cache, and the counter is the total size of the entries. The
  -- other entries were last used before, and the accounts are right.
  pub get-insert :
      (now later : ℕ) (s : Statement) (p : Plan) (e : CacheEntry Plan) (c : Cache Statement Plan)
      → IsAccounted lib.same c
      → find lib.same s c.cache ≡ none
      → OthersBefore lib.same s now c.cache
      → new_entry lib now s p ≡ some e
      → (c' : Cache Statement Plan) × (insert lib now s p c ≡ some c')
        × ((get lib later s c').1 ≡ some p)
        × (c'.used_memory < query_cache_size)
        × IsAccounted lib.same c'
  get-insert now later s p e c a absent o new =
      let (plan_is, time_is, small) = new_entry-fields now s p e new in
      let (c', done, kept, below, accounts) = find-insert now s p e c a absent o new in
      (c', done, get-found later s e c' kept ∙ ap some plan_is, below, accounts)
