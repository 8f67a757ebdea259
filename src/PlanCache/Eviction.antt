-- ===== src/PlanCache/Eviction.antt =====
-- The clean-up of the cache ends, keeps the accounts, and evicts the least recently used entries.
use secure_fusion.Prelude.{
  ℕ, zero, suc, ◌+◌, ◌-◌, ◌≤◌, ◌<◌, ◌≡◌, refl, sym, ap, subst, ◌∙◌, Bool, true, false, none, some,
  List, [], ◌∷◌, length, leb, leb→le, inl, inr, Bool-cases, Option-cases, arith,
}
use secure_fusion.PlanCache.{
  CacheEntry, Cache, Library, query_cache_size, remove, older, oldest, free_space,
}
use secure_fusion.PlanCache.Entries.{
  IsEquality, total_size, Distinct, length-remove, Distinct-remove, oldest-find,
}

module _ {ℓ} {Statement Plan : Type ℓ} where
  -- The counter is the total size of the entries, whose keys are distinct.
  pub record IsAccounted (same : Statement → Statement → Bool) (c : Cache Statement Plan)
      : Type ℓ where
    pub accounted : c.used_memory ≡ total_size c.cache
    pub distinct : Distinct same c.cache

  -- No entry of the map was used before the time.
  abbrev pub AllSince : ℕ → List (Statement × CacheEntry Plan) → Type 0
  AllSince time [] = Unit
  AllSince time ((k, e) ∷ m) = (time ≤ e.last_used) × AllSince time m

  AllSince-mono :
      (s t : ℕ) (m : List (Statement × CacheEntry Plan)) → s ≤ t → AllSince t m → AllSince s m
  AllSince-mono s t [] h a = tt
  AllSince-mono s t ((k, e) ∷ m) h a = (omega arith, AllSince-mono s t m h a.1)

  oldest-none : (m : List (Statement × CacheEntry Plan)) → oldest m ≡ none → m ≡ []
  unfolding oldest older
  oldest-none [] h = refl
  oldest-none (p ∷ m) h = ground arith

  -- The entry that is evicted is a least recently used one.
  pub oldest-AllSince :
      (m : List (Statement × CacheEntry Plan)) (k : Statement) (e : CacheEntry Plan)
      → oldest m ≡ some (k, e)
      → AllSince e.last_used m
  unfolding oldest older
  oldest-AllSince [] k e h = cc
  oldest-AllSince ((j, f) ∷ m) k e h = elim (Option-cases (oldest m)) [
    | inl alone ↦
        let only : f.last_used ≡ e.last_used = ground arith in
        (omega arith, subst (AllSince e.last_used) (sym (oldest-none m alone)) tt)
    | inr ((q, g), next) ↦ elim (Bool-cases (leb f.last_used g.last_used)) [
      | inl first ↦
          let same_time : f.last_used ≡ e.last_used = ground arith in
          let before : e.last_used ≤ g.last_used = ground arith in
          (omega arith, AllSince-mono e.last_used g.last_used m before (oldest-AllSince m q g next))
      | inr later ↦
          let found : oldest m ≡ some (k, e) = ground arith in
          let before : e.last_used ≤ f.last_used = ground arith in
          (before, oldest-AllSince m k e found)
    ]
  ]

  -- The cache without an entry.
  abbrev pub evicted :
      Library Statement Plan
      → Cache Statement Plan
      → Statement
      → CacheEntry Plan
      → Cache Statement Plan
  evicted lib c k e = record {
    cache = remove lib.same k c.cache;
    used_memory = c.used_memory - e.memory_size;
  }

  module _ (lib : Library Statement Plan) (is_eq : IsEquality lib.same) where
    oldest-length-remove :
        (c : Cache Statement Plan) (k : Statement) (e : CacheEntry Plan)
        → IsAccounted lib.same c
        → oldest c.cache ≡ some (k, e)
        → (suc (length (remove lib.same k c.cache)) ≡ length c.cache)
          × (e.memory_size + total_size (remove lib.same k c.cache) ≡ total_size c.cache)
    oldest-length-remove c k e a h =
        length-remove lib.same is_eq k c.cache e
          (oldest-find lib.same is_eq c.cache k e a.distinct h)

    pub evicted-IsAccounted :
        (c : Cache Statement Plan) (k : Statement) (e : CacheEntry Plan)
        → IsAccounted lib.same c
        → oldest c.cache ≡ some (k, e)
        → IsAccounted lib.same (evicted lib c k e)
    evicted-IsAccounted c k e a h = record {
      accounted = omega (arith, a.accounted, (oldest-length-remove c k e a h).1);
      distinct = Distinct-remove lib.same is_eq k c.cache a.distinct;
    }

    pub evicted-shorter :
        (c : Cache Statement Plan) (k : Statement) (e : CacheEntry Plan) (fuel : ℕ)
        → IsAccounted lib.same c
        → oldest c.cache ≡ some (k, e)
        → length c.cache < suc fuel
        → length (evicted lib c k e).cache < fuel
    evicted-shorter c k e fuel a h l = omega (arith, (oldest-length-remove c k e a h).0)

    pub free_space-zero : (c : Cache Statement Plan) → free_space lib zero c ≡ none
    unfolding free_space
    free_space-zero c = refl

    pub free_space-small :
        (fuel : ℕ) (c : Cache Statement Plan)
        → leb query_cache_size c.used_memory ≡ false
        → free_space lib (suc fuel) c ≡ some c
    unfolding free_space
    free_space-small fuel c h = rw h

    pub free_space-evict :
        (fuel : ℕ) (c : Cache Statement Plan) (k : Statement) (e : CacheEntry Plan)
        → leb query_cache_size c.used_memory ≡ true
        → oldest c.cache ≡ some (k, e)
        → free_space lib (suc fuel) c ≡ free_space lib fuel (evicted lib c k e)
    unfolding free_space
    free_space-evict fuel c k e h found = rw h (rw (found, free_space) refl)

    -- Over the limit an accounted cache has an entry to evict.
    pub oldest-some :
        (c : Cache Statement Plan)
        → IsAccounted lib.same c
        → leb query_cache_size c.used_memory ≡ true
        → (k : Statement) × (e : CacheEntry Plan) × (oldest c.cache ≡ some (k, e))
    oldest-some c a large = elim (Option-cases (oldest c.cache)) [
      | inl empty ↦
          let nothing : total_size c.cache ≡ 0 = ap total_size (oldest-none c.cache empty) in
          absurd (omega (arith, a.accounted, leb→le _ _ large))
      | inr ((k, e), found) ↦ (k, e, found)
    ]

    -- With more fuel than entries the clean-up of a cache whose accounts are right ends below the
    -- limit, and keeps the accounts right.
    pub free_space_total :
        (fuel : ℕ) (c : Cache Statement Plan)
        → length c.cache < fuel
        → IsAccounted lib.same c
        → (c' : Cache Statement Plan) × (free_space lib fuel c ≡ some c')
          × (c'.used_memory < query_cache_size)
          × IsAccounted lib.same c'
    free_space_total zero c h a = absurd (omega arith)
    free_space_total (suc fuel) c h a = elim (Bool-cases (leb query_cache_size c.used_memory)) [
      | inr small ↦ (c, free_space-small fuel c small, ground arith, a)
      | inl large ↦
          let (k, e, found) = oldest-some c a large in
          let (c', e', rest, accounts) =
            free_space_total fuel (evicted lib c k e) (evicted-shorter c k e fuel a found h)
              (evicted-IsAccounted c k e a found) in
          (c', free_space-evict fuel c k e large found ∙ e', rest, accounts)
    ]
