-- ===== src/Tests/PlanCache.antt =====
-- The plan cache of proxy/src/cache.rs on a cache of one large entry.
use secure_fusion.Prelude.{
  ℕ, ◌+◌, ◌<◌, ◌≡◌, refl, Option, none, some, [], ◌∷◌, ◌==◌, ==_iff, if◌then◌else◌, inr, arith,
}
use secure_fusion.PlanCache.{
  CacheEntry, Cache, Library, query_cache_size, visit, visit_plan, find, remove, put, older, oldest,
  new_entry, free_space, insert, get, prepare_logical_or_get_cached,
}
use secure_fusion.PlanCache.Size.{new_entry-sum}
use secure_fusion.PlanCache.Eviction.{IsAccounted, free_space_total}
use secure_fusion.PlanCache.Newest.{get-insert}
use secure_fusion.PlanCache.Planner.{
  IsCoherent, prepare_logical_or_get_cached_sound, prepare_logical_or_get_cached_stale,
}

program : Unit {0}
unfolding visit visit_plan find remove put older oldest new_entry free_space insert get
    prepare_logical_or_get_cached
program = tt

-- Statements, plans and sessions are numbers; a plan is the sum of its session and its statement.
abbrev library : Library ℕ ℕ
library = record {
  same = λ a b. a == b;
  statement_nodes = λ s. s ∷ 10 ∷ [];
  plan_nodes = λ p. p ∷ 20 ∷ [];
}

abbrev plan_of : ℕ → ℕ → Option ℕ
plan_of session s = if s == 0 then none else some (session + s)

abbrev large : CacheEntry ℕ
large = record { plan = 101; last_used = 3; memory_size = 1048500 }

abbrev large_cache : Cache ℕ ℕ
large_cache = record { cache = (1, large) ∷ []; used_memory = 1048500 }

abbrev entry_102 : CacheEntry ℕ
entry_102 = record { plan = 102; last_used = 5; memory_size = 134 }

large_cache-IsAccounted : IsAccounted library.same large_cache
unfolding program
large_cache-IsAccounted = record { accounted = refl; distinct = (refl, tt) }

-- The planner makes 102 for the statement 2 in the session 100, and the older entry is evicted.
prepare_2 :
    prepare_logical_or_get_cached library plan_of 5 100 2 large_cache
    ≡ some (record { cache = (2, entry_102) ∷ []; used_memory = 134 }, some 102)
unfolding program
prepare_2 = refl

new_entry-sum_example : new_entry library 5 2 102 ≡ some entry_102
new_entry-sum_example = new_entry-sum library 5 2 102

free_space_total_example :
    (c' : Cache ℕ ℕ) × (free_space library 2 large_cache ≡ some c')
    × (c'.used_memory < query_cache_size)
    × IsAccounted library.same c'
free_space_total_example =
    free_space_total library ==_iff 2 large_cache (omega arith) large_cache-IsAccounted

get-insert_example :
    (c' : Cache ℕ ℕ) × (insert library 5 2 102 large_cache ≡ some c')
    × ((get library 6 2 c').1 ≡ some 102)
    × (c'.used_memory < query_cache_size)
    × IsAccounted library.same c'
unfolding program
get-insert_example =
    get-insert library ==_iff 5 6 2 102 entry_102 large_cache large_cache-IsAccounted refl
      (inr (omega arith), tt) refl

large_cache-IsCoherent : IsCoherent library ==_iff plan_of 100 large_cache
unfolding program
large_cache-IsCoherent s e h = ground (arith, ==_iff 1 s)

prepare_logical_or_get_cached_sound_example :
    (c' : Cache ℕ ℕ) × (prepare_logical_or_get_cached library plan_of 5 100 2 large_cache
      ≡ some (c', some 102))
    × IsAccounted library.same c'
    × IsCoherent library ==_iff plan_of 100 c'
prepare_logical_or_get_cached_sound_example =
    prepare_logical_or_get_cached_sound library ==_iff plan_of 5 100 2 large_cache
      large_cache-IsAccounted large_cache-IsCoherent

prepare_logical_or_get_cached_stale_example :
    (c' : Cache ℕ ℕ) × (c'' : Cache ℕ ℕ) × (prepare_logical_or_get_cached library plan_of 5 100 2
        large_cache
      ≡ some (c', some 102))
    × (prepare_logical_or_get_cached library plan_of 6 200 2 c' ≡ some (c'', some 102))
unfolding program
prepare_logical_or_get_cached_stale_example =
    prepare_logical_or_get_cached_stale library ==_iff plan_of 5 6 100 200 2 large_cache 102
      entry_102 large_cache-IsAccounted refl (inr (omega arith), tt) refl refl
