-- ===== src/PlanCache.antt =====
-- The cache of logical plans of a session: proxy/src/cache.rs. The statements and plans are sqlparser's
-- and DataFusion's, and stay abstract.
use secure_fusion.Prelude.{
  ℕ, zero, suc, ◌+◌, ◌-◌, ◌*◌, Bool, true, false, Option, none, some, List, [], ◌∷◌, ltb, leb,
  length, if◌then◌else◌,
}
pub mod Size
pub mod Entries
pub mod Eviction
pub mod Newest
pub mod Planner

pub record CacheEntry {ℓ} (Plan : Type ℓ) : Type ℓ where
  pub plan : Plan
  pub last_used : ℕ
  pub memory_size : ℕ

-- The map, in the order in which it is iterated.
pub record Cache {ℓ} (Statement Plan : Type ℓ) : Type ℓ where
  pub cache : List (Statement × CacheEntry Plan)
  pub used_memory : ℕ

abbrev pub max_cacheable_statement_size : ℕ
max_cacheable_statement_size = 16 * 1024

abbrev pub query_cache_size : ℕ
query_cache_size = 1048576

-- The visitor of a statement: the sizes of the nodes that it meets, added up to the first large one.
unfoldable pub visit : ℕ → List ℕ → ℕ
visit total [] = total
visit total (size ∷ sizes) =
    let rest = visit (total + size) sizes in
    if leb max_cacheable_statement_size size then total + size else rest

-- The walk over a plan, which stops at the first large total.
unfoldable pub visit_plan : ℕ → List ℕ → ℕ
visit_plan total [] = total
visit_plan total (size ∷ sizes) =
    let rest = visit_plan (total + size) sizes in
    if leb max_cacheable_statement_size (total + size) then total + size else rest

-- What the cache takes from sqlparser and DataFusion: `==` of statements, and the sizes of the nodes
-- that a visit of a statement or a plan meets.
pub record Library {ℓ} (Statement Plan : Type ℓ) : Type ℓ where
  pub same : Statement → Statement → Bool
  pub statement_nodes : Statement → List ℕ
  pub plan_nodes : Plan → List ℕ

module _ {ℓ} {Statement Plan : Type ℓ} where
  -- `HashMap::remove` of a key.
  unfoldable pub remove :
      (Statement → Statement → Bool)
      → Statement
      → List (Statement × CacheEntry Plan)
      → List (Statement × CacheEntry Plan)
  remove same k [] = []
  remove same k ((j, e) ∷ m) = if same j k then m else (j, e) ∷ remove same k m

  -- `HashMap::get`.
  unfoldable pub find :
      (Statement → Statement → Bool)
      → Statement
      → List (Statement × CacheEntry Plan)
      → Option (CacheEntry Plan)
  find same k [] = none
  find same k ((j, e) ∷ m) = if same j k then some e else find same k m

  -- `HashMap::insert`: an entry with the key is replaced.
  unfoldable pub put :
      (Statement → Statement → Bool)
      → Statement
      → CacheEntry Plan
      → List (Statement × CacheEntry Plan)
      → List (Statement × CacheEntry Plan)
  put same k e [] = (k, e) ∷ []
  put same k e ((j, f) ∷ m) = if same j k then (j, e) ∷ m else (j, f) ∷ put same k e m

  -- `iter().min_by_key(|(_, val)| val.last_used)`: the first of the least recently used entries.
  unfoldable pub older :
      Statement × CacheEntry Plan
      → Option (Statement × CacheEntry Plan)
      → Option (Statement × CacheEntry Plan)
  older p none = some p
  older p (some q) = if leb p.1.last_used q.1.last_used then some p else some q

  unfoldable pub oldest : List (Statement × CacheEntry Plan) → Option (Statement × CacheEntry Plan)
  oldest [] = none
  oldest (p ∷ m) = older p (oldest m)

  module _ (lib : Library Statement Plan) where
    -- `CacheEntry::new`.
    unfoldable pub new_entry : ℕ → Statement → Plan → Option (CacheEntry Plan)
    new_entry now statement plan =
        let memory_size =
          visit_plan (visit 0 (lib.statement_nodes statement)) (lib.plan_nodes plan) in
        if leb max_cacheable_statement_size memory_size
        then none
        else some (record { plan = plan; last_used = now; memory_size = memory_size })

    -- `Cache::free_space`, on fuel. `checked_sub(..).unwrap_or_default()` is the subtraction that
    -- stops at 0.
    unfoldable pub free_space : ℕ → Cache Statement Plan → Option (Cache Statement Plan)
    free_space zero c = none
    free_space (suc fuel) c =
        let evict : Option (Cache Statement Plan) = elim (oldest c.cache) [
          | none ↦ some (record c { used_memory = 0 })
          | some (to_evict, entry) ↦ free_space fuel (record {
            cache = remove lib.same to_evict c.cache;
            used_memory = c.used_memory - entry.memory_size;
          })
        ] in
        if leb query_cache_size c.used_memory then evict else some c

    -- The map and the counter of `Cache::insert`, before the clean-up.
    abbrev pub with_entry :
        Statement → CacheEntry Plan → Cache Statement Plan → Cache Statement Plan
    with_entry statement entry c = record {
      cache = put lib.same statement entry c.cache;
      used_memory = c.used_memory + entry.memory_size;
    }

    -- `Cache::insert`. `none` means that the fuel of the clean-up, one more than the entries, ran out.
    unfoldable pub insert :
        ℕ → Statement → Plan → Cache Statement Plan → Option (Cache Statement Plan)
    insert now statement plan c = elim (new_entry now statement plan) [
      | none ↦ some c
      | some entry ↦
          free_space (suc (length (put lib.same statement entry c.cache)))
            (with_entry statement entry c)
    ]

    -- `Cache::get`: a hit becomes the most recently used entry.
    unfoldable pub get : ℕ → Statement → Cache Statement Plan → Cache Statement Plan × Option Plan
    get now statement c = elim (find lib.same statement c.cache) [
      | none ↦ (c, none)
      | some entry ↦ (
        record c { cache = put lib.same statement (record entry { last_used = now }) c.cache },
        some entry.plan,
      )
    ]

    module _ {Session : Type ℓ} (plan_statement : Session → Statement → Option Plan) where
      -- `prepare_logical_or_get_cached`. `plan_statement` is the planner and the optimizer: `none` is
      -- an error, which leaves the cache as it is.
      unfoldable pub prepare_logical_or_get_cached :
          ℕ
          → Session
          → Statement
          → Cache Statement Plan
          → Option (Cache Statement Plan × Option Plan)
      prepare_logical_or_get_cached now session statement c =
          let (c', found) = get now statement c in
          elim found [
            | some plan ↦ some (c', some plan)
            | none ↦ elim (plan_statement session statement) [
              | none ↦ some (c', none)
              | some plan ↦ elim (insert now statement plan c') [
                | none ↦ none
                | some c'' ↦ some (c'', some plan)
              ]
            ]
          ]
