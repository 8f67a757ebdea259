-- ===== src/PlanCache/Planner.antt =====
-- The planner over the cache: what `prepare_logical_or_get_cached` answers.
use secure_fusion.Prelude.{
  ℕ, suc, zero, ◌≡◌, refl, sym, ap, subst, ◌∙◌, Option, none, some, List, [], ◌∷◌, length, leb, inl,
  inr, Bool-cases, Option-cases, arith,
}
use secure_fusion.PlanCache.{
  CacheEntry, Cache, Library, query_cache_size, remove, find, put, new_entry, free_space,
  with_entry, insert, get, prepare_logical_or_get_cached,
}
use secure_fusion.PlanCache.Entries.{
  IsEquality, Distinct, find-put, find-put_ne, total_size-put_same, Distinct-put,
}
use secure_fusion.PlanCache.Eviction.{
  IsAccounted, evicted, evicted-IsAccounted, free_space_total, free_space-zero, free_space-small,
  free_space-evict, oldest-some,
}
use secure_fusion.PlanCache.Newest.{
  OthersBefore, new_entry-fields, with_entry-IsAccounted, insert-new, find-insert,
}

module _ {ℓ} {Statement Plan Session : Type ℓ} (lib : Library Statement Plan)
    (is_eq : IsEquality lib.same) (plan_statement : Session → Statement → Option Plan) where
  -- Each cached plan is the one that the planner makes in the session.
  abbrev pub IsCoherent : Session → Cache Statement Plan → Type ℓ
  IsCoherent session c =
      (s : Statement) (e : CacheEntry Plan)
      → find lib.same s c.cache ≡ some e
      → plan_statement session s ≡ some e.plan

  find_of_find-remove :
      (k q : Statement) (e : CacheEntry Plan) (m : List (Statement × CacheEntry Plan))
      → Distinct lib.same m
      → find lib.same q (remove lib.same k m) ≡ some e
      → find lib.same q m ≡ some e
  unfolding find remove
  find_of_find-remove k q e [] d h = h
  find_of_find-remove k q e ((j, f) ∷ m) d h =
      ground (arith, is_eq j q, find_of_find-remove k q e m d.1)

  free_space-IsCoherent :
      (session : Session) (fuel : ℕ) (c c' : Cache Statement Plan)
      → IsAccounted lib.same c
      → IsCoherent session c
      → free_space lib fuel c ≡ some c'
      → IsCoherent session c'
  free_space-IsCoherent session zero c c' a coherent r = cc (free_space-zero lib is_eq c, r)
  free_space-IsCoherent session (suc fuel) c c' a coherent r =
      elim (Bool-cases (leb query_cache_size c.used_memory)) [
        | inr small ↦
            let unchanged : c ≡ c' = ground (arith, free_space-small lib is_eq fuel c small) in
            subst (IsCoherent session) unchanged coherent
        | inl large ↦
            let (q, g, found) = oldest-some lib is_eq c a large in
            free_space-IsCoherent session fuel (evicted lib c q g) c'
              (evicted-IsAccounted lib is_eq c q g a found)
              (λ s e h. coherent s e (find_of_find-remove q s e c.cache a.distinct h))
              (sym (free_space-evict lib is_eq fuel c q g large found) ∙ r)
      ]

  put-IsCoherent :
      (session : Session) (k : Statement) (e : CacheEntry Plan)
      (m : List (Statement × CacheEntry Plan))
      → plan_statement session k ≡ some e.plan
      → ((s : Statement) (f : CacheEntry Plan)
          → find lib.same s m ≡ some f
          → plan_statement session s ≡ some f.plan)
      → (s : Statement) (f : CacheEntry Plan) → find lib.same s (put lib.same k e m) ≡ some f
      → plan_statement session s ≡ some f.plan
  put-IsCoherent session k e m planned coherent s f h = elim (Bool-cases (lib.same k s)) [
    | inl here ↦
        let k_is : k ≡ s = (is_eq k s).0 here in
        let f_is : e ≡ f = ground (arith, find-put lib.same is_eq k e m) in
        cc (planned, k_is, ap (λ (x : CacheEntry Plan). x.plan) f_is)
    | inr there ↦ coherent s f (sym (find-put_ne lib.same is_eq k s e m there) ∙ h)
  ]

  abbrev touched : ℕ → Statement → CacheEntry Plan → Cache Statement Plan → Cache Statement Plan
  touched now s e c = record c { cache = put lib.same s (record e { last_used = now }) c.cache }

  touched-IsAccounted :
      (now : ℕ) (s : Statement) (e : CacheEntry Plan) (c : Cache Statement Plan)
      → IsAccounted lib.same c
      → find lib.same s c.cache ≡ some e
      → IsAccounted lib.same (touched now s e c)
  touched-IsAccounted now s e c a h = record {
    accounted =
        a.accounted
        ∙ sym
            (total_size-put_same lib.same is_eq s e (record e { last_used = now }) c.cache h refl);
    distinct = Distinct-put lib.same is_eq s (record e { last_used = now }) c.cache a.distinct;
  }

  get-hit :
      (now : ℕ) (s : Statement) (c : Cache Statement Plan) (e : CacheEntry Plan)
      → find lib.same s c.cache ≡ some e
      → get lib now s c ≡ (touched now s e c, some e.plan)
  unfolding get
  get-hit now s c e h = rw (h, get) refl

  get-miss :
      (now : ℕ) (s : Statement) (c : Cache Statement Plan)
      → find lib.same s c.cache ≡ none
      → get lib now s c ≡ (c, none)
  unfolding get
  get-miss now s c h = rw (h, get) refl

  module _ (now : ℕ) (session : Session) (s : Statement) (c : Cache Statement Plan) where
    prepare-hit :
        (e : CacheEntry Plan)
        → find lib.same s c.cache ≡ some e
        → prepare_logical_or_get_cached lib plan_statement now session s c
          ≡ some (touched now s e c, some e.plan)
    unfolding prepare_logical_or_get_cached
    prepare-hit e h = ground (arith, get-hit now s c e h)

    prepare-error :
        find lib.same s c.cache ≡ none
        → plan_statement session s ≡ none
        → prepare_logical_or_get_cached lib plan_statement now session s c ≡ some (c, none)
    unfolding prepare_logical_or_get_cached
    prepare-error miss failed = ground (arith, get-miss now s c miss)

    prepare-insert :
        (p : Plan) (c' : Cache Statement Plan)
        → find lib.same s c.cache ≡ none
        → plan_statement session s ≡ some p
        → insert lib now s p c ≡ some c'
        → prepare_logical_or_get_cached lib plan_statement now session s c ≡ some (c', some p)
    unfolding prepare_logical_or_get_cached
    prepare-insert p c' miss planned inserted = ground (arith, get-miss now s c miss)

    insert-uncacheable : (p : Plan) → new_entry lib now s p ≡ none → insert lib now s p c ≡ some c
    unfolding insert
    insert-uncacheable p h = rw (h, insert) refl

    insert_total :
        (p : Plan)
        → IsAccounted lib.same c
        → IsCoherent session c
        → find lib.same s c.cache ≡ none
        → plan_statement session s ≡ some p
        → (c' : Cache Statement Plan) × (insert lib now s p c ≡ some c')
          × IsAccounted lib.same c'
          × IsCoherent session c'
    insert_total p a coherent miss planned = elim (Option-cases (new_entry lib now s p)) [
      | inl large ↦ (c, insert-uncacheable p large, a, coherent)
      | inr (e, new) ↦
          let a' : IsAccounted lib.same (with_entry lib s e c) =
            with_entry-IsAccounted lib is_eq s e c a miss in
          let (c', done, below, accounts) =
            free_space_total lib is_eq (suc (length (put lib.same s e c.cache)))
              (with_entry lib s e c) (omega arith) a' in
          (
            c',
            insert-new lib is_eq now s p e c new ∙ done,
            accounts,
            free_space-IsCoherent session _ (with_entry lib s e c) c' a'
                (put-IsCoherent session s e c.cache
                  (planned ∙ ap some (sym (new_entry-fields lib is_eq now s p e new).0)) coherent)
                done,
          )
    ]

    -- A statement is answered as the planner answers it in the session, whatever is cached, if the
    -- cached plans are those of the session and the accounts are right; and both stay so.
    pub prepare_logical_or_get_cached_sound :
        IsAccounted lib.same c
        → IsCoherent session c
        → (c' : Cache Statement Plan) × (prepare_logical_or_get_cached lib plan_statement now
              session s c
            ≡ some (c', plan_statement session s))
          × IsAccounted lib.same c'
          × IsCoherent session c'
    prepare_logical_or_get_cached_sound a coherent = elim (Option-cases (find lib.same s c.cache)) [
      | inr (e, hit) ↦ (
        touched now s e c,
        prepare-hit e hit ∙ ap (λ x. some (touched now s e c, x)) (sym (coherent s e hit)),
        touched-IsAccounted now s e c a hit,
        put-IsCoherent session s (record e { last_used = now }) c.cache (coherent s e hit) coherent,
      )
      | inl miss ↦ elim (Option-cases (plan_statement session s)) [
        | inl failed ↦
            (c, prepare-error miss failed ∙ ap (λ x. some (c, x)) (sym failed), a, coherent)
        | inr (p, planned) ↦
            let (c', inserted, accounts, coherent') = insert_total p a coherent miss planned in
            (
              c',
              prepare-insert p c' miss planned inserted ∙ ap (λ x. some (c', x)) (sym planned),
              accounts,
              coherent',
            )
      ]
    ]

  -- A plan of a cacheable size that is made and cached in one session answers the statement in every
  -- other, also where the planner would make another plan, as after a change of the default database.
  -- The accounts are right, and the entries that are there were last used before.
  pub prepare_logical_or_get_cached_stale :
      (now later : ℕ) (session session' : Session) (s : Statement) (c : Cache Statement Plan)
      (p : Plan) (e : CacheEntry Plan)
      → IsAccounted lib.same c
      → find lib.same s c.cache ≡ none
      → OthersBefore lib.same s now c.cache
      → plan_statement session s ≡ some p
      → new_entry lib now s p ≡ some e
      → (c' : Cache Statement Plan) × (c'' : Cache Statement Plan) × (prepare_logical_or_get_cached
            lib plan_statement now session s c
          ≡ some (c', some p))
        × (prepare_logical_or_get_cached lib plan_statement later session' s c'
            ≡ some (c'', some p))
  prepare_logical_or_get_cached_stale now later session session' s c p e a miss o planned new =
      let (c', done, kept, below, accounts) = find-insert lib is_eq now s p e c a miss o new in
      (
        c',
        touched later s e c',
        prepare-insert now session s c p c' miss planned done,
        prepare-hit later session' s c' e kept
            ∙ ap (λ x. some (touched later s e c', some x))
                (new_entry-fields lib is_eq now s p e new).0,
      )
