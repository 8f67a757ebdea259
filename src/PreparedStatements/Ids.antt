-- ===== src/PreparedStatements/Ids.antt =====
-- The numbers that prepared statements get.
use secure_fusion.Prelude.{
  ℕ, zero, suc, ◌+◌, ◌-◌, ◌%◌, ◌^◌, ◌≤◌, ◌<◌, ◌≡◌, ◌≢◌, ◌⊎◌, refl, subst, ◌∙◌, String, Bool, true,
  false, Option, none, some, is_some, List, ◌∷◌, ◌==◌, ==_iff, inl, inr, Bool-cases, if◌then◌else◌,
  arith,
}
use secure_fusion.Run.{Run, returns, panics}
use secure_fusion.PreparedStatements.{
  StatementResponse, SavedStatement, PreparedStatementsHolder, new_from_statement, find_statement,
  get_statement, free_id, save, create_statement,
}

==_false : (a b : ℕ) → a ≢ b → (a == b) ≡ false
==_false a b different = elim (Bool-cases (a == b)) [
  | inl same ↦ absurd (different ((==_iff a b).0 same))
  | inr differs ↦ differs
]

-- The next number but `j` is the number after the next.
next-places : (next j : ℕ) → ((next + 1) % 2 ^ 32 + suc j) % 2 ^ 32 ≡ (next + suc (suc j)) % 2 ^ 32
next-places next j = omega arith

none_of_free : {A : Type 0} (o : Option A) → is_some o ≡ false → o ≡ none
none_of_free none h = refl
none_of_free (some a) h = cc

module _ {D F : Type 0} where
  -- The number `k` places after another one is taken.
  abbrev pub IsTaken : List (ℕ × SavedStatement D F) → (next k : ℕ) → Type 0
  IsTaken saved next k = is_some (find_statement ((next + k) % 2 ^ 32) saved) ≡ true

  -- The search finds a free number, or all numbers up to the initial one are taken.
  abbrev pub Finds : (d next : ℕ) → List (ℕ × SavedStatement D F) → Option (Run ℕ) → Type 0
  Finds d next saved result =
      ((id : ℕ) × (result ≡ some (returns id)) × (id < 2 ^ 32) × (find_statement id saved ≡ none))
      ⊎ ((result ≡ some panics) × ((k : ℕ) → 1 ≤ k → k ≤ d → IsTaken saved next k))

  IsTaken-from :
      (d next : ℕ) (saved : List (ℕ × SavedStatement D F))
      → IsTaken saved next 1
      → ((k : ℕ) → 1 ≤ k → k ≤ d → IsTaken saved ((next + 1) % 2 ^ 32) k)
      → (k : ℕ) → 1 ≤ k
      → k ≤ suc d
      → IsTaken saved next k
  IsTaken-from d next saved first others zero low high = absurd (omega arith)
  IsTaken-from d next saved first others (suc zero) low high = first
  IsTaken-from d next saved first others (suc (suc j)) low high =
      subst (λ id. is_some (find_statement id saved) ≡ true) (next-places next j)
        (others (suc j) (omega arith) (omega arith))

  free_id-step :
      (fuel initial next : ℕ) (saved : List (ℕ × SavedStatement D F))
      → next ≢ initial
      → free_id (suc fuel) initial next saved ≡ (
          if is_some (find_statement ((next + 1) % 2 ^ 32) saved)
          then free_id fuel initial ((next + 1) % 2 ^ 32) saved
          else some (returns ((next + 1) % 2 ^ 32)))
  unfolding free_id
  free_id-step fuel initial next saved different = rw (==_false next initial different) refl

  free_id-Finds :
      (d fuel initial next : ℕ) (saved : List (ℕ × SavedStatement D F))
      → d < fuel
      → d < 2 ^ 32
      → next < 2 ^ 32
      → (next + d) % 2 ^ 32 ≡ initial
      → Finds d next saved (free_id fuel initial next saved)
  unfolding free_id
  free_id-Finds d zero initial next saved h small n e = absurd (omega arith)
  free_id-Finds zero (suc fuel) initial next saved h small n e =
      let there : next ≡ initial = omega arith in
      inr (rw ((==_iff next initial).1 there) refl, λ k low high. absurd (omega arith))
  free_id-Finds (suc d) (suc fuel) initial next saved h small n e =
      let different : next ≢ initial = λ same. omega arith in
      let step = free_id-step fuel initial next saved different in
      elim (Bool-cases (is_some (find_statement ((next + 1) % 2 ^ 32) saved))) [
        | inr free ↦
            inl ((next + 1) % 2 ^ 32, step ∙ rw free refl, omega arith, none_of_free _ free)
        | inl taken ↦
            elim (free_id-Finds d fuel initial ((next + 1) % 2 ^ 32) saved (omega arith)
              (omega arith) (omega arith) (omega arith)) [
                | inl (id, found, bound, free) ↦ inl (id, step ∙ rw taken found, bound, free)
                | inr (full, others) ↦
                    inr (step ∙ rw taken full, IsTaken-from d next saved taken others)
              ]
      ]

  find_statement-saved :
      (id : ℕ) (s : SavedStatement D F) (saved : List (ℕ × SavedStatement D F))
      → find_statement id ((id, s) ∷ saved) ≡ some s
  unfolding find_statement
  find_statement-saved id s saved = rw ((==_iff id id).1 refl) refl

  find_statement-others :
      (id other : ℕ) (s : SavedStatement D F) (saved : List (ℕ × SavedStatement D F))
      → id ≢ other
      → find_statement other ((id, s) ∷ saved) ≡ find_statement other saved
  unfolding find_statement
  find_statement-others id other s saved different = rw (==_false id other different) refl

  -- The holder with a statement under a new number.
  abbrev pub with_statement :
      PreparedStatementsHolder D F → ℕ → SavedStatement D F → PreparedStatementsHolder D F
  with_statement holder id s = record {
    saved_statements = (id, s) ∷ holder.saved_statements;
    next_statement_id = id;
  }

  -- The loop of `create_statement` ends: it saves the statement under a number of 32 bits that was
  -- free, under which it is found, and all other statements stay as they were; or it panics, and
  -- then each number but the last one that was given out is taken, which may be free. The number that was given out
  -- last is one of 32 bits, and the response names its parameters.
  pub create_statement_total :
      (name : ℕ → String) (holder : PreparedStatementsHolder D F) (ok : Bool)
      (response : StatementResponse D F)
      → holder.next_statement_id < 2 ^ 32
      → ((id : ℕ) → (s : SavedStatement D F) × (new_from_statement name id ok response ≡ returns s))
      → ((id : ℕ) × (s : SavedStatement D F) × (create_statement name holder ok response
            ≡ some (returns (with_statement holder id s, s)))
          × (id < 2 ^ 32)
          × (get_statement holder id ≡ none)
          × (get_statement (with_statement holder id s) id ≡ some s)
          × ((other : ℕ)
              → id ≢ other
              → get_statement (with_statement holder id s) other ≡ get_statement holder other))
        ⊎ ((create_statement name holder ok response ≡ some panics)
            × ((k : ℕ)
                → 1 ≤ k
                → k < 2 ^ 32
                → IsTaken holder.saved_statements holder.next_statement_id k))
  unfolding create_statement save get_statement
  create_statement_total name holder ok response bound named =
      elim (free_id-Finds (2 ^ 32 - 1) (2 ^ 32) _ holder.next_statement_id holder.saved_statements
        (omega arith) (omega arith) bound refl) [
          | inl (id, found, small, free) ↦
              let (s, made) = named id in
              inl (
                id,
                s,
                rw (found, create_statement, made, save) refl,
                small,
                free,
                find_statement-saved id s holder.saved_statements,
                λ other different.
                    find_statement-others id other s holder.saved_statements different,
              )
          | inr (full, taken) ↦
              inr (rw (full, create_statement) refl, λ k low high. taken k low (omega arith))
        ]
