-- ===== src/Tests/PreparedStatements.antt =====
-- Prepared statements (frontends/mysql/src/command_phase/statements.rs) of a client that has one.
use secure_fusion.Prelude.{
  ℕ, ◌^◌, ◌<◌, ◌≤◌, ◌≡◌, ◌≢◌, ◌⊎◌, refl, String, true, none, some, [], ◌∷◌, ◌==◌, if◌then◌else◌,
  arith,
}
use secure_fusion.Run.{returns, panics}
use secure_fusion.PreparedStatements.{
  StatementResponse, SavedStatement, PreparedStatementsHolder, parameter_named, parameters_from,
  new_from_statement, find_statement, get_statement, save, create_statement,
}
use secure_fusion.PreparedStatements.Ids.{IsTaken, with_statement, create_statement_total}

program : Unit {0}
unfolding parameter_named parameters_from new_from_statement find_statement get_statement save
program = tt

-- The names of two parameters.
abbrev dollar : ℕ → String
dollar n = if n == 1 then "$1" else "$2"

abbrev response : StatementResponse ℕ ℕ
response = record { statement_id = 40; parameters = ("$2", 8) ∷ ("$1", 7) ∷ []; columns = 3 ∷ [] }

abbrev saved_under : ℕ → SavedStatement ℕ ℕ
saved_under id = record {
  statement_id = id;
  backend_statement_id = 40;
  should_return_ok = true;
  parameters = 7 ∷ 8 ∷ [];
  columns = 3 ∷ [];
}

abbrev holder : PreparedStatementsHolder ℕ ℕ
holder = record { saved_statements = (1, saved_under 1) ∷ []; next_statement_id = 0 }

named :
    (id : ℕ) → (s : SavedStatement ℕ ℕ) × (new_from_statement dollar id true response ≡ returns s)
unfolding program
named id = (saved_under id, refl)

create_statement_total_example :
    ((id : ℕ) × (s : SavedStatement ℕ ℕ) × (create_statement dollar holder true response
        ≡ some (returns (with_statement holder id s, s)))
      × (id < 2 ^ 32)
      × (get_statement holder id ≡ none)
      × (get_statement (with_statement holder id s) id ≡ some s)
      × ((other : ℕ)
          → id ≢ other
          → get_statement (with_statement holder id s) other ≡ get_statement holder other))
    ⊎ ((create_statement dollar holder true response ≡ some panics)
        × ((k : ℕ) → 1 ≤ k → k < 2 ^ 32 → IsTaken holder.saved_statements 0 k))
create_statement_total_example =
    create_statement_total dollar holder true response (omega arith) named
