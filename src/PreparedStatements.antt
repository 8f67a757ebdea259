-- ===== src/PreparedStatements.antt =====
-- The prepared statements of a client: frontends/mysql/src/command_phase/statements.rs. Data types and
-- fields of columns are Arrow's.
use secure_fusion.Prelude.{
  ℕ, zero, suc, ◌+◌, ◌-◌, ◌%◌, ◌^◌, String, Bool, true, false, Option, none, some, is_some, List,
  [], ◌∷◌, length, ◌==◌, if◌then◌else◌,
}
use text.Mathlib.Text.{◌==◌ as str_eq}
use secure_fusion.Run.{Run, returns, plan_error, panics, ◌>>=◌}
pub mod Ids

-- The backend's answer to a statement.
pub record StatementResponse (D F : Type 0) : Type 0 where
  pub statement_id : ℕ
  pub parameters : List (String × D)
  pub columns : List F

pub record SavedStatement (D F : Type 0) : Type 0 where
  pub statement_id : ℕ
  pub backend_statement_id : ℕ
  pub should_return_ok : Bool
  pub parameters : List D
  pub columns : List F

pub record PreparedStatementsHolder (D F : Type 0) : Type 0 where
  pub saved_statements : List (ℕ × SavedStatement D F)
  pub next_statement_id : ℕ

-- `parameters[name]`, which panics on a missing name.
unfoldable pub parameter_named : {D : Type 0} → String → List (String × D) → Run D
parameter_named name [] = panics
parameter_named name ((key, d) ∷ parameters) =
    if str_eq key name then returns d else parameter_named name parameters

-- The parameters from number `index + 1` on; `name` is `format!("${}", ..)`.
unfoldable pub parameters_from :
    {D : Type 0} → (ℕ → String) → List (String × D) → (index count : ℕ) → Run (List D)
parameters_from name parameters index zero = returns []
parameters_from name parameters index (suc count) = do
  first ← parameter_named (name (index + 1)) parameters
  rest ← parameters_from name parameters (index + 1) count
  returns (first ∷ rest)

module _ {D F : Type 0} where
  unfoldable pub new : PreparedStatementsHolder D F
  new = record { saved_statements = []; next_statement_id = 0 }

  -- `SavedStatement::new_from_statement`.
  unfoldable pub new_from_statement :
      (ℕ → String) → ℕ → Bool → StatementResponse D F → Run (SavedStatement D F)
  new_from_statement name statement_id should_return_ok response = do
    parameters ← parameters_from name response.parameters 0 (length response.parameters)
    returns (record {
      statement_id = statement_id;
      backend_statement_id = response.statement_id;
      should_return_ok = should_return_ok;
      parameters = parameters;
      columns = response.columns;
    })

  -- `HashMap::get`, `insert` of a new key, and `remove`.
  unfoldable pub find_statement : ℕ → List (ℕ × SavedStatement D F) → Option (SavedStatement D F)
  find_statement id [] = none
  find_statement id ((key, s) ∷ saved) = if key == id then some s else find_statement id saved

  unfoldable pub remove_statement :
      ℕ → List (ℕ × SavedStatement D F) → List (ℕ × SavedStatement D F)
  remove_statement id [] = []
  remove_statement id ((key, s) ∷ saved) =
      if key == id then saved else (key, s) ∷ remove_statement id saved

  -- `PreparedStatementsHolder::get_statement`. `none` is the error `UnknownStatement`.
  unfoldable pub get_statement : PreparedStatementsHolder D F → ℕ → Option (SavedStatement D F)
  get_statement holder id = find_statement id holder.saved_statements

  -- `PreparedStatementsHolder::close_statement`.
  unfoldable pub close_statement :
      PreparedStatementsHolder D F → ℕ → PreparedStatementsHolder D F × Option (SavedStatement D F)
  close_statement holder id = (
    record holder { saved_statements = remove_statement id holder.saved_statements },
    find_statement id holder.saved_statements,
  )

  -- The loop of `create_statement` for a free number, on fuel; `none` means that it ran out. It
  -- panics where no number is free.
  unfoldable pub free_id : (fuel initial next : ℕ) → List (ℕ × SavedStatement D F) → Option (Run ℕ)
  free_id zero initial next saved = none
  free_id (suc fuel) initial next saved =
      let rest = free_id fuel initial ((next + 1) % 2 ^ 32) saved in
      if next == initial
      then some panics
      else if is_some (find_statement ((next + 1) % 2 ^ 32) saved)
      then rest
      else some (returns ((next + 1) % 2 ^ 32))

  -- The statement that is saved under a number.
  unfoldable pub save :
      (ℕ → String)
      → Bool
      → StatementResponse D F
      → PreparedStatementsHolder D F
      → Run ℕ
      → Run (PreparedStatementsHolder D F × SavedStatement D F)
  save name should_return_ok response holder found = do
    id ← found
    statement ← new_from_statement name id should_return_ok response
    returns (
      record {
        saved_statements = (id, statement) ∷ holder.saved_statements;
        next_statement_id = id;
      },
      statement,
    )

  -- `PreparedStatementsHolder::create_statement`, with fuel for each of the 2 ^ 32 numbers.
  unfoldable pub create_statement :
      (ℕ → String)
      → PreparedStatementsHolder D F
      → Bool
      → StatementResponse D F
      → Option (Run (PreparedStatementsHolder D F × SavedStatement D F))
  create_statement name holder should_return_ok response =
      elim (free_id (2 ^ 32) ((holder.next_statement_id + (2 ^ 32 - 1)) % 2 ^ 32)
        holder.next_statement_id holder.saved_statements) [
          | none ↦ none
          | some found ↦ some (save name should_return_ok response holder found)
        ]
