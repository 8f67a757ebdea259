-- ===== src/Run.antt =====
-- What a Rust function of the planner does: it returns, fails with a plan or an execution error, or
-- panics.
use secure_fusion.Prelude.{Option, none, some}

pub data Run {ℓ} (A : Type ℓ) : Type ℓ where
  returns : A → Run A
  plan_error : Run A
  exec_error : Run A
  panics : Run A

infixl 5 ◌>>=◌
abbrev pub ◌>>=◌ {ℓ κ} : {A : Type ℓ} {B : Type κ} → Run A → (A → Run B) → Run B
returns a >>= f = f a
plan_error >>= f = plan_error
exec_error >>= f = exec_error
panics >>= f = panics

-- A call that may run out of fuel, `none`, and what follows it.
abbrev pub and_then {ℓ κ} :
    {A : Type ℓ} {B : Type κ} → Option (Run A) → (A → Option (Run B)) → Option (Run B)
and_then none f = none
and_then (some (returns a)) f = f a
and_then (some plan_error) f = some plan_error
and_then (some exec_error) f = some exec_error
and_then (some panics) f = some panics

-- `ok_or_else(|| plan_datafusion_err!(..))?`
abbrev pub ok_or_plan_error {ℓ} : {A : Type ℓ} → Option A → Run A
ok_or_plan_error none = plan_error
ok_or_plan_error (some a) = returns a
