-- ===== src/Transaction/Weak.antt =====
-- The weak transactions, which the proxy opens around its own statements, nested and inside the
-- transactions of the client.
use secure_fusion.Prelude.{
  ℕ, zero, suc, ◌+◌, ◌%◌, ◌^◌, ◌<◌, ◌≡◌, refl, ◌∙◌, Bool, true, false, Option, none, some, List, [],
  ◌∷◌, ◌⊎◌, inl, inr, All, Option-cases, arith,
}
use native.Mathlib.Nat.{mod-eq_of_lt}
use secure_fusion.Transaction.{
  TransactionStatus, forced, weak, TransactionControl, Conn, Call, weak_commit_call,
  weak_rollback_call, weak_start_transaction_call, ◌>>=◌, conn_commit, conn_rollback,
  conn_start_transaction, commit, rollback, commit_status, weak_commit, rollback_status,
  weak_rollback, start_status, weak_start_transaction, run_call, run,
}

abbrev pub is_weak : {L : Type 0} → Call L → Bool
is_weak weak_commit_call = true
is_weak weak_rollback_call = true
is_weak weak_start_transaction_call = true
is_weak _ = false

-- `Nested h calls rest`: the calls are matching weak starts and commits, nested at most `h` deep,
-- and then the rest.
pub data Nested {L : Type 0} : ℕ → List (Call L) → List (Call L) → Type 0 where
  done : {h : ℕ} {rest : List (Call L)} → Nested h rest rest
  block :
      {h : ℕ} {inner next rest : List (Call L)}
      → Nested h inner (weak_commit_call ∷ next)
      → Nested (suc h) next rest
      → Nested (suc h) (weak_start_transaction_call ∷ inner) rest

-- The state under autocommit.
abbrev pub automatic : {L : Type 0} → L → Option TransactionStatus → TransactionControl L
automatic level status = record {
  autocommit = true;
  current_transaction = status;
  isolation_level = level;
}

abbrev pub commits : {L : Type 0} → ℕ → List (Call L)
commits zero = []
commits (suc n) = weak_commit_call ∷ commits n

deeper : (d : ℕ) → suc d + 1 < 2 ^ 32 → (suc d + 1) % 2 ^ 32 ≡ suc (suc d)
deeper d h = mod-eq_of_lt h ∙ omega arith

module _ {L S : Type 0} (conn : Conn L S) where
  start-deeper :
      (level : L) (d : ℕ) (calls : List (Call L)) (server : S)
      → suc d + 1 < 2 ^ 32
      → run conn
          (weak_start_transaction_call ∷ calls)
          (automatic level (some (weak (suc d))))
          server
        ≡ run conn calls (automatic level (some (weak (suc (suc d))))) server
  unfolding run run_call weak_start_transaction start_status
  start-deeper level d calls server h = rw (deeper d h) refl

  commit-deeper :
      (level : L) (d : ℕ) (calls : List (Call L)) (server : S)
      → run conn (weak_commit_call ∷ calls) (automatic level (some (weak (suc (suc d))))) server
        ≡ run conn calls (automatic level (some (weak (suc d)))) server
  unfolding run run_call weak_commit commit_status
  commit-deeper level d calls server = refl

  -- Inside a weak transaction nested ones send nothing and leave its depth.
  run-Nested :
      (level : L) (h d : ℕ) {calls rest : List (Call L)} (server : S)
      → suc d + h < 2 ^ 32
      → Nested h calls rest
      → run conn calls (automatic level (some (weak (suc d)))) server
        ≡ run conn rest (automatic level (some (weak (suc d)))) server
  run-Nested level h d server bound done = refl
  run-Nested level (suc h) d server bound (block {inner = inner} {next = next} n m) =
      start-deeper level d inner server (omega arith)
      ∙ run-Nested level h (suc d) server (omega arith) n
      ∙ commit-deeper level d next server
      ∙ run-Nested level (suc h) d server bound m

  -- Under autocommit and outside a transaction, a weak transaction with others nested in it sends
  -- one START TRANSACTION and one COMMIT, and leaves the state as it was. The depth stays below
  -- 2 ^ 32.
  pub run-weak_transaction :
      (level : L) (h : ℕ) (calls : List (Call L)) (server : S)
      → 1 + h < 2 ^ 32
      → Nested h calls (weak_commit_call ∷ [])
      → run conn (weak_start_transaction_call ∷ calls) (automatic level none) server ≡ (do
        started ← conn_start_transaction conn server
        committed ← conn_commit conn started
        some (automatic level none, committed))
  unfolding run run_call weak_start_transaction start_status weak_commit commit_status commit
  run-weak_transaction level h calls server bound n =
      elim (Option-cases (conn_start_transaction conn server)) [
        | inl failed ↦ rw failed refl
        | inr (started, e) ↦
            rw (e, run-Nested level h 0 started bound n)
              (elim (Option-cases (conn_commit conn started)) [
                | inl failed ↦ rw failed refl
                | inr (committed, e') ↦ rw e' refl
              ])
      ]

  run_call-frame :
      (call : Call L) (tx : TransactionControl L) (server : S)
      → is_weak call ≡ true
      → (tx.autocommit ≡ false) ⊎ (tx.current_transaction ≡ some forced)
      → run_call conn call tx server ≡ some (tx, server)
  unfolding run_call weak_commit weak_rollback weak_start_transaction commit_status rollback_status
      start_status
  run_call-frame weak_commit_call tx server w h = ground arith
  run_call-frame weak_rollback_call tx server w h = ground arith
  run_call-frame weak_start_transaction_call tx server w h = ground arith
  run_call-frame _ tx server w h = cc

  -- Inside a transaction of the client, and with autocommit off, weak calls change and send nothing.
  pub run-weak_frame :
      (calls : List (Call L)) (tx : TransactionControl L) (server : S)
      → All (λ call. is_weak call ≡ true) calls
      → (tx.autocommit ≡ false) ⊎ (tx.current_transaction ≡ some forced)
      → run conn calls tx server ≡ some (tx, server)
  unfolding run
  run-weak_frame [] tx server w h = refl
  run-weak_frame (call ∷ calls) tx server w h =
      rw (run_call-frame call tx server w.0 h) (run-weak_frame calls tx server w.1 h)

  run-commits :
      (level : L) (n : ℕ) (server : S)
      → run conn (commits n) (automatic level none) server ≡ some (automatic level none, server)
  unfolding run run_call weak_commit commit_status
  run-commits level zero server = refl
  run-commits level (suc n) server = run-commits level n server

  -- A weak rollback at any depth rolls back the whole transaction, and the commits of the enclosing
  -- weak transactions then send nothing.
  pub run-weak_rollback :
      (level : L) (d n : ℕ) (server : S)
      → run conn (weak_rollback_call ∷ commits n) (automatic level (some (weak d))) server
        ≡ (do rolled_back ← conn_rollback conn server; some (automatic level none, rolled_back))
  unfolding run run_call weak_rollback rollback_status rollback
  run-weak_rollback level d n server = elim (Option-cases (conn_rollback conn server)) [
    | inl failed ↦ rw failed refl
    | inr (rolled_back, e) ↦ rw e (run-commits level n rolled_back)
  ]
