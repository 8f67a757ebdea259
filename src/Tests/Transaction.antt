-- ===== src/Tests/Transaction.antt =====
-- The transaction control of backends/mysql/src/transaction_control.rs before a server that keeps the
-- statements that it gets, the last one first.
use secure_fusion.Prelude.{
  ◌≡◌, refl, String, Bool, true, false, Option, none, some, List, [], ◌∷◌, inr, if◌then◌else◌,
  arith,
}
use text.Mathlib.Text.{◌==◌ as str_eq}
use secure_fusion.Transaction.Server.{IsServer, EndsTracked, run-IsTracked}
use secure_fusion.Transaction.{
  TransactionStatus, forced, weak, TransactionControl, Conn, set_autocommit_call, commit_call,
  start_transaction_call, weak_commit_call, weak_rollback_call, weak_start_transaction_call,
  default, conn_commit, conn_set_autocommit, conn_start_transaction, conn_rollback,
  conn_set_isolation_level, commit, rollback, start_transaction, set_autocommit,
  set_isolation_level, commit_status, weak_commit, rollback_status, weak_rollback, start_status,
  weak_start_transaction, run_call, run,
}
use secure_fusion.Transaction.Weak.{
  done, block, automatic, run-weak_transaction, run-weak_frame, run-weak_rollback,
}

program : Unit {0}
unfolding default conn_commit conn_set_autocommit conn_start_transaction conn_rollback
    conn_set_isolation_level commit rollback start_transaction set_autocommit set_isolation_level
    commit_status weak_commit rollback_status weak_rollback start_status weak_start_transaction
    run_call run
program = tt

-- The one isolation level is `tt`.
abbrev recording : Conn (Unit {0}) (List String)
recording = record {
  query_drop = λ text sent. some (text ∷ sent);
  display = λ level. "REPEATABLE READ";
}

abbrev control : Option TransactionStatus → TransactionControl (Unit {0})
control status = automatic tt status

-- A client's transaction with a weak one in it.
client_transaction :
    run recording
      (start_transaction_call ∷ weak_start_transaction_call ∷ weak_commit_call ∷ commit_call ∷ [])
      (default tt)
      []
    ≡ some (control none, "COMMIT" ∷ "START TRANSACTION" ∷ "COMMIT" ∷ [])
unfolding program
client_transaction = refl

run-weak_transaction_example :
    run recording
      (weak_start_transaction_call ∷ weak_start_transaction_call ∷ weak_commit_call
        ∷ weak_commit_call ∷ [])
      (control none)
      []
    ≡ some (control none, "COMMIT" ∷ "START TRANSACTION" ∷ [])
unfolding program
run-weak_transaction_example =
    run-weak_transaction recording tt 1
      (weak_start_transaction_call ∷ weak_commit_call ∷ weak_commit_call ∷ []) [] (omega arith)
      (block done done)

run-weak_frame_example :
    run recording (weak_start_transaction_call ∷ weak_rollback_call ∷ []) (control (some forced)) []
    ≡ some (control (some forced), [])
run-weak_frame_example =
    run-weak_frame recording (weak_start_transaction_call ∷ weak_rollback_call ∷ [])
      (control (some forced)) [] (refl, (refl, tt)) (inr refl)

run-weak_rollback_example :
    run recording
      (weak_rollback_call ∷ weak_commit_call ∷ weak_commit_call ∷ [])
      (control (some (weak 2)))
      []
    ≡ some (control none, "ROLLBACK" ∷ [])
unfolding program
run-weak_rollback_example = run-weak_rollback recording tt 2 2 []

-- A server that is in a transaction or not, and then refuses an isolation level.
abbrev answer : String → Bool → Option Bool
answer text in_transaction =
    if str_eq text "START TRANSACTION"
    then some true
    else if str_eq text "COMMIT"
    then some false
    else if str_eq text "ROLLBACK"
    then some false
    else if str_eq text "SET TRANSACTION ISOLATION LEVEL REPEATABLE READ"
    then (if in_transaction then none else some false)
    else some in_transaction

abbrev tracking : Conn (Unit {0}) Bool
tracking = record { query_drop = answer; display = λ level. "REPEATABLE READ" }

tracking-IsServer : IsServer tracking (λ in_transaction. in_transaction)
tracking-IsServer = record {
  commit_ends = λ s s' h. ground arith;
  rollback_ends = λ s s' h. ground arith;
  start_begins = λ s s' h. ground arith;
  autocommit_keeps = λ s s' outside h. ground arith;
  isolation_keeps = λ level s s' h. ground arith;
}

run-IsTracked_example :
    EndsTracked tracking
      (λ in_transaction. in_transaction)
      false
      (run tracking
        (weak_start_transaction_call
          ∷ set_autocommit_call false
          ∷ start_transaction_call
          ∷ commit_call
          ∷ [])
        (default tt)
        false)
unfolding program
run-IsTracked_example =
    run-IsTracked tracking (λ in_transaction. in_transaction) tracking-IsServer
      (weak_start_transaction_call
        ∷ set_autocommit_call false
        ∷ start_transaction_call
        ∷ commit_call
        ∷ [])
      (default tt) false (λ auto. refl)
