-- ===== src/Transaction.antt =====
-- The transaction control of a session: backends/mysql/src/transaction_control.rs. The lock of the
-- state is never contended, so its `try_write().unwrap()` does not fail.
use secure_fusion.Prelude.{
  ℕ, zero, suc, ◌+◌, ◌%◌, ◌^◌, String, Bool, true, false, Option, none, some, List, [], ◌∷◌,
}
use Prim.Native.String.{◌++◌ as str_append}
pub mod Weak
pub mod Server

pub data TransactionStatus : Type 0 where
  forced : TransactionStatus
  weak : (depth : ℕ) → TransactionStatus

-- The inner state. `IsolationLevel` is mysql_async's.
pub record TransactionControl (IsolationLevel : Type 0) : Type 0 where
  pub autocommit : Bool
  pub current_transaction : Option TransactionStatus
  pub isolation_level : IsolationLevel

-- The connection: the server's state, and what `query_drop` makes of it. `none` is an error, which
-- the callers unwrap. `display` is the `Display` of an isolation level.
pub record Conn (IsolationLevel Server : Type 0) : Type 0 where
  pub query_drop : String → Server → Option Server
  pub display : IsolationLevel → String

-- The public calls of `TransactionControl`.
pub data Call (IsolationLevel : Type 0) : Type 0 where
  set_autocommit_call : Bool → Call IsolationLevel
  set_isolation_level_call : IsolationLevel → Call IsolationLevel
  commit_call : Call IsolationLevel
  rollback_call : Call IsolationLevel
  start_transaction_call : Call IsolationLevel
  weak_commit_call : Call IsolationLevel
  weak_rollback_call : Call IsolationLevel
  weak_start_transaction_call : Call IsolationLevel

infixl 5 ◌>>=◌
abbrev pub ◌>>=◌ {ℓ κ} : {A : Type ℓ} {B : Type κ} → Option A → (A → Option B) → Option B
none >>= f = none
some a >>= f = f a

-- `TransactionControlInner::default`.
unfoldable pub default : {L : Type 0} → L → TransactionControl L
default repeatable_read = record {
  autocommit = true;
  current_transaction = none;
  isolation_level = repeatable_read;
}

module _ {L S : Type 0} (conn : Conn L S) where
  -- The extension trait `ConnGetterExt`: one statement each.
  unfoldable pub conn_commit : S → Option S
  conn_commit server = conn.query_drop "COMMIT" server

  unfoldable pub conn_set_autocommit : Bool → S → Option S
  conn_set_autocommit true server = conn.query_drop "SET autocommit=1" server
  conn_set_autocommit false server = conn.query_drop "SET autocommit=0" server

  unfoldable pub conn_start_transaction : S → Option S
  conn_start_transaction server = conn.query_drop "START TRANSACTION" server

  unfoldable pub conn_rollback : S → Option S
  conn_rollback server = conn.query_drop "ROLLBACK" server

  unfoldable pub conn_set_isolation_level : L → S → Option S
  conn_set_isolation_level level server =
      conn.query_drop (str_append "SET TRANSACTION ISOLATION LEVEL " (conn.display level)) server

  -- The operations of `TransactionControl`: the new state and the server, or `none` for a panic.
  unfoldable pub commit : TransactionControl L → S → Option (TransactionControl L × S)
  commit tx server = do
    server' ← conn_commit server
    some (record tx { current_transaction = none }, server')

  unfoldable pub rollback : TransactionControl L → S → Option (TransactionControl L × S)
  rollback tx server = do
    server' ← conn_rollback server
    some (record tx { current_transaction = none }, server')

  unfoldable pub start_transaction : TransactionControl L → S → Option (TransactionControl L × S)
  start_transaction tx server = do
    (tx', committed) ← commit tx server
    server' ← conn_start_transaction committed
    some (record tx' { current_transaction = some forced }, server')

  abbrev commit_if : Bool → TransactionControl L → S → Option (TransactionControl L × S)
  commit_if true tx server = commit tx server
  commit_if false tx server = some (tx, server)

  unfoldable pub set_autocommit :
      Bool → TransactionControl L → S → Option (TransactionControl L × S)
  set_autocommit autocommit tx server = do
    (tx', committed) ← commit_if autocommit tx server
    server' ← conn_set_autocommit autocommit committed
    some (record tx' { autocommit = autocommit; current_transaction = none }, server')

  unfoldable pub set_isolation_level :
      L → TransactionControl L → S → Option (TransactionControl L × S)
  set_isolation_level level tx server = do
    server' ← conn_set_isolation_level level server
    some (record tx { isolation_level = level }, server')

  -- `weak_commit` on a status, under autocommit. Only the last of the nested commits is sent.
  unfoldable pub commit_status :
      Option TransactionStatus → TransactionControl L → S → Option (TransactionControl L × S)
  commit_status none tx server = some (tx, server)
  commit_status (some forced) tx server = some (tx, server)
  commit_status (some (weak zero)) tx server = some (tx, server)
  commit_status (some (weak (suc zero))) tx server = commit tx server
  commit_status (some (weak (suc (suc depth)))) tx server =
      some (record tx { current_transaction = some (weak (suc depth)) }, server)

  unfoldable pub weak_commit : TransactionControl L → S → Option (TransactionControl L × S)
  weak_commit tx server = elim tx.autocommit [
    | true ↦ commit_status tx.current_transaction tx server
    | false ↦ some (tx, server)
  ]

  unfoldable pub rollback_status :
      Option TransactionStatus → TransactionControl L → S → Option (TransactionControl L × S)
  rollback_status (some (weak depth)) tx server = rollback tx server
  rollback_status _ tx server = some (tx, server)

  unfoldable pub weak_rollback : TransactionControl L → S → Option (TransactionControl L × S)
  weak_rollback tx server = elim tx.autocommit [
    | true ↦ rollback_status tx.current_transaction tx server
    | false ↦ some (tx, server)
  ]

  -- `weak_start_transaction` on a status, under autocommit. The depth is a u32, whose `+= 1` wraps
  -- in a release build.
  unfoldable pub start_status :
      Option TransactionStatus → TransactionControl L → S → Option (TransactionControl L × S)
  start_status none tx server = do
    server' ← conn_start_transaction server
    some (record tx { current_transaction = some (weak 1) }, server')
  start_status (some forced) tx server = some (tx, server)
  start_status (some (weak depth)) tx server =
      some (record tx { current_transaction = some (weak ((depth + 1) % 2 ^ 32)) }, server)

  unfoldable pub weak_start_transaction :
      TransactionControl L → S → Option (TransactionControl L × S)
  weak_start_transaction tx server = elim tx.autocommit [
    | true ↦ start_status tx.current_transaction tx server
    | false ↦ some (tx, server)
  ]

  -- A call, and a sequence of calls.
  unfoldable pub run_call : Call L → TransactionControl L → S → Option (TransactionControl L × S)
  run_call (set_autocommit_call autocommit) tx server = set_autocommit autocommit tx server
  run_call (set_isolation_level_call level) tx server = set_isolation_level level tx server
  run_call commit_call tx server = commit tx server
  run_call rollback_call tx server = rollback tx server
  run_call start_transaction_call tx server = start_transaction tx server
  run_call weak_commit_call tx server = weak_commit tx server
  run_call weak_rollback_call tx server = weak_rollback tx server
  run_call weak_start_transaction_call tx server = weak_start_transaction tx server

  unfoldable pub run : List (Call L) → TransactionControl L → S → Option (TransactionControl L × S)
  run [] tx server = some (tx, server)
  run (call ∷ calls) tx server = do (tx', server') ← run_call call tx server; run calls tx' server'
