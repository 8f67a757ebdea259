-- ===== src/Transaction/Server.antt =====
-- The transaction control against the server: its state says whether the server is in a transaction.
use secure_fusion.Prelude.{
  zero, suc, ◌+◌, ◌%◌, ◌^◌, ◌≡◌, refl, sym, ap, ◌∙◌, String, Bool, true, false, Option, none, some,
  is_some, List, [], ◌∷◌, ◌⊎◌, inl, inr, Option-cases,
}
use Prim.Native.String.{◌++◌ as str_append}
use secure_fusion.Transaction.{
  TransactionStatus, forced, weak, TransactionControl, Conn, Call, set_autocommit_call,
  set_isolation_level_call, commit_call, rollback_call, start_transaction_call, weak_commit_call,
  weak_rollback_call, weak_start_transaction_call, ◌>>=◌, conn_commit, conn_set_autocommit,
  conn_start_transaction, conn_rollback, conn_set_isolation_level, commit, rollback,
  start_transaction, set_autocommit, set_isolation_level, commit_status, weak_commit,
  rollback_status, weak_rollback, start_status, weak_start_transaction, run_call, run,
}

-- What MySQL documents of its transaction statements, for a server whose transaction shows in its
-- state. Each of them may fail.
pub record IsServer {L S : Type 0} (conn : Conn L S) (in_transaction : S → Bool) : Type 0 where
  pub commit_ends : (s s' : S) → conn.query_drop "COMMIT" s ≡ some s' → in_transaction s' ≡ false
  pub rollback_ends :
      (s s' : S) → conn.query_drop "ROLLBACK" s ≡ some s' → in_transaction s' ≡ false
  pub start_begins :
      (s s' : S) → conn.query_drop "START TRANSACTION" s ≡ some s' → in_transaction s' ≡ true
  pub autocommit_keeps :
      (s s' : S)
      → in_transaction s ≡ false
      → conn.query_drop "SET autocommit=1" s ≡ some s'
      → in_transaction s' ≡ false
  pub isolation_keeps :
      (level : L) (s s' : S)
      → conn.query_drop (str_append "SET TRANSACTION ISOLATION LEVEL " (conn.display level)) s
        ≡ some s'
      → in_transaction s' ≡ in_transaction s

module _ {L S : Type 0} (conn : Conn L S) (in_transaction : S → Bool) where
  -- Under autocommit the state has a transaction exactly if the server has one.
  abbrev pub IsTracked : TransactionControl L → S → Type 0
  IsTracked tx server =
      tx.autocommit ≡ true → is_some tx.current_transaction ≡ in_transaction server

  -- The statements that the transaction control sends.
  pub data Statement : String → Type 0 where
    commit_text : Statement "COMMIT"
    rollback_text : Statement "ROLLBACK"
    start_text : Statement "START TRANSACTION"
    autocommit_on : Statement "SET autocommit=1"
    autocommit_off : Statement "SET autocommit=0"
    isolation_text :
        (level : L) → Statement (str_append "SET TRANSACTION ISOLATION LEVEL " (conn.display level))

  -- From a state, statements bring the server to another one.
  pub data Brings : S → S → Type 0 where
    stays : {s : S} → Brings s s
    sends :
        {text : String} {s s' s'' : S}
        → Statement text
        → conn.query_drop text s ≡ some s'
        → Brings s' s''
        → Brings s s''

  -- A statement is refused in a state to which statements brought the server.
  abbrev pub Refused : S → Type 0
  Refused start =
      (text : String) × (s : S) × Statement text × Brings start s × (conn.query_drop text s ≡ none)

  -- A call panics, which it does only on a refused statement, or ends in a tracked state.
  abbrev pub EndsTracked : S → Option (TransactionControl L × S) → Type 0
  EndsTracked start result =
      (Refused start × (result ≡ none))
      ⊎ ((tx' : TransactionControl L) × (s' : S) × (result ≡ some (tx', s'))
          × Brings start s'
          × IsTracked tx' s')

  earlier :
      (text : String) (s s' : S) (r : Option (TransactionControl L × S))
      → Statement text
      → conn.query_drop text s ≡ some s'
      → EndsTracked s' r
      → EndsTracked s r
  earlier text s s' r is e (inl ((t, u, is_t, brings, refused), ends)) =
      inl ((t, u, is_t, sends is e brings, refused), ends)
  earlier text s s' r is e (inr (tx, u, ends, brings, h)) = inr (tx, u, ends, sends is e brings, h)

  brought :
      {s s' : S} (r : Option (TransactionControl L × S))
      → Brings s s'
      → EndsTracked s' r
      → EndsTracked s r
  brought r stays ends = ends
  brought r (sends {text} {s} {s'} {s''} is e brings) ends =
      earlier text s s' r is e (brought r brings ends)

  send :
      (text : String) (s : S) (f : S → Option (TransactionControl L × S))
      → Statement text
      → ((s' : S) → conn.query_drop text s ≡ some s' → EndsTracked s' (f s'))
      → EndsTracked s (conn.query_drop text s >>= f)
  send text s f is k = elim (Option-cases (conn.query_drop text s)) [
    | inl refused ↦ inl ((text, s, is, stays, refused), rw refused refl)
    | inr (s', e) ↦ rw e (earlier text s s' (f s') is e (k s' e))
  ]

  ended : (tx : TransactionControl L) (s : S) → IsTracked tx s → EndsTracked s (some (tx, s))
  ended tx s h = inr (tx, s, refl, stays, h)

  only_if :
      (b : Bool) (tx : TransactionControl L) (s : S) {r : Option (TransactionControl L × S)}
      → IsTracked tx s
      → EndsTracked s r
      → EndsTracked s (elim b [ true ↦ r | false ↦ some (tx, s) ])
  only_if true tx s h ends = ends
  only_if false tx s h ends = ended tx s h

  module _ (server : IsServer conn in_transaction) where
    commit-IsTracked : (tx : TransactionControl L) (s : S) → EndsTracked s (commit conn tx s)
    unfolding commit conn_commit
    commit-IsTracked tx s = send "COMMIT" s _ commit_text (λ s' e.
        ended (record tx { current_transaction = none }) s'
          (λ auto. sym (server.commit_ends s s' e)))

    rollback-IsTracked : (tx : TransactionControl L) (s : S) → EndsTracked s (rollback conn tx s)
    unfolding rollback conn_rollback
    rollback-IsTracked tx s = send "ROLLBACK" s _ rollback_text (λ s' e.
        ended (record tx { current_transaction = none }) s'
          (λ auto. sym (server.rollback_ends s s' e)))

    start-IsTracked :
        (tx : TransactionControl L) (status : TransactionStatus) (s : S)
        → EndsTracked s (
            conn_start_transaction conn s
            >>= (λ s'. some (record tx { current_transaction = some status }, s')))
    unfolding conn_start_transaction
    start-IsTracked tx status s = send "START TRANSACTION" s _ start_text (λ s' e.
        ended (record tx { current_transaction = some status }) s'
          (λ auto. sym (server.start_begins s s' e)))

    start_transaction-IsTracked :
        (tx : TransactionControl L) (s : S) → EndsTracked s (start_transaction conn tx s)
    unfolding start_transaction commit conn_commit
    start_transaction-IsTracked tx s = elim (Option-cases (conn.query_drop "COMMIT" s)) [
      | inl refused ↦ inl (("COMMIT", s, commit_text, stays, refused), rw refused refl)
      | inr (s', e) ↦ rw e (
          earlier "COMMIT" s s' _ commit_text e
            (start-IsTracked (record tx { current_transaction = none }) forced s'))
    ]

    set_autocommit-IsTracked :
        (autocommit : Bool) (tx : TransactionControl L) (s : S)
        → EndsTracked s (set_autocommit conn autocommit tx s)
    unfolding set_autocommit commit conn_commit conn_set_autocommit
    set_autocommit-IsTracked false tx s = send "SET autocommit=0" s _ autocommit_off (λ s' e.
        ended (record tx { autocommit = false; current_transaction = none }) s' (λ auto. cc))
    set_autocommit-IsTracked true tx s = elim (Option-cases (conn.query_drop "COMMIT" s)) [
      | inl refused ↦ inl (("COMMIT", s, commit_text, stays, refused), rw refused refl)
      | inr (s', e) ↦ rw e (
          earlier "COMMIT" s s' _ commit_text e (
            send "SET autocommit=1" s' _ autocommit_on (λ s'' e'.
              ended (record tx { autocommit = true; current_transaction = none }) s''
                (λ auto. sym (server.autocommit_keeps s' s'' (server.commit_ends s s' e) e')))))
    ]

    set_isolation_level-IsTracked :
        (level : L) (tx : TransactionControl L) (s : S)
        → IsTracked tx s
        → EndsTracked s (set_isolation_level conn level tx s)
    unfolding set_isolation_level conn_set_isolation_level
    set_isolation_level-IsTracked level tx s h = send _ s _ (isolation_text level) (λ s' e.
        ended (record tx { isolation_level = level }) s'
          (λ auto. h auto ∙ sym (server.isolation_keeps level s s' e)))

    commit_status-IsTracked :
        (tx : TransactionControl L) (s : S)
        → IsTracked tx s
        → (status : Option TransactionStatus) → tx.current_transaction ≡ status
        → EndsTracked s (commit_status conn status tx s)
    unfolding commit_status
    commit_status-IsTracked tx s h none is = ended tx s h
    commit_status-IsTracked tx s h (some forced) is = ended tx s h
    commit_status-IsTracked tx s h (some (weak zero)) is = ended tx s h
    commit_status-IsTracked tx s h (some (weak (suc zero))) is = commit-IsTracked tx s
    commit_status-IsTracked tx s h (some (weak (suc (suc d)))) is =
        ended (record tx { current_transaction = some (weak (suc d)) }) s
          (λ auto. sym (ap is_some is) ∙ h auto)

    rollback_status-IsTracked :
        (tx : TransactionControl L) (s : S)
        → IsTracked tx s
        → (status : Option TransactionStatus) → EndsTracked s (rollback_status conn status tx s)
    unfolding rollback_status
    rollback_status-IsTracked tx s h none = ended tx s h
    rollback_status-IsTracked tx s h (some forced) = ended tx s h
    rollback_status-IsTracked tx s h (some (weak d)) = rollback-IsTracked tx s

    start_status-IsTracked :
        (tx : TransactionControl L) (s : S)
        → IsTracked tx s
        → (status : Option TransactionStatus) → tx.current_transaction ≡ status
        → EndsTracked s (start_status conn status tx s)
    unfolding start_status
    start_status-IsTracked tx s h none is = start-IsTracked tx (weak 1) s
    start_status-IsTracked tx s h (some forced) is = ended tx s h
    start_status-IsTracked tx s h (some (weak d)) is =
        ended (record tx { current_transaction = some (weak ((d + 1) % 2 ^ 32)) }) s
          (λ auto. sym (ap is_some is) ∙ h auto)

    weak_commit-IsTracked :
        (tx : TransactionControl L) (s : S) → IsTracked tx s → EndsTracked s (weak_commit conn tx s)
    unfolding weak_commit
    weak_commit-IsTracked tx s h =
        only_if tx.autocommit tx s h (commit_status-IsTracked tx s h tx.current_transaction refl)

    weak_rollback-IsTracked :
        (tx : TransactionControl L) (s : S)
        → IsTracked tx s
        → EndsTracked s (weak_rollback conn tx s)
    unfolding weak_rollback
    weak_rollback-IsTracked tx s h =
        only_if tx.autocommit tx s h (rollback_status-IsTracked tx s h tx.current_transaction)

    weak_start_transaction-IsTracked :
        (tx : TransactionControl L) (s : S)
        → IsTracked tx s
        → EndsTracked s (weak_start_transaction conn tx s)
    unfolding weak_start_transaction
    weak_start_transaction-IsTracked tx s h =
        only_if tx.autocommit tx s h (start_status-IsTracked tx s h tx.current_transaction refl)

    run_call-IsTracked :
        (call : Call L) (tx : TransactionControl L) (s : S)
        → IsTracked tx s
        → EndsTracked s (run_call conn call tx s)
    unfolding run_call
    run_call-IsTracked (set_autocommit_call b) tx s h = set_autocommit-IsTracked b tx s
    run_call-IsTracked (set_isolation_level_call l) tx s h = set_isolation_level-IsTracked l tx s h
    run_call-IsTracked commit_call tx s h = commit-IsTracked tx s
    run_call-IsTracked rollback_call tx s h = rollback-IsTracked tx s
    run_call-IsTracked start_transaction_call tx s h = start_transaction-IsTracked tx s
    run_call-IsTracked weak_commit_call tx s h = weak_commit-IsTracked tx s h
    run_call-IsTracked weak_rollback_call tx s h = weak_rollback-IsTracked tx s h
    run_call-IsTracked weak_start_transaction_call tx s h = weak_start_transaction-IsTracked tx s h

    -- A sequence of calls that starts in a state that, if autocommit is on, has a transaction exactly
    -- if the server has one, ends in such a state, or it panics, and then the server refuses one of
    -- the statements of the transaction control in a state to which such statements brought it. Of a
    -- state with autocommit off nothing is said.
    pub run-IsTracked :
        (calls : List (Call L)) (tx : TransactionControl L) (s : S)
        → IsTracked tx s
        → EndsTracked s (run conn calls tx s)
    unfolding run
    run-IsTracked [] tx s h = ended tx s h
    run-IsTracked (call ∷ calls) tx s h = elim (run_call-IsTracked call tx s h) [
      | inl (refused, e) ↦ inl (refused, rw e refl)
      | inr (tx', s', e, brings, h') ↦
          rw e (brought (run conn calls tx' s') brings (run-IsTracked calls tx' s' h'))
    ]
