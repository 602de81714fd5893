-- ===== src/Repository/Updates/Atomic.antt =====
-- Every mutator of the payments is atomic: a call that returns an error has done nothing, or, where
-- only the answer to its last statement was lost, all that it does when it returns none.
use pay_flow_mock.Prelude.{
  if◌then◌else◌, Bool-cases, ℤ, Text, ℕ, ◌≡◌, refl, sym, ap, ◌∙◌, ◌⊎◌, inl, inr, true, false, not,
  ◌&&◌, Option, [], arith,
}
use pay_flow_mock.Errors.{
  invalid_status_transition, cannot_go, unavailable, update_status_with_psp, update_failed, Error,
  sentinel, driver, Result, ok, err, Result-cases,
}
use pay_flow_mock.Repository.{Db, begin_stmt, update_stmt, insert_stmt, commit_stmt, Env, pg_now}
use pay_flow_mock.Repository.Payments.Store.{stamped}
use pay_flow_mock.Repository.Outbox.{enqueue_tx}
use pay_flow_mock.Domain.Outbox.{payment_success, payment_failed}
use pay_flow_mock.Repository.Updates.{
  run_tx, resolve_missing, check_update, move_status, update_payment_status, update_returning,
  update_and_enqueue, event_source, update_payment_status_with_psp, update_payment_failed,
}
use pay_flow_mock.Domain.{Status, failed, Payment, valid_transition}
use pay_flow_mock.Repository.Payments.{
  PaymentRepo, str_or_nil, enqueue_outbox_payment_event_tx, validate_payment_for_create,
  payment_row, insert_payment_row, answered, create_payment,
}
use pay_flow_mock.Repository.Updates.Refunds.{
  insert_refund_row, mark_refunded, refund_tx, check_refund, refund_payment_atomic,
}

-- The clock and the ids of a call.
abbrev pub SameDraws : Env → Env → Type 0
SameDraws env env' =
    (env'.now ≡ env.now) × (env'.new_id ≡ env.new_id) × (env'.random_uuid ≡ env.random_uuid)

-- What a call would have answered that has done all it does, with the same clock and ids.
abbrev pub Landed : {A : Type 0} → (Env → Result A × Db) → Env → Db → Type 0
Landed {A} call env after =
    (env.lands ≡ true)
    × ((env' : Env) × SameDraws env env' × ((a : A) × (call env' ≡ (ok a, after))))

-- A call that began at `db` and failed has changed nothing there, or has landed.
abbrev pub IsAtomic : {A : Type 0} → (Env → Result A × Db) → Env → Db → Type 0
IsAtomic call env db =
    (e : Error) → (call env).0 ≡ err e → ((call env).1 ≡ db) ⊎ Landed call env (call env).1

-- As `env`, but that the COMMIT is answered.
abbrev commit_answered : Env → Env
commit_answered env = record env { fails = λ s. elim s [ commit_stmt ↦ false | s' ↦ env.fails s' ] }

-- The same for an UPDATE or an INSERT outside a transaction.
abbrev change_answered : Env → Env
change_answered env = record env {
  fails = λ s. elim s [ update_stmt ↦ false | insert_stmt ↦ false | s' ↦ env.fails s' ];
}

-- The case of a call that has done all it does.
all_done :
    {A : Type 0} (call : Env → Result A × Db) (env env' : Env) (db after : Db) (a : A)
    → env.lands ≡ true
    → SameDraws env env'
    → call env' ≡ (ok a, after)
    → (call env).1 ≡ after
    → ((call env).1 ≡ db) ⊎ Landed call env (call env).1
all_done call env env' db after a lands draws again reached =
    inr (lands, (env', draws, (a, again ∙ ap (λ d. (ok a, d)) (sym reached))))

module _ {A : Type 0} (env : Env) (db : Db) where
  pub run_tx-IsAtomic :
      (statements : Env → Db → Result (A × Db))
      → statements (commit_answered env) db ≡ statements env db
      → IsAtomic (λ env'. run_tx env' db (statements env')) env db
  unfolding run_tx
  run_tx-IsAtomic statements same e h = elim (Bool-cases (env.fails begin_stmt)) [
    | inl down ↦ inl (rw (down, run_tx) refl)
    | inr begun ↦ elim (Result-cases (statements env db)) [
      | inr (e', broken) ↦ inl (rw (begun, broken, run_tx) refl)
      | inl ((a, after), ran) ↦ elim (Bool-cases (env.fails commit_stmt)) [
        | inr committed ↦ absurd (ground (arith, begun, ran, committed))
        | inl unanswered ↦ elim (Bool-cases env.lands) [
          | inr lost ↦ inl (rw (begun, ran, unanswered, lost, run_tx) refl)
          | inl lands ↦
              all_done (λ env'. run_tx env' db (statements env')) env (commit_answered env) db after
                a lands (refl, refl, refl) (rw (begun, same, ran, run_tx) refl)
                (rw (begun, ran, unanswered, lands, run_tx) refl)
        ]
      ]
    ]
  ]

  -- A transaction that went through has run to its end.
  pub run_tx-ok :
      (statements : Db → Result (A × Db)) (a : A) {after : Db}
      → run_tx env db statements ≡ (ok a, after)
      → statements db ≡ ok (a, after)
  unfolding run_tx
  run_tx-ok statements a h = ground arith

refused-IsAtomic :
    {A : Type 0} (env : Env) (db : Db) (error_of : Env → Error)
    → IsAtomic {A = A} (λ env'. (err (error_of env'), db)) env db
refused-IsAtomic env db error_of e h = inl refl

module _ (r : PaymentRepo) (env : Env) (db : Db) where
  -- The check and the transaction of the two updates that tell the merchant.
  checked-IsAtomic :
      (i : ℕ) (from to : Status) (call : Env → Result (Unit {0}) × Db)
      → IsAtomic call env db
      → IsAtomic {A = Unit {0}}
          (λ env'. elim (check_update r i from to) [
            | err e ↦ (err e, db)
            | ok false ↦ (ok tt, db)
            | ok true ↦
                if not (valid_transition from to)
                then (err (sentinel invalid_status_transition (cannot_go from to)), db)
                else call env'
          ])
          env
          db
  checked-IsAtomic i from to call atomic = elim (Result-cases (check_update r i from to)) [
    | inr (e', bad) ↦ rw bad (refused-IsAtomic env db (λ env'. e'))
    | inl (false, idle) ↦ rw idle (λ e h. inl refl)
    | inl (true, checked) ↦ elim (Bool-cases (valid_transition from to)) [
      | inr invalid ↦ rw (checked, invalid) (refused-IsAtomic env db _)
      | inl valid ↦ rw (checked, valid) atomic
    ]
  ]

  pub create_payment-IsAtomic :
      (p : Option Payment) → IsAtomic (λ env'. create_payment r env' p db) env db
  unfolding create_payment insert_payment_row
  create_payment-IsAtomic p e h = elim (Bool-cases r.has_db) [
    | inr no_db ↦ inl (rw (create_payment, no_db) refl)
    | inl with_db ↦ elim (Result-cases (validate_payment_for_create p)) [
      | inr (e', bad) ↦ inl (rw (create_payment, with_db, bad) refl)
      | inl (q, good) ↦ elim (Bool-cases (env.fails insert_stmt)) [
        | inr up ↦ elim (Result-cases (insert_payment_row env (payment_row (stamped env q)) db)) [
          | inr (e', refused) ↦ inl (rw (create_payment, with_db, good, refused, up) refl)
          | inl (after, inserted) ↦
              let fine : (create_payment r env p db).0 ≡ ok (stamped env q) =
                rw (create_payment, with_db, good, inserted) refl in
              absurd cc
        ]
        | inl down ↦
            let failing : insert_payment_row env (payment_row (stamped env q)) db
                ≡ err (driver unavailable) =
              rw down refl in
            elim (Bool-cases env.lands) [
              | inr lost ↦
                  let neither : (env.fails insert_stmt && env.lands) ≡ false =
                    rw (down, lost) refl in
                  inl (rw (create_payment, with_db, good, failing, neither) refl)
              | inl lands ↦
                  let both : (env.fails insert_stmt && env.lands) ≡ true = rw (down, lands) refl in
                  elim (Result-cases
                    (insert_payment_row (answered env) (payment_row (stamped env q)) db)) [
                      | inr (e', refused) ↦
                          inl (rw (create_payment, with_db, good, failing, both, refused) refl)
                      | inl (after, inserted) ↦
                          all_done (λ env'. create_payment r env' p db) env (change_answered env) db
                            after (stamped env q) lands (refl, refl, refl)
                            (rw (create_payment, with_db, good, inserted) refl)
                            (rw (create_payment, with_db, good, failing, both, inserted) refl)
                    ]
            ]
      ]
    ]
  ]

  move_status-kept :
      (i : ℕ) (from to : Status) (e : Error)
      → (move_status env i from to db).0 ≡ err e
      → (move_status env i from to db).1 ≡ db
  move_status-kept i from to e h = ground arith

  moved_or_not :
      (i : ℕ) (from to : Status)
      → (((move_status env i from to db).1 ≡ db)
          ⊎ (move_status env i from to db ≡ (ok tt, (move_status env i from to db).1)))
  moved_or_not i from to = elim (Result-cases (move_status env i from to db).0) [
    | inr (e, failing) ↦ inl (move_status-kept i from to e failing)
    | inl (tt, fine) ↦ inr (ap (λ a. (a, (move_status env i from to db).1)) fine)
  ]

  -- The UPDATE outside a transaction.
  single-IsAtomic :
      (i : ℕ) (from to : Status) (lost_answer : Env → Error)
      → IsAtomic {A = Unit {0}}
          (λ env'.
            if env'.fails update_stmt
            then (
              err (lost_answer env'),
              if env'.lands then (move_status env' i from to db).1 else db,
            )
            else move_status env' i from to db)
          env
          db
  unfolding resolve_missing
  single-IsAtomic i from to lost_answer e h = elim (Bool-cases (env.fails update_stmt)) [
    | inr up ↦ inl (rw up (move_status-kept i from to e (rw up at h)))
    | inl down ↦ elim (Bool-cases env.lands) [
      | inr lost ↦ inl (rw (down, lost) refl)
      | inl lands ↦ elim (moved_or_not i from to) [
        | inl kept ↦ inl (rw (down, lands) kept)
        | inr moved ↦
            all_done _ env (change_answered env) db (move_status env i from to db).1 tt lands
              (refl, refl, refl) moved (rw (down, lands) refl)
      ]
    ]
  ]

  pub update_payment_status-IsAtomic :
      (i : ℕ) (from to : Status)
      → IsAtomic (λ env'. update_payment_status r env' i from to db) env db
  unfolding update_payment_status
  update_payment_status-IsAtomic i from to = elim (Result-cases (check_update r i from to)) [
    | inr (e', bad) ↦ rw (update_payment_status, bad) (refused-IsAtomic env db (λ env'. e'))
    | inl (false, idle) ↦ rw (update_payment_status, idle) (λ e h. inl refl)
    | inl (true, checked) ↦ elim (Bool-cases (valid_transition from to)) [
      | inr invalid ↦ rw (update_payment_status, checked, invalid) (refused-IsAtomic env db _)
      | inl valid ↦ rw (update_payment_status, checked, valid) (single-IsAtomic i from to _)
    ]
  ]

  pub update_payment_status_with_psp-IsAtomic :
      (i : ℕ) (from to : Status) (psp_name psp_reference_id : Text)
      → IsAtomic
          (λ env'. update_payment_status_with_psp r env' i from to psp_name psp_reference_id db)
          env
          db
  unfolding update_payment_status_with_psp update_and_enqueue update_returning resolve_missing
      enqueue_outbox_payment_event_tx enqueue_tx
  update_payment_status_with_psp-IsAtomic i from to n f = checked-IsAtomic i from to _ (
      run_tx-IsAtomic env db
        (λ env'.
          update_and_enqueue r env' update_status_with_psp i from
            (λ row. record row {
              status = to;
              psp = str_or_nil n;
              psp_reference_id = str_or_nil f;
              updated_at = pg_now env';
            })
            (event_source payment_success i to n f []))
        refl)

  pub update_payment_failed-IsAtomic :
      (i : ℕ) (from : Status) (psp_name psp_reference_id reason : Text)
      → IsAtomic
          (λ env'. update_payment_failed r env' i from psp_name psp_reference_id reason db)
          env
          db
  unfolding update_payment_failed update_and_enqueue update_returning resolve_missing
      enqueue_outbox_payment_event_tx enqueue_tx
  update_payment_failed-IsAtomic i from n f reason = checked-IsAtomic i from failed _ (
      run_tx-IsAtomic env db
        (λ env'.
          update_and_enqueue r env' update_failed i from
            (λ row. record row {
              status = failed;
              psp = str_or_nil n;
              psp_reference_id = str_or_nil f;
              failure_reason = str_or_nil reason;
              updated_at = pg_now env';
            })
            (event_source payment_failed i failed n f reason))
        refl)

  pub refund_payment_atomic-IsAtomic :
      (i : ℕ) (amount : ℤ) (key : Text)
      → IsAtomic (λ env'. refund_payment_atomic r env' i amount key db) env db
  unfolding refund_payment_atomic refund_tx insert_refund_row mark_refunded
      enqueue_outbox_payment_event_tx enqueue_tx
  refund_payment_atomic-IsAtomic i amount key = elim (Result-cases (check_refund r i amount key)) [
    | inr (e', bad) ↦ rw (refund_payment_atomic, bad) (refused-IsAtomic env db (λ env'. e'))
    | inl (trimmed, checked) ↦
        rw (refund_payment_atomic, checked)
          (run_tx-IsAtomic env db (λ env'. refund_tx r env' i amount trimmed) refl)
  ]

  -- Each of the five mutators of the payments, called with any arguments in any environment: where
  -- it returns an error, the payments, the refunds and the outbox are what they were; or, where only
  -- the answer to a COMMIT or to a change outside a transaction may be lost, they are exactly as the
  -- same call leaves them, with the same clock and ids, when it returns no error.
  pub mutators-IsAtomic :
      ((p : Option Payment) → IsAtomic (λ env'. create_payment r env' p db) env db)
      × ((i : ℕ) (from to : Status)
          → IsAtomic (λ env'. update_payment_status r env' i from to db) env db)
      × ((i : ℕ) (from to : Status) (psp_name psp_reference_id : Text)
          → IsAtomic
              (λ env'. update_payment_status_with_psp r env' i from to psp_name psp_reference_id db)
              env
              db)
      × ((i : ℕ) (from : Status) (psp_name psp_reference_id reason : Text)
          → IsAtomic
              (λ env'. update_payment_failed r env' i from psp_name psp_reference_id reason db)
              env
              db)
      × ((i : ℕ) (amount : ℤ) (key : Text)
          → IsAtomic (λ env'. refund_payment_atomic r env' i amount key db) env db)
  mutators-IsAtomic = (
    create_payment-IsAtomic, update_payment_status-IsAtomic,
    update_payment_status_with_psp-IsAtomic, update_payment_failed-IsAtomic,
    refund_payment_atomic-IsAtomic,
  )
