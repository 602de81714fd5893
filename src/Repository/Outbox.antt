-- ===== src/Repository/Outbox.antt =====
-- internal/repository/outbox_repo.go: the SQL statements as functions on the table of events. A
-- result beside a database is the database after the call.
pub mod Claims
use pay_flow_mock.Prelude.{
  ltb, leb, ◌==◌, if◌then◌else◌, take, ℤ, pos_part, is_nonpos, Text, ℕ, suc, ◌+◌, ◌*◌, ◌/◌, Bool,
  false, not, ◌&&◌, ◌||◌, none, some, List, [], ◌∷◌, map,
}
use pay_flow_mock.Domain.{processing, nil_id}
use pay_flow_mock.Domain.Outbox.{
  OutboxStatus, unset, pending, delivered, dead, OutboxEvent, outbox_status_eq,
}
use pay_flow_mock.Errors.{
  unique_violation, foreign_key_violation, unavailable, driver, event_id_required, event_not_found,
  stale_after_not_positive, Result, ok, err, fail_if, ◌>>=◌, ◌>>◌,
}
use pay_flow_mock.Repository.{
  Db, update_stmt, insert_event_stmt, select_stmt, Env, column_time, pg_now, find_payment,
  find_event, put_event, is_some,
}

abbrev pub or_time : ℕ → ℕ → ℕ
or_time t now = if t == 0 then now else t

abbrev or_pending : OutboxStatus → OutboxStatus
or_pending OutboxStatus.unset = OutboxStatus.pending
or_pending s = s

-- A change outside a transaction, whose answer may be lost, and it with its answer.
abbrev pub autocommit : {A : Type 0} → Env → Db → Result A × Db → Result A × Db
autocommit env db done = (
  if env.fails update_stmt then err (driver unavailable) else done.0,
  if env.fails update_stmt && not env.lands then db else done.1,
)

-- The row that EnqueueTx inserts for an event.
unfoldable pub event_row : ℕ → OutboxEvent → OutboxEvent
unfolding column_time
event_row now e = record e {
  status = or_pending e.status;
  created_at = column_time (or_time e.created_at now);
  updated_at = column_time (or_time e.updated_at now);
  next_retry_at = column_time (or_time e.next_retry_at now);
  delivered_at = column_time e.delivered_at;
}

-- EnqueueTx, on the tables as the transaction sees them. The table's primary key and its reference
-- to payments refuse a row.
unfoldable pub enqueue_tx : Env → OutboxEvent → Db → Result Db
unfolding event_row
enqueue_tx env e db = do
  fail_if (e.id == nil_id) event_id_required
  fail_if (env.fails insert_event_stmt) (driver unavailable)
  fail_if (is_some (find_event e.id db.outbox)) (driver unique_violation)
  fail_if (not (is_some (find_payment e.payment_id db.payments))) (driver foreign_key_violation)
  ok (record db { outbox = event_row env.now e ∷ db.outbox })

-- The WHERE clause and the lock test of the common table expression `due`. `locked` are the rows
-- that other transactions hold.
unfoldable pub is_due : Env → (ℕ → Bool) → OutboxEvent → Bool
is_due env locked e =
    outbox_status_eq e.status OutboxStatus.pending
    && (leb e.next_retry_at (pg_now env) && not (locked e.id))

unfoldable pub select_due : Env → (ℕ → Bool) → List OutboxEvent → List OutboxEvent
unfolding is_due
select_due env locked [] = []
select_due env locked (e ∷ events) =
    if is_due env locked e then e ∷ select_due env locked events else select_due env locked events

-- ORDER BY next_retry_at
unfoldable pub insert_ordered : OutboxEvent → List OutboxEvent → List OutboxEvent
insert_ordered e [] = e ∷ []
insert_ordered e (d ∷ events) =
    if leb e.next_retry_at d.next_retry_at then e ∷ d ∷ events else d ∷ insert_ordered e events

unfoldable pub order_by_next_retry : List OutboxEvent → List OutboxEvent
unfolding insert_ordered
order_by_next_retry [] = []
order_by_next_retry (e ∷ events) = insert_ordered e (order_by_next_retry events)

-- `SET status = 'PROCESSING', updated_at = NOW()`
abbrev pub claimed : ℕ → OutboxEvent → OutboxEvent
claimed now e = record e { status = OutboxStatus.processing; updated_at = now }

unfoldable pub is_among : ℕ → List OutboxEvent → Bool
is_among i [] = false
is_among i (e ∷ events) = e.id == i || is_among i events

-- `UPDATE outbox_events o … FROM due WHERE o.id = due.id`
unfoldable pub mark_claimed : ℕ → List OutboxEvent → List OutboxEvent → List OutboxEvent
unfolding is_among
mark_claimed now due [] = []
mark_claimed now due (e ∷ events) =
    (if is_among e.id due then claimed now e else e) ∷ mark_claimed now due events

-- ClaimBatch
unfoldable pub claim_batch : Env → (ℕ → Bool) → ℤ → Db → Result (List OutboxEvent) × Db
unfolding select_due order_by_next_retry mark_claimed
claim_batch env locked limit db =
    let size = if is_nonpos limit then 1 else pos_part limit in
    let due = take size (order_by_next_retry (select_due env locked db.outbox)) in
    autocommit env db (
      ok (map (claimed (pg_now env)) due),
      record db { outbox = mark_claimed (pg_now env) due db.outbox },
    )

unfoldable pub count_status : OutboxStatus → List OutboxEvent → ℕ
count_status s [] = 0
count_status s (e ∷ events) =
    let rest = count_status s events in if outbox_status_eq e.status s then suc rest else rest

-- CountPending
unfoldable pub count_pending : Env → Db → Result ℕ
unfolding count_status
count_pending env db =
    if env.fails select_stmt
    then err (driver unavailable)
    else ok (count_status OutboxStatus.pending db.outbox)

-- `updated_at < NOW() - micros`, with the microseconds of the duration
unfoldable pub is_stale : ℕ → ℕ → OutboxEvent → Bool
is_stale now micros e =
    outbox_status_eq e.status OutboxStatus.processing && ltb (e.updated_at + micros * 1000) now

unfoldable pub reclaim_rows : ℕ → ℕ → List OutboxEvent → List OutboxEvent
unfolding is_stale
reclaim_rows now micros [] = []
reclaim_rows now micros (e ∷ events) =
    (if is_stale now micros e
      then record e { status = OutboxStatus.pending; next_retry_at = now; updated_at = now }
      else e)
    ∷ reclaim_rows now micros events

unfoldable pub count_stale : ℕ → ℕ → List OutboxEvent → ℕ
unfolding is_stale
count_stale now micros [] = 0
count_stale now micros (e ∷ events) =
    let rest = count_stale now micros events in if is_stale now micros e then suc rest else rest

-- ReclaimStaleProcessing
unfoldable pub reclaim_stale_processing : Env → ℤ → Db → Result ℕ × Db
unfolding reclaim_rows count_stale
reclaim_stale_processing env stale_after db =
    if is_nonpos stale_after
    then (err stale_after_not_positive, db)
    else (let micros = pos_part stale_after / 1000 in
        autocommit env db (
          ok (count_stale (pg_now env) micros db.outbox),
          record db { outbox = reclaim_rows (pg_now env) micros db.outbox },
        ))

-- `UPDATE outbox_events SET … WHERE id = $1 AND status = 'PROCESSING'`, of the three Mark methods.
unfoldable pub update_processing :
    Env → ℕ → (OutboxEvent → OutboxEvent) → Db → Result (Unit {0}) × Db
update_processing env i f db = autocommit env db (elim (find_event i db.outbox) [
  | none ↦ (err event_not_found, db)
  | some e ↦
      if outbox_status_eq e.status OutboxStatus.processing
      then (ok tt, record db { outbox = put_event (f e) db.outbox })
      else (err event_not_found, db)
])

-- MarkDelivered
unfoldable pub mark_delivered : Env → ℕ → Db → Result (Unit {0}) × Db
mark_delivered env i = update_processing env i λ e. record e {
  status = OutboxStatus.delivered;
  delivered_at = pg_now env;
  last_error = [];
  updated_at = pg_now env;
}

-- MarkRetry
unfoldable pub mark_retry : Env → ℕ → ℕ → Text → Db → Result (Unit {0}) × Db
unfolding column_time
mark_retry env i next_at last_err = update_processing env i λ e. record e {
  status = OutboxStatus.pending;
  attempt_count = e.attempt_count + 1;
  next_retry_at = column_time next_at;
  last_error = last_err;
  updated_at = pg_now env;
}

-- MarkDead
unfoldable pub mark_dead : Env → ℕ → Text → Db → Result (Unit {0}) × Db
mark_dead env i last_err =
    update_processing env i
      λ e. record e { status = OutboxStatus.dead; last_error = last_err; updated_at = pg_now env }
