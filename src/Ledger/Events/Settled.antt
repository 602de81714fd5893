-- ===== src/Ledger/Events/Settled.antt =====
-- The outbox calls keep the ids distinct, and settled events as they are.
use pay_flow_mock.Prelude.{
  ◌==◌, if◌then◌else◌, ==_iff, Bool-cases, Option-cases, some_inj, take, ℤ, pos_part, is_nonpos, ℕ,
  ◌/◌, ◌≡◌, refl, sym, ap, ◌∙◌, ◌≢◌, inl, inr, Bool, true, not, ◌&&◌, ◌||◌, none, some, List, ◌∷◌,
  arith,
}
use pay_flow_mock.Domain.Outbox.{OutboxStatus, OutboxEvent, outbox_status_eq, outbox_status_eq_iff}
use pay_flow_mock.Repository.{
  Db, update_stmt, Env, pg_now, find_event, put_event, find_event-put, find_event-id,
}
use pay_flow_mock.Repository.Outbox.{
  select_due, order_by_next_retry, is_among, claim_batch, is_stale, reclaim_rows,
  reclaim_stale_processing, update_processing,
}
use pay_flow_mock.Repository.Outbox.Claims.{is_among-order, is_among-take}
use pay_flow_mock.Ledger.Events.{
  HasDistinctIds, is_settled, EventOnward, EventOnward-refl, open-EventOnward, EventsOnward,
  claimed_if, reclaimed_if, find_event-mark_claimed, find_event-reclaim_rows,
  mark_claimed-HasDistinctIds, reclaim_rows-HasDistinctIds, put_event-HasDistinctIds, due-pending,
}

-- The events stay distinct, and each goes onward.
abbrev pub KeepsEvents : List OutboxEvent → List OutboxEvent → Type 0
KeepsEvents before after = HasDistinctIds before → HasDistinctIds after × EventsOnward before after

pub same-KeepsEvents : (before after : List OutboxEvent) → after ≡ before → KeepsEvents before after
same-KeepsEvents before after same distinct =
    rw same (distinct, (λ j e found. (e, found, EventOnward-refl e)))

pub added-KeepsEvents :
    (event : OutboxEvent) (before after : List OutboxEvent)
    → after ≡ event ∷ before
    → find_event event.id before ≡ none
    → KeepsEvents before after
added-KeepsEvents event before after more new distinct =
    rw more ((new, distinct), (λ j e found. (e, still j e found, EventOnward-refl e)))
  where
    still :
        (j : ℕ) (e : OutboxEvent)
        → find_event j before ≡ some e
        → find_event j (event ∷ before) ≡ some e
    still j e found = ground (arith, new)

pending-open : (e : OutboxEvent) → e.status ≡ OutboxStatus.pending → is_settled e ≢ true
unfolding outbox_status_eq
pending-open e was settled = ground (
  arith,
  outbox_status_eq_iff e.status OutboxStatus.delivered,
  outbox_status_eq_iff e.status OutboxStatus.dead,
)

processing-open : (e : OutboxEvent) → e.status ≡ OutboxStatus.processing → is_settled e ≢ true
unfolding outbox_status_eq
processing-open e was settled = ground (
  arith,
  outbox_status_eq_iff e.status OutboxStatus.delivered,
  outbox_status_eq_iff e.status OutboxStatus.dead,
)

claimed_if-EventOnward :
    (env : Env) (locked : ℕ → Bool) (size : ℕ) (events : List OutboxEvent) (j : ℕ) (e : OutboxEvent)
    → HasDistinctIds events
    → find_event j events ≡ some e
    → EventOnward e
        (claimed_if (pg_now env) (take size (order_by_next_retry (select_due env locked events))) e)
claimed_if-EventOnward env locked size events j e distinct found =
    let due = take size (order_by_next_retry (select_due env locked events)) in
    elim (Bool-cases (is_among e.id due)) [
      | inr free ↦ rw free (EventOnward-refl e)
      | inl chosen ↦
          let among : is_among j (select_due env locked events) ≡ true =
            sym (is_among-order j (select_due env locked events))
            ∙ is_among-take j size _
                (ap (λ k. is_among k due) (sym (find_event-id j events found)) ∙ chosen) in
          let was_pending = due-pending env locked j events distinct found among in
          rw chosen (open-EventOnward e _ (pending-open e was_pending) refl (omega arith))
    ]

put_event-KeepsEvents :
    (events : List OutboxEvent) (i : ℕ) (old new : OutboxEvent)
    → find_event i events ≡ some old
    → EventOnward old new
    → KeepsEvents events (put_event new events)
put_event-KeepsEvents events i old new found onward distinct =
    (put_event-HasDistinctIds new events distinct, each)
  where
    each : EventsOnward events (put_event new events)
    each j e at_j = elim (Bool-cases (new.id == j)) [
      | inr another ↦ (e, ground (arith, find_event-put j new events), EventOnward-refl e)
      | inl this ↦
          let at_i : j ≡ i =
            sym ((==_iff _ _).0 this) ∙ onward.same_id ∙ find_event-id i events found in
          let same : e ≡ old = some_inj (sym at_j ∙ ap (λ k. find_event k events) at_i ∙ found) in
          (new, ground (arith, find_event-put j new events), rw same onward)
    ]

module _ (env : Env) (db : Db) where
  pub claim_batch-KeepsEvents :
      (locked : ℕ → Bool) (limit : ℤ)
      → KeepsEvents db.outbox (claim_batch env locked limit db).1.outbox
  unfolding claim_batch
  claim_batch-KeepsEvents locked limit distinct =
      elim (Bool-cases (env.fails update_stmt && not env.lands)) [
        | inl fault ↦ rw fault (same-KeepsEvents db.outbox db.outbox refl distinct)
        | inr fine ↦
            let due =
              take (if is_nonpos limit then 1 else pos_part limit)
                (order_by_next_retry (select_due env locked db.outbox)) in
            rw fine (
              mark_claimed-HasDistinctIds (pg_now env) due db.outbox distinct,
              (λ j e found. (
                claimed_if (pg_now env) due e,
                find_event-mark_claimed j (pg_now env) due db.outbox ∙ rw found refl,
                claimed_if-EventOnward env locked _ db.outbox j e distinct found,
              )),
            )
      ]

  reclaimed_if-EventOnward :
      (now micros : ℕ) (e : OutboxEvent) → EventOnward e (reclaimed_if now micros e)
  unfolding is_stale
  reclaimed_if-EventOnward now micros e = elim (Bool-cases (is_stale now micros e)) [
    | inr recent ↦ rw recent (EventOnward-refl e)
    | inl stale ↦ rw stale (
        open-EventOnward e _
          (processing-open e
            (ground (arith, outbox_status_eq_iff e.status OutboxStatus.processing)))
          refl (omega arith))
  ]

  pub reclaim-KeepsEvents :
      (stale_after : ℤ)
      → KeepsEvents db.outbox (reclaim_stale_processing env stale_after db).1.outbox
  unfolding reclaim_stale_processing
  reclaim-KeepsEvents stale_after distinct =
      elim (Bool-cases (is_nonpos stale_after || (env.fails update_stmt && not env.lands))) [
        | inl idle ↦ same-KeepsEvents db.outbox _ (ground arith) distinct
        | inr runs ↦
            let micros = pos_part stale_after / 1000 in
            let written : (reclaim_stale_processing env stale_after db).1.outbox
                ≡ reclaim_rows (pg_now env) micros db.outbox =
              ground arith in
            rw written (
              reclaim_rows-HasDistinctIds (pg_now env) micros db.outbox distinct,
              (λ j e found. (
                reclaimed_if (pg_now env) micros e,
                find_event-reclaim_rows j (pg_now env) micros db.outbox ∙ rw found refl,
                reclaimed_if-EventOnward (pg_now env) micros e,
              )),
            )
      ]

  pub update_processing-KeepsEvents :
      (i : ℕ) (f : OutboxEvent → OutboxEvent)
      → ((e : OutboxEvent) → is_settled e ≢ true → EventOnward e (f e))
      → KeepsEvents db.outbox (update_processing env i f db).1.outbox
  unfolding update_processing
  update_processing-KeepsEvents i f onward distinct = elim (Option-cases (find_event i db.outbox)) [
    | inl missing ↦ same-KeepsEvents db.outbox _ (ground arith) distinct
    | inr (e, found) ↦
        elim (Bool-cases (
          (env.fails update_stmt && not env.lands)
          || not (outbox_status_eq e.status OutboxStatus.processing))) [
            | inl refused ↦ same-KeepsEvents db.outbox _ (ground arith) distinct
            | inr runs ↦
                let written : (update_processing env i f db).1.outbox ≡ put_event (f e) db.outbox =
                  ground arith in
                let unsettled : is_settled e ≢ true =
                  processing-open e
                    (ground (arith, outbox_status_eq_iff e.status OutboxStatus.processing)) in
                rw written
                  (put_event-KeepsEvents db.outbox i e (f e) found (onward e unsettled) distinct)
          ]
  ]
