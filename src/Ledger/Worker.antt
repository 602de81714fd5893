-- ===== src/Ledger/Worker.antt =====
-- The outbox calls of the webhook worker rewrite events in place: each keeps its payment and its
-- kind, so no story changes.
use pay_flow_mock.Prelude.{
  Bool-cases, Option-cases, ℤ, pos_part, Text, ℕ, ◌/◌, ◌≡◌, refl, ap, ◌∙◌, inl, inr, Bool, not,
  ◌&&◌, some, List, [], ◌∷◌, arith,
}
use pay_flow_mock.Domain.Outbox.{OutboxEvent}
use pay_flow_mock.Repository.{Db, update_stmt, Env, pg_now, find_event, find_event-id}
use pay_flow_mock.Repository.Outbox.{
  mark_claimed, claim_batch, reclaim_rows, reclaim_stale_processing, update_processing,
  mark_delivered, mark_retry, mark_dead,
}
use pay_flow_mock.Ledger.Story.{events_of, IsConsistent}
use pay_flow_mock.Ledger.Change.{SameTale, events_of-put}

-- Only the outbox has changed, and of it no payment's list of event kinds.
pub record OnlyProgress (before after : Db) : Type 0 where
  pub same_payments : after.payments ≡ before.payments
  pub same_refunds : after.refunds ≡ before.refunds
  pub same_kinds : (j : ℕ) → events_of j after.outbox ≡ events_of j before.outbox

pub OnlyProgress-IsConsistent :
    (before after : Db) → OnlyProgress before after → IsConsistent before → IsConsistent after
OnlyProgress-IsConsistent before after p c = record {
  stories = λ j. rw (p.same_payments, p.same_refunds, p.same_kinds j) (c.stories j);
}

events_of-mark_claimed :
    (j now : ℕ) (due events : List OutboxEvent)
    → events_of j (mark_claimed now due events) ≡ events_of j events
unfolding events_of mark_claimed
events_of-mark_claimed j now due [] = refl
events_of-mark_claimed j now due (e ∷ events) =
    ground (arith, events_of-mark_claimed j now due events)

events_of-reclaim_rows :
    (j now micros : ℕ) (events : List OutboxEvent)
    → events_of j (reclaim_rows now micros events) ≡ events_of j events
unfolding events_of reclaim_rows
events_of-reclaim_rows j now micros [] = refl
events_of-reclaim_rows j now micros (e ∷ events) =
    ground (arith, events_of-reclaim_rows j now micros events)

module _ (env : Env) (db : Db) where
  pub claim_batch-OnlyProgress :
      (locked : ℕ → Bool) (limit : ℤ) → OnlyProgress db (claim_batch env locked limit db).1
  unfolding claim_batch
  claim_batch-OnlyProgress locked limit =
      elim (Bool-cases (env.fails update_stmt && not env.lands)) [
        | inl fault ↦
            rw fault (record { same_payments = refl; same_refunds = refl; same_kinds = λ j. refl })
        | inr fine ↦ rw fine (record {
          same_payments = refl;
          same_refunds = refl;
          same_kinds = λ j. events_of-mark_claimed j (pg_now env) _ db.outbox;
        })
      ]

  pub reclaim-OnlyProgress :
      (stale_after : ℤ) → OnlyProgress db (reclaim_stale_processing env stale_after db).1
  unfolding reclaim_stale_processing
  reclaim-OnlyProgress stale_after = record {
    same_payments = ground arith;
    same_refunds = ground arith;
    same_kinds = λ j.
        ground
          (arith, events_of-reclaim_rows j (pg_now env) (pos_part stale_after / 1000) db.outbox);
  }

  pub update_processing-OnlyProgress :
      (i : ℕ) (f : OutboxEvent → OutboxEvent)
      → ((e : OutboxEvent) → ((f e).id ≡ e.id) × SameTale e (f e))
      → OnlyProgress db (update_processing env i f db).1
  unfolding update_processing
  update_processing-OnlyProgress i f keeps = elim (Option-cases (find_event i db.outbox)) [
    | inl missing ↦ record {
      same_payments = ground arith;
      same_refunds = ground arith;
      same_kinds = λ j. ground arith;
    }
    | inr (e, found) ↦
        let in_place : find_event (f e).id db.outbox ≡ some e =
          ap (λ k. find_event k db.outbox) ((keeps e).0 ∙ find_event-id i db.outbox found)
          ∙ found in
        record {
          same_payments = ground arith;
          same_refunds = ground arith;
          same_kinds = λ j. ground (arith, events_of-put j (f e) e db.outbox in_place (keeps e).1);
        }
  ]

  pub mark_delivered-OnlyProgress : (i : ℕ) → OnlyProgress db (mark_delivered env i db).1
  unfolding mark_delivered
  mark_delivered-OnlyProgress i = update_processing-OnlyProgress i _ (λ e. (refl, (refl, refl)))

  pub mark_retry-OnlyProgress :
      (i next_at : ℕ) (last_err : Text) → OnlyProgress db (mark_retry env i next_at last_err db).1
  unfolding mark_retry
  mark_retry-OnlyProgress i next_at last_err =
      update_processing-OnlyProgress i _ (λ e. (refl, (refl, refl)))

  pub mark_dead-OnlyProgress :
      (i : ℕ) (last_err : Text) → OnlyProgress db (mark_dead env i last_err db).1
  unfolding mark_dead
  mark_dead-OnlyProgress i last_err = update_processing-OnlyProgress i _ (λ e. (refl, (refl, refl)))
