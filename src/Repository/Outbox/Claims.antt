-- ===== src/Repository/Outbox/Claims.antt =====
-- What ClaimBatch hands out.
use pay_flow_mock.Prelude.{
  ◌==◌, if◌then◌else◌, take, ℤ, pos_part, is_nonpos, ℕ, zero, suc, ◌≡◌, refl, sym, ap, ◌∙◌, Bool,
  true, false, ◌||◌, List, [], ◌∷◌, map, arith,
}
use pay_flow_mock.Domain.Outbox.{OutboxEvent, outbox_status_eq}
use pay_flow_mock.Errors.{ok}
use pay_flow_mock.Repository.{Db, Env, pg_now}
use pay_flow_mock.Repository.Outbox.{
  is_due, select_due, insert_ordered, order_by_next_retry, claimed, is_among, mark_claimed,
  claim_batch,
}

pub is_among-insert :
    (i : ℕ) (e : OutboxEvent) (events : List OutboxEvent)
    → is_among i (insert_ordered e events) ≡ (e.id == i || is_among i events)
unfolding insert_ordered is_among
is_among-insert i e [] = refl
is_among-insert i e (d ∷ events) = ground (arith, is_among-insert i e events)

pub is_among-order :
    (i : ℕ) (events : List OutboxEvent)
    → is_among i (order_by_next_retry events) ≡ is_among i events
unfolding order_by_next_retry is_among
is_among-order i [] = refl
is_among-order i (e ∷ events) =
    rw (is_among-insert i e (order_by_next_retry events), is_among-order i events)

pub is_among-take :
    (i n : ℕ) (events : List OutboxEvent)
    → is_among i (take n events) ≡ true
    → is_among i events ≡ true
unfolding is_among
is_among-take i zero events h = ground arith
is_among-take i (suc n) [] h = ground arith
is_among-take i (suc n) (e ∷ events) h = ground (arith, is_among-take i n events)

pub is_among-claimed :
    (i now : ℕ) (events : List OutboxEvent)
    → is_among i (map (claimed now) events) ≡ is_among i events
unfolding is_among
is_among-claimed i now [] = refl
is_among-claimed i now (e ∷ events) = rw (is_among-claimed i now events)

-- What is marked as claimed is not due.
pub is_among-remarked :
    (i now : ℕ) (env : Env) (locked : ℕ → Bool) (due events : List OutboxEvent)
    → is_among i (select_due env locked (mark_claimed now due events)) ≡ true
    → is_among i due ≡ false
unfolding is_among select_due mark_claimed is_due outbox_status_eq
is_among-remarked i now env locked due [] h = ground arith
is_among-remarked i now env locked due (e ∷ events) h =
    ground (arith, is_among-remarked i now env locked due events)

-- What a claim that went through has done.
record Claimed (env : Env) (locked : ℕ → Bool) (db : Db) (first : List OutboxEvent) (after : Db)
    : Type 0 where
  size : ℕ
  due : List OutboxEvent
  chosen : due ≡ take size (order_by_next_retry (select_due env locked db.outbox))
  handed : first ≡ map (claimed (pg_now env)) due
  marked : after.outbox ≡ mark_claimed (pg_now env) due db.outbox

claim_batch-ok :
    (env : Env) (locked : ℕ → Bool) (limit : ℤ) (db : Db) {first : List OutboxEvent} {after : Db}
    → claim_batch env locked limit db ≡ (ok first, after)
    → Claimed env locked db first after
unfolding claim_batch
claim_batch-ok env locked limit db h = record {
  size = if is_nonpos limit then 1 else pos_part limit;
  due =
      take (if is_nonpos limit then 1 else pos_part limit)
        (order_by_next_retry (select_due env locked db.outbox));
  chosen = refl;
  handed = ground arith;
  marked = ground arith;
}

-- Two claims, one after the other, hand out no event twice: not in other environments either, with
-- other rows locked and other limits.
pub claim_batch-disjoint :
    (env later : Env) (locked other_locked : ℕ → Bool) (limit other_limit : ℤ) (db : Db)
    {first second : List OutboxEvent} {after end : Db}
    → claim_batch env locked limit db ≡ (ok first, after)
    → claim_batch later other_locked other_limit after ≡ (ok second, end)
    → (i : ℕ) → is_among i second ≡ true
    → is_among i first ≡ false
claim_batch-disjoint env later locked other_locked limit other_limit db {first} {second} {after}
      {end} h h2 i in_second =
    let c = claim_batch-ok env locked limit db h in
    let c' = claim_batch-ok later other_locked other_limit after h2 in
    let in_due : is_among i c'.due ≡ true =
      sym (is_among-claimed i (pg_now later) c'.due)
      ∙ sym (ap (is_among i) c'.handed)
      ∙ in_second in
    let in_order : is_among i (order_by_next_retry (select_due later other_locked after.outbox))
        ≡ true =
      is_among-take i c'.size _ (sym (ap (is_among i) c'.chosen) ∙ in_due) in
    let still_due : is_among i
          (select_due later other_locked (mark_claimed (pg_now env) c.due db.outbox))
        ≡ true =
      sym (ap (λ t. is_among i (select_due later other_locked t)) c.marked)
      ∙ sym (is_among-order i (select_due later other_locked after.outbox))
      ∙ in_order in
    ap (is_among i) c.handed
    ∙ is_among-claimed i (pg_now env) c.due
    ∙ is_among-remarked i (pg_now env) later other_locked c.due db.outbox still_due
