-- ===== src/Ledger/Events.antt =====
-- What a step may do to an event of the outbox, row by row of the statements of
-- internal/repository/outbox_repo.go.
pub mod Settled
pub mod Final
use pay_flow_mock.Prelude.{
  ◌==◌, if◌then◌else◌, Bool-cases, ℕ, ◌≤◌, ◌≡◌, refl, ap, ◌≢◌, inl, inr, Bool, true, false, ◌||◌,
  Option, none, some, List, [], ◌∷◌, arith,
}
use pay_flow_mock.Domain.Outbox.{
  OutboxStatus, pending, delivered, dead, OutboxEvent, outbox_status_eq, outbox_status_eq_iff,
}
use pay_flow_mock.Repository.{Env, find_event, put_event, find_event-put}
use pay_flow_mock.Repository.Outbox.{
  is_due, select_due, claimed, is_among, mark_claimed, is_stale, reclaim_rows,
}

-- No two events have one id: the table's primary key.
abbrev pub HasDistinctIds : List OutboxEvent → Type 0
HasDistinctIds [] = Unit
HasDistinctIds (e ∷ events) = (find_event e.id events ≡ none) × HasDistinctIds events

-- An event that the worker is done with.
abbrev pub is_settled : OutboxEvent → Bool
is_settled e =
    outbox_status_eq e.status OutboxStatus.delivered || outbox_status_eq e.status OutboxStatus.dead

-- The same message, with no fewer attempts; settled, it has not changed at all.
pub record EventOnward (old new : OutboxEvent) : Type 0 where
  pub same_id : new.id ≡ old.id
  pub same_payment : new.payment_id ≡ old.payment_id
  pub same_kind : new.event_type ≡ old.event_type
  pub same_url : new.webhook_url ≡ old.webhook_url
  pub same_payload : new.payload ≡ old.payload
  pub no_fewer_attempts : old.attempt_count ≤ new.attempt_count
  pub final : is_settled old ≡ true → new ≡ old

pub EventOnward-refl : (e : OutboxEvent) → EventOnward e e
EventOnward-refl e = record {
  same_id = refl;
  same_payment = refl;
  same_kind = refl;
  same_url = refl;
  same_payload = refl;
  no_fewer_attempts = omega arith;
  final = λ h. refl;
}

-- A change of an open event in what the worker keeps of it.
pub open-EventOnward :
    (old new : OutboxEvent)
    → is_settled old ≢ true
    → new ≡ record old {
      status = new.status;
      last_error = new.last_error;
      attempt_count = new.attempt_count;
      next_retry_at = new.next_retry_at;
      delivered_at = new.delivered_at;
      updated_at = new.updated_at;
    }
    → old.attempt_count ≤ new.attempt_count
    → EventOnward old new
open-EventOnward old new unsettled same attempts = record {
  same_id = ap (λ e. e.id) same;
  same_payment = ap (λ e. e.payment_id) same;
  same_kind = ap (λ e. e.event_type) same;
  same_url = ap (λ e. e.webhook_url) same;
  same_payload = ap (λ e. e.payload) same;
  no_fewer_attempts = attempts;
  final = λ settled. absurd (unsettled settled);
}

abbrev pub EventsOnward : List OutboxEvent → List OutboxEvent → Type 0
EventsOnward before after =
    (j : ℕ) (e : OutboxEvent)
    → find_event j before ≡ some e
    → (new : OutboxEvent) × (find_event j after ≡ some new) × EventOnward e new

abbrev on_found : (OutboxEvent → OutboxEvent) → Option OutboxEvent → Option OutboxEvent
on_found f none = none
on_found f (some e) = some (f e)

abbrev pub claimed_if : ℕ → List OutboxEvent → OutboxEvent → OutboxEvent
claimed_if now due e = if is_among e.id due then claimed now e else e

abbrev pub reclaimed_if : ℕ → ℕ → OutboxEvent → OutboxEvent
reclaimed_if now micros e =
    if is_stale now micros e
    then record e { status = OutboxStatus.pending; next_retry_at = now; updated_at = now }
    else e

pub find_event-mark_claimed :
    (j now : ℕ) (due events : List OutboxEvent)
    → find_event j (mark_claimed now due events)
      ≡ on_found (claimed_if now due) (find_event j events)
unfolding mark_claimed
find_event-mark_claimed j now due [] = refl
find_event-mark_claimed j now due (e ∷ events) =
    ground (arith, find_event-mark_claimed j now due events)

pub find_event-reclaim_rows :
    (j now micros : ℕ) (events : List OutboxEvent)
    → find_event j (reclaim_rows now micros events)
      ≡ on_found (reclaimed_if now micros) (find_event j events)
unfolding reclaim_rows
find_event-reclaim_rows j now micros [] = refl
find_event-reclaim_rows j now micros (e ∷ events) =
    ground (arith, find_event-reclaim_rows j now micros events)

pub mark_claimed-HasDistinctIds :
    (now : ℕ) (due events : List OutboxEvent)
    → HasDistinctIds events
    → HasDistinctIds (mark_claimed now due events)
unfolding mark_claimed
mark_claimed-HasDistinctIds now due [] h = tt
mark_claimed-HasDistinctIds now due (e ∷ events) (new, rest) = (
  ground (arith, find_event-mark_claimed e.id now due events),
  mark_claimed-HasDistinctIds now due events rest,
)

pub reclaim_rows-HasDistinctIds :
    (now micros : ℕ) (events : List OutboxEvent)
    → HasDistinctIds events
    → HasDistinctIds (reclaim_rows now micros events)
unfolding reclaim_rows
reclaim_rows-HasDistinctIds now micros [] h = tt
reclaim_rows-HasDistinctIds now micros (e ∷ events) (new, rest) = (
  ground (arith, find_event-reclaim_rows e.id now micros events),
  reclaim_rows-HasDistinctIds now micros events rest,
)

pub put_event-HasDistinctIds :
    (event : OutboxEvent) (events : List OutboxEvent)
    → HasDistinctIds events
    → HasDistinctIds (put_event event events)
put_event-HasDistinctIds event [] h = tt
put_event-HasDistinctIds event (e ∷ events) (new, rest) = elim (Bool-cases (e.id == event.id)) [
  | inl same ↦ rw same (ground (arith), rest)
  | inr other ↦
      rw other (
        ground (arith, find_event-put e.id event events),
        put_event-HasDistinctIds event events rest,
      )
]

-- An event that no table holds is not due in it; one that is due was pending.
none_due :
    (env : Env) (locked : ℕ → Bool) (j : ℕ) (events : List OutboxEvent)
    → find_event j events ≡ none
    → is_among j (select_due env locked events) ≡ false
unfolding is_among select_due
none_due env locked j [] h = refl
none_due env locked j (e ∷ events) h = ground (arith, none_due env locked j events)

pub due-pending :
    (env : Env) (locked : ℕ → Bool) (j : ℕ) (events : List OutboxEvent) {e : OutboxEvent}
    → HasDistinctIds events
    → find_event j events ≡ some e
    → is_among j (select_due env locked events) ≡ true
    → e.status ≡ OutboxStatus.pending
unfolding is_among select_due is_due
due-pending env locked j [] d h chosen = ground arith
due-pending env locked j (q ∷ events) {e} (new, rest) h chosen = ground (
  arith,
  none_due env locked j events,
  due-pending env locked j events {e = e} rest,
  outbox_status_eq_iff e.status OutboxStatus.pending,
)
