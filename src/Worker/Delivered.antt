-- ===== src/Worker/Delivered.antt =====
-- A poll of internal/worker/webhook_worker.go while all goes well: what is due gets delivered.
use pay_flow_mock.Prelude.{
  ◌==◌, ==_iff, ==_ne, Bool-cases, Option-cases, All, is_empty, trim_space, ℕ, ◌≡◌, refl, sym, ap,
  subst, ◌∙◌, ◌≢◌, inl, inr, true, false, not, ◌&&◌, some, List, [], ◌∷◌, arith,
}
use pay_flow_mock.Domain.Outbox.{OutboxStatus, OutboxEvent, outbox_status_eq}
use pay_flow_mock.Floats.{Float64}
use pay_flow_mock.Repository.{Db, update_stmt, Env, find_event, find_event-put, find_event-id}
use pay_flow_mock.Repository.Outbox.{is_among, update_processing, mark_delivered}
use pay_flow_mock.Worker.Accepted.{IsAccepted, accepted-no_error}
use pay_flow_mock.Service.{State}
use pay_flow_mock.Worker.Verdict.{update_processing-found}
use pay_flow_mock.Worker.{
  WebhookRequest, WorkerCall, mark_call, World, Worker, webhook_request, deliver_event,
  record_delivery, handle_one, handle_all,
}

abbrev pub HasUrl : OutboxEvent → Type 0
HasUrl e = is_empty (trim_space e.webhook_url) ≡ false

-- The event is in the table, in this status.
abbrev pub IsIn : OutboxStatus → ℕ → Db → Type 0
IsIn status i db = (e : OutboxEvent) × (find_event i db.outbox ≡ some e) × (e.status ≡ status)

-- An order of deliveries: the events are the same.
pub record Reorders (schedule : List OutboxEvent → List OutboxEvent) : Type 1 where
  pub same_ids :
      (i : ℕ) (events : List OutboxEvent) → is_among i (schedule events) ≡ is_among i events
  pub same_events :
      (P : OutboxEvent → Type 0) (events : List OutboxEvent)
      → All P events
      → All P (schedule events)

-- A Mark call leaves other events alone, and one that is delivered too.
update_processing-other :
    (env : Env) (i j : ℕ) (f : OutboxEvent → OutboxEvent) (db : Db)
    → ((e : OutboxEvent) → (f e).id ≡ e.id)
    → i ≢ j
    → find_event j (update_processing env i f db).1.outbox ≡ find_event j db.outbox
unfolding update_processing
update_processing-other env i j f db same ne =
    elim (Bool-cases (env.fails update_stmt && not env.lands)) [
      | inl down ↦ rw (down, update_processing) refl
      | inr up ↦ elim (Option-cases (find_event i db.outbox)) [
        | inl missing ↦ rw (up, missing, update_processing) refl
        | inr (e, found) ↦ elim (Bool-cases (outbox_status_eq e.status OutboxStatus.processing)) [
          | inr other ↦ rw (up, found, other, update_processing) refl
          | inl held ↦
              let elsewhere : ((f e).id == j) ≡ false =
                ==_ne _ _ (λ at_j. ne (sym (same e ∙ find_event-id i db.outbox found) ∙ at_j)) in
              rw (up, found, held, update_processing)
                (find_event-put j (f e) db.outbox ∙ rw elsewhere refl)
        ]
      ]
    ]

update_processing-delivered :
    (env : Env) (i : ℕ) (f : OutboxEvent → OutboxEvent) (db : Db)
    → IsIn OutboxStatus.delivered i db
    → (update_processing env i f db).1 ≡ db
unfolding update_processing outbox_status_eq
update_processing-delivered env i f db (e, found, sent) =
    elim (Bool-cases (env.fails update_stmt && not env.lands)) [
      | inl down ↦ rw (down, update_processing) refl
      | inr up ↦ rw (up, found, sent, update_processing) refl
    ]

module _ {fl : Float64} {X : Type 0} (world : World fl X) (w : Worker fl.F)
    (quiet : (c : WorkerCall) (s : State X) → (world.before c s).1 ≡ s)
    (up : (c : WorkerCall) (s : State X) → (world.before c s).0.fails update_stmt ≡ false)
    (alive : (x : X) → world.is_cancelled x ≡ false)
    (accepted : (req : WebhookRequest) (x : X) → IsAccepted (world.post req x).0) where
  -- The clock and the ids of the Mark call after a delivery.
  abbrev env_after : OutboxEvent → Db → X → Env
  env_after evt db x = (world.before mark_call (db, (deliver_event world w evt x).1)).0

  handle_one-marks :
      (evt : OutboxEvent) (db : Db) (x : X)
      → HasUrl evt
      → (handle_one world w evt (db, x)).0 ≡ (mark_delivered (env_after evt db x) evt.id db).1
  unfolding handle_one deliver_event record_delivery
  handle_one-marks evt db x url =
      let taken =
        accepted-no_error (world.post (webhook_request world w evt) x).0
          (accepted (webhook_request world w evt) x) in
      rw (url, alive, taken, quiet mark_call (db, (deliver_event world w evt x).1)) refl

  -- A delivery of the event itself, from processing.
  marked-delivered :
      (env : Env) (i : ℕ) (db : Db)
      → env.fails update_stmt ≡ false
      → IsIn OutboxStatus.processing i db
      → IsIn OutboxStatus.delivered i (mark_delivered env i db).1
  unfolding mark_delivered
  marked-delivered env i db fine (e, found, held) =
      (_, update_processing-found env i _ db e fine found held refl, refl)

  -- One delivery more keeps an event where it is, or delivers it.
  handle_one-keeps :
      (status : OutboxStatus) (evt : OutboxEvent) (i : ℕ) (db : Db) (x : X)
      → HasUrl evt
      → evt.id ≢ i
      → IsIn status i db
      → IsIn status i (handle_one world w evt (db, x)).0
  unfolding mark_delivered
  handle_one-keeps status evt i db x url ne (e, found, same) = (
    e,
    ap (λ d. find_event i d.outbox) (handle_one-marks evt db x url)
        ∙ update_processing-other (env_after evt db x) evt.id i _ db (λ e. refl) ne
        ∙ found,
    same,
  )

  handle_one-stays :
      (evt : OutboxEvent) (i : ℕ) (db : Db) (x : X)
      → HasUrl evt
      → IsIn OutboxStatus.delivered i db
      → IsIn OutboxStatus.delivered i (handle_one world w evt (db, x)).0
  unfolding mark_delivered
  handle_one-stays evt i db x url sent = elim (Bool-cases (evt.id == i)) [
    | inr other ↦
        handle_one-keeps OutboxStatus.delivered evt i db x url
          (λ e. cc (other, (==_iff evt.id i).1 e)) sent
    | inl here ↦
        let its : IsIn OutboxStatus.delivered evt.id db =
          subst (λ j. IsIn OutboxStatus.delivered j db) (sym ((==_iff evt.id i).0 here)) sent in
        subst (IsIn OutboxStatus.delivered i)
          (sym (
            handle_one-marks evt db x url
            ∙ update_processing-delivered (env_after evt db x) evt.id _ db its))
          sent
  ]

  handle_all-stays :
      (events : List OutboxEvent) (i : ℕ) (s : State X)
      → All HasUrl events
      → IsIn OutboxStatus.delivered i s.0
      → IsIn OutboxStatus.delivered i (handle_all world w events s).0
  unfolding handle_all
  handle_all-stays [] i s urls sent = sent
  handle_all-stays (evt ∷ events) i s urls sent =
      handle_all-stays events i (handle_one world w evt s) urls.1
        (handle_one-stays evt i s.0 s.1 urls.0 sent)

  -- Every event of the list that is in processing gets delivered.
  pub handle_all-delivers :
      (events : List OutboxEvent) (i : ℕ) (s : State X)
      → All HasUrl events
      → is_among i events ≡ true
      → IsIn OutboxStatus.processing i s.0
      → IsIn OutboxStatus.delivered i (handle_all world w events s).0
  unfolding handle_all is_among
  handle_all-delivers [] i s urls among held = absurd cc
  handle_all-delivers (evt ∷ events) i s urls among held = elim (Bool-cases (evt.id == i)) [
    | inl here ↦
        let same = (==_iff evt.id i).0 here in
        handle_all-stays events i (handle_one world w evt s) urls.1 (
          subst (IsIn OutboxStatus.delivered i) (sym (handle_one-marks evt s.0 s.1 urls.0)) (
            subst
              (λ j. IsIn OutboxStatus.delivered i (mark_delivered (env_after evt s.0 s.1) j s.0).1)
              (sym same) (marked-delivered (env_after evt s.0 s.1) i s.0 (up mark_call _) held)))
    | inr other ↦ handle_all-delivers events i (handle_one world w evt s) urls.1 (ground arith) (
        handle_one-keeps OutboxStatus.processing evt i s.0 s.1 urls.0
          (λ e. cc (other, (==_iff evt.id i).1 e)) held)
  ]
