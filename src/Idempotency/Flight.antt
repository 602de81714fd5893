-- ===== src/Idempotency/Flight.antt =====
-- Many requests at once under the Redis lock of internal/middleware/idempotency.go: who runs.
mod Tests
use pay_flow_mock.Prelude.{
  All, All-without, All-map, All-zip, Text, text_eq, map_get, map_set, ℕ, ◌+◌, ◌≤◌, ◌<◌, ◌≡◌, sym,
  ap, subst, ◌∙◌, ◌≢◌, ◌⊎◌, inl, inr, true, false, none, some, List, [], ◌∷◌, ◌++◌, arith,
}
use pay_flow_mock.Idempotency.{
  redis_lock, LockHandle, Stores, Idempotency, redis_set_nx, StoreEnv, default_lock_ttl,
  duration_or, lock_key, redis_read,
}
use pay_flow_mock.Idempotency.LockTable.{
  redis_read-map_get, enter-lock, leave-locks, some_not_none, kept, placed,
}
use pay_flow_mock.Idempotency.Locks.{acquired, try_acquire_lock, release_lock}

-- A request whose handler runs, and the time at which its lock lapses.
pub record Flight : Type 0 where
  pub handle : LockHandle
  pub until : ℕ

pub record FlightState : Type 0 where
  pub now : ℕ
  pub stores : Stores
  pub flights : List Flight

abbrev pub lock_of : Flight → Text
lock_of f = lock_key f.handle.key

module _ (m : Idempotency) where
  -- Time passes; a request gets its lock from Redis; anything is written that is no lock; a request
  -- ends while its lock lasts, or later, when Redis no longer shows its token.
  pub data FlightStep : FlightState → FlightState → Type 0 where
    pass :
        {st : FlightState} (later : ℕ) → st.now ≤ later → FlightStep st (record st { now = later })
    enter :
        {st : FlightState} (env : StoreEnv) (scope key path method token : Text) {h : LockHandle}
        {after : Stores}
        → env.now ≡ st.now
        → env.fails redis_set_nx ≡ false
        → try_acquire_lock m env scope key path method token st.stores ≡ (acquired h, after)
        → FlightStep st (record {
          now = st.now;
          stores = after;
          flights =
              record { handle = h; until = st.now + duration_or m.lock_ttl default_lock_ttl }
              ∷ st.flights;
        })
    write :
        {st : FlightState} (after : Stores)
        → after.locks ≡ st.stores.locks
        → FlightStep st (record st { stores = after })
    leave :
        {now : ℕ} {s : Stores} (front : List Flight) (f : Flight) (back : List Flight)
        (env : StoreEnv)
        → env.now ≡ now
        → f.handle.kind ≡ redis_lock
        → (now < f.until) ⊎ (redis_read now (lock_of f) s.locks ≢ some f.handle.token)
        → FlightStep
            (record { now = now; stores = s; flights = front ++ f ∷ back })
            (record { now = now; stores = release_lock m env f.handle s; flights = front ++ back })

  pub data FlightReach : FlightState → Type 0 where
    at_start : (now : ℕ) (s : Stores) → FlightReach (record { now = now; stores = s; flights = [] })
    after_step : {s t : FlightState} → FlightReach s → FlightStep s t → FlightReach t

  -- Two requests whose locks both last have different locks.
  abbrev pub Differ : ℕ → Flight → Flight → Type 0
  Differ now f g = now < f.until → now < g.until → lock_of f ≢ lock_of g

  abbrev pub Apart : ℕ → List Flight → Type 0
  Apart now [] = Unit
  Apart now (f ∷ fs) = All (Differ now f) fs × Apart now fs

  -- While it lasts, Redis holds the lock of a request with its token and its time.
  abbrev Holds : ℕ → List (Text × (Text × ℕ)) → Flight → Type 0
  Holds now locks f =
      now < f.until → map_get text_eq (lock_of f) locks ≡ some (f.handle.token, f.until)

  record Inv (st : FlightState) : Type 0 where
    held : All (Holds st.now st.stores.locks) st.flights
    apart : Apart st.now st.flights

  Apart-later : (now later : ℕ) (fs : List Flight) → now ≤ later → Apart now fs → Apart later fs
  Apart-later now later [] h a = tt
  Apart-later now later (f ∷ fs) h a = (
    All-map (Differ now f) (Differ later f) fs
        (λ g d f_lasts g_lasts. d (omega arith) (omega arith)) a.0,
    Apart-later now later fs h a.1,
  )

  Apart-without :
      (now : ℕ) (front : List Flight) (f : Flight) (back : List Flight)
      → Apart now (front ++ f ∷ back)
      → Apart now (front ++ back) × All (Differ now f) (front ++ back)
  Apart-without now [] f back a = (a.1, a.0)
  Apart-without now (g ∷ front) f back a =
      let (apart, others) = Apart-without now front f back a.1 in
      let (here, rest) = All-without (Differ now g) front f back a.0 in
      ((rest, apart), ((λ f_lasts g_lasts same. here g_lasts f_lasts (sym same)), others))

  module _ (redis : m.has_redis ≡ true) where
    enter-Inv :
        {st : FlightState} (env : StoreEnv) (scope key path method token : Text) {h : LockHandle}
        {after : Stores}
        → env.now ≡ st.now
        → env.fails redis_set_nx ≡ false
        → try_acquire_lock m env scope key path method token st.stores ≡ (acquired h, after)
        → Inv st
        → Inv (record {
          now = st.now;
          stores = after;
          flights =
              record { handle = h; until = st.now + duration_or m.lock_ttl default_lock_ttl }
              ∷ st.flights;
        })
    enter-Inv {st} env scope key path method token {h} {after} same_time up taken inv =
        let (free, made, written) =
          enter-lock m env scope key path method token st.stores redis up taken in
        let lock = lock_key scope in
        let expires = st.now + duration_or m.lock_ttl default_lock_ttl in
        let its_lock : lock_key h.key ≡ lock = ap (λ k. lock_key k.key) made in
        let now_free : redis_read st.now lock st.stores.locks ≡ none =
          subst (λ t. redis_read t lock st.stores.locks ≡ none) same_time free in
        let set : after.locks ≡ map_set text_eq lock (token, expires) st.stores.locks =
          written
          ∙ ap
              (λ t.
                map_set text_eq lock (token, t + duration_or m.lock_ttl default_lock_ttl)
                  st.stores.locks)
              same_time in
        let elsewhere : (g : Flight)
            → Holds st.now st.stores.locks g
            → st.now < g.until
            → lock ≢ lock_of g =
          λ g holds lasts same.
            some_not_none m
              (redis_read-map_get m st.now (lock_of g) st.stores.locks (holds lasts) lasts)
              (subst (λ k. redis_read st.now k st.stores.locks ≡ none) same now_free) in
        record {
          held = (
            (λ lasts.
                subst (λ k. map_get text_eq (lock_key k.key) after.locks ≡ some (k.token, expires))
                  (sym made) (placed m lock (token, expires) st.stores.locks after.locks set)),
            All-map (Holds st.now st.stores.locks) (Holds st.now after.locks) st.flights
                (λ g holds lasts.
                  kept m lock (lock_of g) (token, expires) st.stores.locks after.locks set
                    (elsewhere g holds lasts)
                  ∙ holds lasts)
                inv.held,
          );
          apart = (
            All-map (Holds st.now st.stores.locks)
                (Differ st.now (record { handle = h; until = expires })) st.flights
                (λ g holds lasts g_lasts same. elsewhere g holds g_lasts (sym its_lock ∙ same))
                inv.held,
            inv.apart,
          );
        }

    leave-Inv :
        {now : ℕ} {s : Stores} (front : List Flight) (f : Flight) (back : List Flight)
        (env : StoreEnv)
        → env.now ≡ now
        → f.handle.kind ≡ redis_lock
        → (now < f.until) ⊎ (redis_read now (lock_of f) s.locks ≢ some f.handle.token)
        → Inv (record { now = now; stores = s; flights = front ++ f ∷ back })
        → Inv
            (record { now = now; stores = release_lock m env f.handle s; flights = front ++ back })
    leave-Inv {now} {s} front f back env same_time kind ends inv =
        let (apart, differ) = Apart-without now front f back inv.apart in
        let (_, others) = All-without (Holds now s.locks) front f back inv.held in
        record {
          held =
              All-zip (Holds now s.locks) (Differ now f)
                (Holds now (release_lock m env f.handle s).locks) (front ++ back)
                (λ g holds d g_lasts.
                  leave-locks m env f.handle s (lock_of g) kind (elim ends [
                    | inl f_lasts ↦ inl (d f_lasts g_lasts)
                    | inr hidden ↦ inr (
                        subst (λ t. redis_read t (lock_of f) s.locks ≢ some f.handle.token)
                          (sym same_time) hidden)
                  ])
                  ∙ holds g_lasts)
                others differ;
          apart = apart;
        }

    FlightStep-Inv : {st after : FlightState} → FlightStep st after → Inv st → Inv after
    FlightStep-Inv {st} (pass later h) inv = record {
      held =
          All-map (Holds st.now st.stores.locks) (Holds later st.stores.locks) st.flights
            (λ f holds lasts. holds (omega arith)) inv.held;
      apart = Apart-later st.now later st.flights h inv.apart;
    }
    FlightStep-Inv (enter env scope key path method token same_time up taken) inv =
        enter-Inv env scope key path method token same_time up taken inv
    FlightStep-Inv {st} (write after same) inv = record {
      held = subst (λ locks. All (Holds st.now locks) st.flights) (sym same) inv.held;
      apart = inv.apart;
    }
    FlightStep-Inv (leave front f back env same_time kind ends) inv =
        leave-Inv front f back env same_time kind ends inv

    FlightReach-Inv : {st : FlightState} → FlightReach st → Inv st
    FlightReach-Inv (at_start now s) = record { held = tt; apart = tt }
    FlightReach-Inv (after_step r step) = FlightStep-Inv step (FlightReach-Inv r)

    -- However many requests come and go, with Redis up at each attempt, no two whose locks both last
    -- run their handlers under one lock, and so not with one method, path and key: if each request
    -- ends while its lock lasts, or when Redis no longer shows its token.
    pub FlightReach-Apart : {st : FlightState} → FlightReach st → Apart st.now st.flights
    FlightReach-Apart r = (FlightReach-Inv r).apart
