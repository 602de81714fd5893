-- ===== src/Idempotency/Fresh.antt =====
-- A request under a key of which neither store knows anything runs, and is answered from the cache
-- from then on.
use pay_flow_mock.Prelude.{
  length, pos, pos_part, ◌<ℤ◌, Text, text_eq, is_empty, map_set, ℕ, ◌+◌, ◌≤◌, ◌<◌, ◌≡◌, refl, sym,
  ap, ◌∙◌, true, false, none, some, List, [], ◌∷◌, arith,
}
use pay_flow_mock.Idempotency.{
  redis_lock, LockHandle, Stores, Idempotency, redis_get, redis_set, redis_set_nx, pg_select,
  StoreEnv, default_lock_ttl, duration_or, build_lock_scope, is_idempotent_candidate_method,
  response_key, lock_key, redis_read, find_row,
}
use pay_flow_mock.Idempotency.Locks.{acquired, try_acquire_lock}
use pay_flow_mock.Idempotency.Cache.{
  miss, lookup_redis, lookup_row, lookup_pg, lookup_cached_response,
}
use pay_flow_mock.Idempotency.Serve.{
  HttpRequest, Place, first_lookup, lock_attempt, second_lookup, store_place, ServeWorld,
  write_cached_response, request_key, recorded_response, serve,
}
use pay_flow_mock.Idempotency.Once.{unshared, first-run, left_by, run_next-eq, serve-once}

-- Neither store has a response, a lease or a lock for the key.
pub record IsFresh (now : ℕ) (key scope : Text) (s : Stores) : Type 0 where
  pub unanswered : redis_read now (response_key key) s.responses ≡ none
  pub unleased : find_row key s.rows ≡ none
  pub unlocked : redis_read now (lock_key scope) s.locks ≡ none

-- What Redis does not show is not shown later either, if no one writes.
redis_read-later :
    {A : Type 0} (key : Text) (now later : ℕ) (entries : List (Text × (A × ℕ)))
    → now ≤ later
    → redis_read now key entries ≡ none
    → redis_read later key entries ≡ none
redis_read-later key now later [] h none_yet = refl
redis_read-later key now later ((k, (a, e)) ∷ entries) h none_yet =
    ground (arith, redis_read-later key now later entries h)

fresh-misses :
    (m : Idempotency) (env : StoreEnv) (key : Text) (s : Stores)
    → env.fails pg_select ≡ false
    → redis_read env.now (response_key key) s.responses ≡ none
    → find_row key s.rows ≡ none
    → lookup_cached_response m env key s ≡ (miss, s)
unfolding lookup_cached_response lookup_redis lookup_pg lookup_row
fresh-misses m env key s up unanswered unleased = ground (arith, up, unanswered, unleased)

abbrev pub handle_for : Text → Text → LockHandle
handle_for scope token = record { kind = redis_lock; key = scope; token = token; completed = false }

abbrev pub locked_for : Idempotency → ℕ → Text → Text → Stores → Stores
locked_for m now scope token s = record s {
  locks =
      map_set text_eq (lock_key scope) (token, now + duration_or m.lock_ttl default_lock_ttl)
        s.locks;
}

fresh-acquires :
    (m : Idempotency) (env : StoreEnv) (scope key path method token : Text) (s : Stores)
    → m.has_redis ≡ true
    → env.fails redis_set_nx ≡ false
    → redis_read env.now (lock_key scope) s.locks ≡ none
    → try_acquire_lock m env scope key path method token s
      ≡ (acquired (handle_for scope token), locked_for m env.now scope token s)
unfolding try_acquire_lock
fresh-acquires m env scope key path method token s redis up unlocked = rw (redis, up, unlocked) refl

module _ {X : Type 0} (world : ServeWorld X) (m : Idempotency) (req : HttpRequest) (body : Text)
    (candidate : is_idempotent_candidate_method req.method ≡ true)
    (keyed : is_empty (request_key req) ≡ false) (short : length (request_key req) ≤ 255)
    (readable : req.body ≡ some body) (redis : m.has_redis ≡ true)
    (some_ttl : pos 0 <ℤ m.response_ttl) where
  abbrev scope : Text
  scope = build_lock_scope req.method req.path (request_key req)

  -- The handler runs once, and the second answer is the first.
  pub fresh-served :
      (env later : Place → StoreEnv) (s : Stores) (x : X)
      → (env first_lookup).fails pg_select ≡ false
      → (env lock_attempt).fails redis_set_nx ≡ false
      → (env second_lookup).fails pg_select ≡ false
      → (env store_place).fails redis_set ≡ false
      → (later first_lookup).fails redis_get ≡ false
      → (later first_lookup).now < (env store_place).now + pos_part m.response_ttl
      → IsFresh (env first_lookup).now (request_key req) scope s
      → (env first_lookup).now ≤ (env lock_attempt).now
      → (env lock_attempt).now ≤ (env second_lookup).now
      → (after : Stores) × (serve (unshared world env) m req (s, x) ≡ (
        write_cached_response (
            recorded_response m
              (env store_place).now
              req
              (world.sha256_hex body)
              (world.next req x).0),
        (after, (world.next req x).1),
      ))
        × (serve (unshared world later) m req (after, (world.next req x).1)
            ≡ serve (unshared world env) m req (s, x))
  fresh-served env later s x looks locks looks_again stores get_up in_time fresh locked looked =
      let hash = world.sha256_hex body in
      let h = handle_for scope hash in
      let s1 = locked_for m (env lock_attempt).now scope hash s in
      let unanswered =
        redis_read-later (response_key (request_key req)) (env first_lookup).now
          (env second_lookup).now s.responses (omega arith) fresh.unanswered in
      let misses =
        fresh-misses m (env first_lookup) (request_key req) s looks fresh.unanswered
          fresh.unleased in
      let takes =
        fresh-acquires m (env lock_attempt) scope (request_key req) req.path req.method hash s redis
          locks
          (redis_read-later (lock_key scope) (env first_lookup).now (env lock_attempt).now s.locks
            locked fresh.unlocked) in
      let still =
        fresh-misses m (env second_lookup) (request_key req) s1 looks_again unanswered
          fresh.unleased in
      let ran =
        first-run world m req body candidate keyed short readable env s s1 x h misses takes still
        ∙ run_next-eq world m req body candidate keyed short readable env h s1 x in
      (
        left_by world m req body candidate keyed short readable env h s1 x,
        ran,
        ap (λ o. serve (unshared world later) m req o.1) (sym ran)
            ∙ serve-once world m req body candidate keyed short readable env later s s1 x h misses
                takes still redis some_ttl stores get_up in_time,
      )
