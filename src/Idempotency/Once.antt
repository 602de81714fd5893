-- ===== src/Idempotency/Once.antt =====
-- A request that is sent again is answered from the cache.
use pay_flow_mock.Prelude.{
  ltb, Option-cases, length, pos, pos_part, ◌<ℤ◌, Text, text_eq_refl, is_empty, ℕ, ◌+◌, ◌≤◌, ◌<◌,
  ◌≡◌, refl, sym, ap, ◌∙◌, inl, inr, true, false, some, arith,
}
use pay_flow_mock.Idempotency.{
  CachedResponse, LockKind, redis_lock, pg_lock, LockHandle, Stores, Idempotency, redis_get,
  redis_set, StoreEnv, default_response_ttl, duration_or, build_lock_scope,
  is_idempotent_candidate_method, matches_request, response_key, lock_key, redis_read, find_row,
}
use pay_flow_mock.Idempotency.Guards.{redis_read-set}
use pay_flow_mock.Idempotency.Locks.{
  acquired, try_acquire_lock, release_redis, release_lease, release_kind, release_lock,
}
use pay_flow_mock.Idempotency.Serve.{
  HttpRequest, Recorded, Place, first_lookup, lock_attempt, second_lookup, store_place,
  release_place, ServeState, ServeWorld, write_cached_response, request_key, reply_cached,
  recorded_response, look, run_next, holding, after_acquire, acquire_and_serve, after_lookup,
  serve_body, serve,
}
use pay_flow_mock.Idempotency.Cache.{hit, miss, lookup_cached_response, store_cached_response}
use pay_flow_mock.Idempotency.Replay.{stored-responses, found-hit}

matches-recorded :
    (m : Idempotency) (now : ℕ) (req : HttpRequest) (hash : Text) (rec : Recorded)
    → reply_cached req hash (recorded_response m now req hash rec)
      ≡ write_cached_response (recorded_response m now req hash rec)
unfolding reply_cached matches_request recorded_response
matches-recorded m now req hash rec =
    rw (text_eq_refl req.method, text_eq_refl req.path, text_eq_refl hash) refl

release_kind-responses :
    (m : Idempotency) (env : StoreEnv) (kind : LockKind) (h : LockHandle) (s : Stores)
    → (release_kind m env kind h s).responses ≡ s.responses
unfolding release_kind release_redis release_lease
release_kind-responses m env redis_lock h s =
    elim (Option-cases (redis_read env.now (lock_key h.key) s.locks)) [
      | inl free ↦ ground (arith, free)
      | inr (holder, held) ↦ ground (arith, held)
    ]
release_kind-responses m env pg_lock h s = elim (Option-cases (find_row h.key s.rows)) [
  | inl missing ↦ ground (arith, missing)
  | inr (row, found) ↦ ground (arith, found)
]

-- A world in which no one else acts, and each call of the stores has its own time and faults.
abbrev pub unshared : {X : Type 0} → ServeWorld X → (Place → StoreEnv) → ServeWorld X
unshared world at = record world { before = λ place st. (at place, st) }

module _ {X : Type 0} (world : ServeWorld X) (m : Idempotency) (req : HttpRequest) (body : Text)
    (candidate : is_idempotent_candidate_method req.method ≡ true)
    (keyed : is_empty (request_key req) ≡ false) (short : length (request_key req) ≤ 255)
    (readable : req.body ≡ some body) where
  abbrev key : Text
  key = request_key req

  abbrev hash : Text
  hash = world.sha256_hex body

  to_body :
      (env : Place → StoreEnv) (st : ServeState X)
      → serve (unshared world env) m req st
        ≡ after_lookup
            (unshared world env)
            m
            req
            key
            hash
            (look (unshared world env) m first_lookup key st)
  unfolding serve serve_body
  to_body env st =
      let fits : ltb 255 (length (request_key req)) ≡ false = ground arith in
      rw (candidate, keyed, fits, readable) refl

  -- The lookup finds nothing, the lock is free, and nothing has come in between.
  pub first-run :
      (env : Place → StoreEnv) (s s1 : Stores) (x : X) (h : LockHandle)
      → lookup_cached_response m (env first_lookup) key s ≡ (miss, s)
      → try_acquire_lock m
          (env lock_attempt)
          (build_lock_scope req.method req.path key)
          key
          req.path
          req.method
          hash
          s
        ≡ (acquired h, s1)
      → lookup_cached_response m (env second_lookup) key s1 ≡ (miss, s1)
      → serve (unshared world env) m req (s, x)
        ≡ run_next (unshared world env) m req key hash h (s1, x)
  unfolding after_lookup acquire_and_serve after_acquire holding
  first-run env s s1 x h none_yet taken still_none =
      to_body env (s, x) ∙ rw (none_yet, taken, still_none) refl

  abbrev answer : (Place → StoreEnv) → X → CachedResponse
  answer env x = recorded_response m (env store_place).now req hash (world.next req x).0

  abbrev pub left_by : (Place → StoreEnv) → LockHandle → Stores → X → Stores
  left_by env h s1 x =
      let (e, h', s2) = store_cached_response m (env store_place) key (answer env x) h s1 in
      release_lock m (env release_place) h' s2

  pub run_next-eq :
      (env : Place → StoreEnv) (h : LockHandle) (s1 : Stores) (x : X)
      → run_next (unshared world env) m req key hash h (s1, x)
        ≡ (write_cached_response (answer env x), (left_by env h s1 x, (world.next req x).1))
  unfolding run_next
  run_next-eq env h s1 x = refl

  second-run :
      (later : Place → StoreEnv) (s : Stores) (x : X) (resp : CachedResponse)
      → lookup_cached_response m (later first_lookup) key s ≡ (hit resp, s)
      → serve (unshared world later) m req (s, x) ≡ (reply_cached req hash resp, (s, x))
  unfolding after_lookup
  second-run later s x resp found = to_body later (s, x) ∙ rw found refl

  left-hit :
      (env later : Place → StoreEnv) (h : LockHandle) (s1 : Stores) (x : X)
      → m.has_redis ≡ true
      → pos 0 <ℤ m.response_ttl
      → (env store_place).fails redis_set ≡ false
      → (later first_lookup).fails redis_get ≡ false
      → (later first_lookup).now < (env store_place).now + pos_part m.response_ttl
      → lookup_cached_response m (later first_lookup) key (left_by env h s1 x)
        ≡ (hit (answer env x), left_by env h s1 x)
  unfolding recorded_response release_lock
  left-hit env later h s1 x redis some_ttl set_up get_up in_time =
      let stored = store_cached_response m (env store_place) key (answer env x) h s1 in
      let in_ttl : (later first_lookup).now
          < (env store_place).now + duration_or m.response_ttl default_response_ttl =
        ground arith in
      found-hit m (later first_lookup) key (answer env x) (left_by env h s1 x) redis get_up
        (ap (redis_read (later first_lookup).now (response_key key)) (
            release_kind-responses m (env release_place) stored.1.kind stored.1 stored.2
            ∙ stored-responses m (env store_place) key (answer env x) h s1 redis set_up)
          ∙ redis_read-set (response_key key) (answer env x) _ (later first_lookup).now s1.responses
              in_ttl)
        in_time

  pub serve-once :
      (env later : Place → StoreEnv) (s s1 : Stores) (x : X) (h : LockHandle)
      → lookup_cached_response m (env first_lookup) key s ≡ (miss, s)
      → try_acquire_lock m
          (env lock_attempt)
          (build_lock_scope req.method req.path key)
          key
          req.path
          req.method
          hash
          s
        ≡ (acquired h, s1)
      → lookup_cached_response m (env second_lookup) key s1 ≡ (miss, s1)
      → m.has_redis ≡ true
      → pos 0 <ℤ m.response_ttl
      → (env store_place).fails redis_set ≡ false
      → (later first_lookup).fails redis_get ≡ false
      → (later first_lookup).now < (env store_place).now + pos_part m.response_ttl
      → serve (unshared world later) m req (serve (unshared world env) m req (s, x)).1
        ≡ serve (unshared world env) m req (s, x)
  serve-once env later s s1 x h none_yet taken still_none redis some_ttl set_up get_up in_time =
      let ran = first-run env s s1 x h none_yet taken still_none ∙ run_next-eq env h s1 x in
      ap (λ o. serve (unshared world later) m req o.1) ran
      ∙ second-run later (left_by env h s1 x) (world.next req x).1 (answer env x)
          (left-hit env later h s1 x redis some_ttl set_up get_up in_time)
      ∙ ap (λ reply. (reply, (left_by env h s1 x, (world.next req x).1)))
          (matches-recorded m (env store_place).now req hash (world.next req x).0)
      ∙ sym ran
