-- ===== src/Idempotency/Replay.antt =====
-- A response that was stored is what later lookups of its key return.
use pay_flow_mock.Prelude.{
  ltb, ◌==◌, Bool-cases, Option-cases, Text, text_eq, map_set, ◌+◌, ◌<◌, ◌≡◌, refl, ap, ◌∙◌, inl,
  inr, true, false, ◌||◌, some, arith,
}
use pay_flow_mock.Idempotency.{
  CachedResponse, LockKind, redis_lock, pg_lock, LockHandle, Stores, Idempotency, redis_get,
  redis_set, StoreEnv, default_response_ttl, duration_or, response_key, redis_read, find_row,
}
use pay_flow_mock.Idempotency.Locks.{write_redis_cache}
use pay_flow_mock.Idempotency.Cache.{
  hit, lookup_redis, lookup_cached_response, write_pg_cache, upsert_pg_completed, write_pg_part,
  store_cached_response,
}
use pay_flow_mock.Idempotency.Guards.{redis_read-set}

-- The writes to Postgres leave the entries of Redis.
write_pg_part-responses :
    (m : Idempotency) (env : StoreEnv) (kind : LockKind) (key : Text) (resp : CachedResponse)
    (token : Text) (s : Stores)
    → (write_pg_part m env kind key resp token s).1.responses ≡ s.responses
unfolding write_pg_part write_pg_cache upsert_pg_completed
write_pg_part-responses m env pg_lock key resp token s = elim (Option-cases (find_row key s.rows)) [
  | inl missing ↦ ground arith
  | inr (row, found) ↦ ground (arith, found)
]
write_pg_part-responses m env redis_lock key resp token s = ground arith

pub stored-responses :
    (m : Idempotency) (env : StoreEnv) (key : Text) (resp : CachedResponse) (h : LockHandle)
    (s : Stores)
    → m.has_redis ≡ true
    → env.fails redis_set ≡ false
    → (store_cached_response m env key resp h s).2.responses
      ≡ map_set text_eq
          (response_key key)
          (resp, env.now + duration_or m.response_ttl default_response_ttl)
          s.responses
unfolding store_cached_response write_redis_cache
stored-responses m env key resp h s redis set_up = elim (Bool-cases m.has_db) [
  | inr no_db ↦ rw (redis, set_up, no_db) refl
  | inl db ↦ rw (redis, set_up, db) (write_pg_part-responses m env h.kind key resp h.token _)
]

pub found-hit :
    (m : Idempotency) (later : StoreEnv) (key : Text) (resp : CachedResponse) (s : Stores)
    → m.has_redis ≡ true
    → later.fails redis_get ≡ false
    → redis_read later.now (response_key key) s.responses ≡ some resp
    → later.now < resp.expires_at
    → lookup_cached_response m later key s ≡ (hit resp, s)
unfolding lookup_cached_response lookup_redis
found-hit m later key resp s redis get_up found in_time =
    let fresh : (resp.expires_at == 0 || ltb later.now resp.expires_at) ≡ true = ground arith in
    rw (redis, get_up, found, fresh) refl

-- With Redis up for the write and for the read, a stored response comes back as it was, until the
-- first of its two times: whatever the lock was, and also where the write to Postgres fails.
pub lookup-store :
    (m : Idempotency) (env later : StoreEnv) (key : Text) (resp : CachedResponse) (h : LockHandle)
    (s : Stores)
    → m.has_redis ≡ true
    → env.fails redis_set ≡ false
    → later.fails redis_get ≡ false
    → later.now < env.now + duration_or m.response_ttl default_response_ttl
    → later.now < resp.expires_at
    → lookup_cached_response m later key (store_cached_response m env key resp h s).2
      ≡ (hit resp, (store_cached_response m env key resp h s).2)
lookup-store m env later key resp h s redis set_up get_up in_ttl in_time =
    found-hit m later key resp _ redis get_up
      (ap (redis_read later.now (response_key key))
          (stored-responses m env key resp h s redis set_up)
        ∙ redis_read-set (response_key key) resp _ later.now s.responses in_ttl)
      in_time
