-- ===== src/Idempotency/Locks.antt =====
-- tryAcquireLock, releaseLock and the reads and writes of the response cache.
use pay_flow_mock.Prelude.{
  ltb, if◌then◌else◌, Text, text_eq, is_empty, map_set, ℕ, ◌+◌, Bool, false, not, ◌||◌, Option,
  none, some, List, [], ◌∷◌,
}
use pay_flow_mock.Idempotency.{
  CachedResponse, LockKind, redis_lock, pg_lock, LockHandle, RowStatus, in_progress, IdempotencyRow,
  Stores, Idempotency, redis_set, redis_set_nx, redis_eval, pg_lease, pg_delete, StoreEnv,
  StoreError, redis_failed, pg_failed, no_lock_backend, default_response_ttl, default_lock_ttl,
  default_request_timeout, duration_or, response_key, lock_key, redis_read, find_row, put_row,
  drop_row,
}

-- What tryAcquireLock returns: a handle, none since another request holds the lock, or an error.
pub data Acquired : Type 0 where
  acquired : LockHandle → Acquired
  busy : Acquired
  lock_error : StoreError → Acquired

-- The lease that the INSERT takes, or that the ON CONFLICT clause writes over a row.
abbrev pub leased : ℕ → ℕ → Text → Text → Text → IdempotencyRow → IdempotencyRow
leased lock_expires expires path method token row = record row {
  request_path = path;
  request_method = method;
  request_hash = token;
  status = in_progress;
  lock_token = some token;
  lock_expires_at = some lock_expires;
  expires_at = expires;
}

abbrev pub blank_row : ℕ → Text → IdempotencyRow
blank_row now key = record {
  key = key;
  request_path = [];
  request_method = [];
  request_hash = [];
  status = in_progress;
  lock_token = none;
  lock_expires_at = none;
  response_status = none;
  response_headers = [];
  response_body = [];
  created_at = now;
  expires_at = 0;
}

-- `status = 'in_progress' AND lock_expires_at < NOW()`; NULL is less than nothing.
unfoldable pub is_lapsed : ℕ → RowStatus → Option ℕ → Bool
is_lapsed now in_progress (some expires) = ltb expires now
is_lapsed now _ _ = false

unfoldable pub is_held_by : Text → RowStatus → Option Text → Bool
is_held_by token in_progress (some t) = text_eq t token
is_held_by token _ _ = false

module _ (m : Idempotency) (env : StoreEnv) where
  -- The Postgres part of tryAcquireLock.
  unfoldable pub acquire_lease : Text → Text → Text → Text → Stores → Acquired × Stores
  unfolding find_row put_row is_lapsed
  acquire_lease key path method token s =
      let lock_expires = env.now + duration_or m.request_timeout default_request_timeout in
      let expires = env.now + duration_or m.response_ttl default_response_ttl in
      let write = λ (row : IdempotencyRow). record s {
        rows = put_row (leased lock_expires expires path method token row) s.rows;
      } in
      let handle : LockHandle = record {
        kind = pg_lock;
        key = key;
        token = token;
        completed = false;
      } in
      let granted = if is_empty token then busy else acquired handle in
      if env.fails pg_lease then (lock_error pg_failed, s) else elim (find_row key s.rows) [
        | none ↦ (granted, write (blank_row env.now key))
        | some row ↦
            if is_lapsed env.now row.status row.lock_expires_at
            then (granted, write row)
            else (busy, s)
      ]

  -- tryAcquireLock
  unfoldable pub try_acquire_lock : Text → Text → Text → Text → Text → Stores → Acquired × Stores
  unfolding acquire_lease
  try_acquire_lock scope key path method token s =
      let fallback =
        if m.has_db
        then acquire_lease key path method token s
        else (lock_error no_lock_backend, s) in
      if not m.has_redis || env.fails redis_set_nx
      then fallback
      else elim (redis_read env.now (lock_key scope) s.locks) [
        | some holder ↦ (busy, s)
        | none ↦ (
          acquired (record { kind = redis_lock; key = scope; token = token; completed = false }),
          record s {
            locks =
                map_set text_eq (lock_key scope)
                  (token, env.now + duration_or m.lock_ttl default_lock_ttl) s.locks;
          },
        )
      ]

  abbrev pub drop_lock : Text → List (Text × (Text × ℕ)) → List (Text × (Text × ℕ))
  drop_lock key [] = []
  drop_lock key ((k, entry) ∷ entries) =
      if text_eq k key then drop_lock key entries else (k, entry) ∷ drop_lock key entries

  -- The script that deletes a lock which still has the token.
  unfoldable pub release_redis : Text → Text → Stores → Stores
  release_redis scope token s = elim (redis_read env.now (lock_key scope) s.locks) [
    | none ↦ s
    | some holder ↦
        if text_eq holder token then record s { locks = drop_lock (lock_key scope) s.locks } else s
  ]

  unfoldable pub release_lease : Text → Text → Stores → Stores
  unfolding find_row drop_row is_held_by
  release_lease key token s = elim (find_row key s.rows) [
    | none ↦ s
    | some row ↦
        if is_held_by token row.status row.lock_token
        then record s { rows = drop_row key s.rows }
        else s
  ]

  -- releaseLock, of a handle that is not nil
  unfoldable pub release_kind : LockKind → LockHandle → Stores → Stores
  unfolding release_redis release_lease
  release_kind redis_lock h s =
      if not m.has_redis || env.fails redis_eval then s else release_redis h.key h.token s
  release_kind pg_lock h s =
      if not m.has_db || h.completed || env.fails pg_delete
      then s
      else release_lease h.key h.token s

  unfoldable pub release_lock : LockHandle → Stores → Stores
  unfolding release_kind
  release_lock h s = release_kind h.kind h s

  -- writeRedisCache
  unfoldable pub write_redis_cache : Text → CachedResponse → Stores → Option StoreError × Stores
  write_redis_cache key resp s = if env.fails redis_set then (some redis_failed, s) else (
    none,
    record s {
      responses =
          map_set text_eq (response_key key)
            (resp, env.now + duration_or m.response_ttl default_response_ttl) s.responses;
    },
  )
