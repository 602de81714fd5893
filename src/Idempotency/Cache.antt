-- ===== src/Idempotency/Cache.antt =====
-- lookupCachedResponse and storeCachedResponse.
use pay_flow_mock.Prelude.{
  ltb, ◌==◌, if◌then◌else◌, Text, ℕ, Bool, true, false, not, ◌&&◌, ◌||◌, Option, none, some,
}
use pay_flow_mock.Idempotency.{
  CachedResponse, LockKind, redis_lock, pg_lock, LockHandle, RowStatus, in_progress, completed_row,
  IdempotencyRow, Stores, Idempotency, redis_get, pg_select, pg_update, pg_upsert, StoreEnv,
  StoreError, pg_failed, null_status, lease_lost, response_key, redis_read, find_row, put_row,
}
use pay_flow_mock.Idempotency.Locks.{blank_row, is_held_by, write_redis_cache}

-- A lookup's answer: a response, none, or an error.
pub data Lookup : Type 0 where
  hit : CachedResponse → Lookup
  miss : Lookup
  lookup_error : StoreError → Lookup

-- What Scan reads of a completed row.
unfoldable pub scan_row : IdempotencyRow → Option CachedResponse
scan_row row = elim row.response_status [
  | none ↦ none
  | some status ↦ some (record {
    request_path = row.request_path;
    request_method = row.request_method;
    request_hash = row.request_hash;
    response_status = status;
    response_headers = row.response_headers;
    response_body = row.response_body;
    created_at = row.created_at;
    expires_at = row.expires_at;
  })
]

unfoldable pub is_completed : RowStatus → Bool
is_completed completed_row = true
is_completed in_progress = false

-- The row that writePGCache and upsertPGCompleted leave. An ExpiresAtUnixNano of 0 is the epoch,
-- which is not the zero time of Go.
abbrev pub completed_with : CachedResponse → IdempotencyRow → IdempotencyRow
completed_with resp row = record row {
  status = completed_row;
  lock_token = none;
  lock_expires_at = none;
  response_status = some resp.response_status;
  response_headers = resp.response_headers;
  response_body = resp.response_body;
  expires_at = resp.expires_at;
}

abbrev pub of_request : CachedResponse → IdempotencyRow → IdempotencyRow
of_request resp row = record row {
  request_path = resp.request_path;
  request_method = resp.request_method;
  request_hash = resp.request_hash;
}

abbrev or_blank : ℕ → Text → Option IdempotencyRow → IdempotencyRow
or_blank now key none = blank_row now key
or_blank now key (some row) = row

-- The first error of two writes.
abbrev pub first_error : Option StoreError → Option StoreError → Option StoreError
first_error none e = e
first_error (some e) _ = some e

module _ (m : Idempotency) (env : StoreEnv) where
  -- The Redis part of lookupCachedResponse, which a failure of Redis does not end.
  unfoldable pub lookup_redis : Text → Stores → Option CachedResponse
  lookup_redis key s =
      if not m.has_redis || env.fails redis_get
      then none
      else elim (redis_read env.now (response_key key) s.responses) [
        | none ↦ none
        | some resp ↦
            if resp.expires_at == 0 || ltb env.now resp.expires_at then some resp else none
      ]

  -- The Postgres part, up to the scan.
  unfoldable pub lookup_row : Text → Stores → Option IdempotencyRow
  unfolding find_row is_completed
  lookup_row key s = elim (find_row key s.rows) [
    | none ↦ none
    | some row ↦ if is_completed row.status && ltb env.now row.expires_at then some row else none
  ]

  -- A response from Postgres warms Redis.
  abbrev warm : Text → CachedResponse → Stores → Stores
  warm key resp s = if m.has_redis then (write_redis_cache m env key resp s).1 else s

  unfoldable pub lookup_pg : Text → Stores → Lookup × Stores
  unfolding lookup_row scan_row write_redis_cache
  lookup_pg key s =
      if not m.has_db
      then (miss, s)
      else (if env.fails pg_select then (lookup_error pg_failed, s) else elim (lookup_row key s) [
        | none ↦ (miss, s)
        | some row ↦ elim (scan_row row) [
          | none ↦ (lookup_error null_status, s)
          | some resp ↦ (hit resp, warm key resp s)
        ]
      ])

  -- lookupCachedResponse
  unfoldable pub lookup_cached_response : Text → Stores → Lookup × Stores
  unfolding lookup_redis lookup_pg
  lookup_cached_response key s = elim (lookup_redis key s) [
    | some resp ↦ (hit resp, s)
    | none ↦ lookup_pg key s
  ]

  -- writePGCache
  unfoldable pub write_pg_cache : Text → CachedResponse → Text → Stores → Option StoreError × Stores
  unfolding find_row put_row is_held_by
  write_pg_cache key resp token s =
      if env.fails pg_update then (some pg_failed, s) else elim (find_row key s.rows) [
        | none ↦ (some lease_lost, s)
        | some row ↦
            if is_held_by token row.status row.lock_token
            then (none, record s { rows = put_row (completed_with resp row) s.rows })
            else (some lease_lost, s)
      ]

  -- upsertPGCompleted
  unfoldable pub upsert_pg_completed : Text → CachedResponse → Stores → Option StoreError × Stores
  unfolding find_row put_row
  upsert_pg_completed key resp s = if env.fails pg_upsert then (some pg_failed, s) else (
    none,
    record s {
      rows =
          put_row
            (of_request resp (completed_with resp (or_blank env.now key (find_row key s.rows))))
            s.rows;
    },
  )

  abbrev write_redis_part : Text → CachedResponse → Stores → Option StoreError × Stores
  write_redis_part key resp s =
      if m.has_redis then write_redis_cache m env key resp s else (none, s)

  unfoldable pub write_pg_part :
      LockKind → Text → CachedResponse → Text → Stores → Option StoreError × Stores
  unfolding write_pg_cache upsert_pg_completed
  write_pg_part pg_lock key resp token s = write_pg_cache key resp token s
  write_pg_part redis_lock key resp token s = upsert_pg_completed key resp s

  -- `completed` is set where writePGCache went well.
  unfoldable pub mark_completed : LockKind → Option StoreError → LockHandle → LockHandle
  mark_completed pg_lock none h = record h { completed = true }
  mark_completed pg_lock (some e) h = h
  mark_completed redis_lock e h = h

  -- storeCachedResponse, of a response and a handle that are not nil
  unfoldable pub store_cached_response :
      Text → CachedResponse → LockHandle → Stores → Option StoreError × LockHandle × Stores
  unfolding write_redis_cache write_pg_part mark_completed
  store_cached_response key resp h s =
      let (redis_error, s') = write_redis_part key resp s in
      if not m.has_db
      then (redis_error, h, s')
      else (let (pg_error, s'') = write_pg_part h.kind key resp h.token s' in
          (first_error redis_error pg_error, mark_completed h.kind pg_error h, s''))
