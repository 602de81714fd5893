-- ===== src/Idempotency/Guards.antt =====
-- What the lock and the cache keep apart.
use pay_flow_mock.Prelude.{
  Text, text_eq, text_eq_refl, map_set, ℕ, ◌+◌, ◌≤◌, ◌<◌, ◌≡◌, refl, false, none, some, List, [],
  ◌∷◌, arith,
}
use pay_flow_mock.Idempotency.{
  in_progress, completed_row, IdempotencyRow, Stores, Idempotency, pg_lease, StoreEnv,
  default_response_ttl, default_request_timeout, duration_or, redis_read, find_row,
}
use pay_flow_mock.Idempotency.Locks.{busy, leased, is_lapsed, acquire_lease}
use pay_flow_mock.Idempotency.Cache.{is_completed, lookup_row}

-- A lock that was taken in Redis is there until its time.
pub redis_read-set :
    {A : Type 0} (key : Text) (a : A) (expires now : ℕ) (entries : List (Text × (A × ℕ)))
    → now < expires
    → redis_read now key (map_set text_eq key (a, expires) entries) ≡ some a
redis_read-set key a expires now [] h = ground (arith, text_eq_refl key)
redis_read-set key a expires now ((k, (b, e)) ∷ entries) h =
    ground (arith, redis_read-set key a expires now entries h)

-- The row that a lease has left.
record Leased (m : Idempotency) (env : StoreEnv) (key token : Text) (after : Stores) : Type 0 where
  row : IdempotencyRow
  found : find_row key after.rows ≡ some row
  open_row : row.status ≡ in_progress
  until :
      row.lock_expires_at ≡ some (env.now + duration_or m.request_timeout default_request_timeout)

module _ (m : Idempotency) (env : StoreEnv) (key path method token : Text) (s : Stores) where
  abbrev leased_row : IdempotencyRow → IdempotencyRow
  leased_row row =
      leased (env.now + duration_or m.request_timeout default_request_timeout)
        (env.now + duration_or m.response_ttl default_response_ttl) path method token row

-- A completed row whose time has passed is not found by a lookup in Postgres, and blocks every
-- attempt to get the lock there, unless the statement fails.
pub expired-blocks :
    (m : Idempotency) (env : StoreEnv) (key path method token : Text) (s : Stores)
    (row : IdempotencyRow)
    → find_row key s.rows ≡ some row
    → row.status ≡ completed_row
    → row.expires_at ≤ env.now
    → env.fails pg_lease ≡ false
    → (lookup_row m env key s ≡ none) × (acquire_lease m env key path method token s ≡ (busy, s))
unfolding lookup_row acquire_lease is_lapsed is_completed
expired-blocks m env key path method token s row found done passed pg_up =
    (ground (arith, found, done), rw (pg_up, found, done) refl)
