-- ===== src/Idempotency/Tests.antt =====
-- One POST under a key, sent twice, and locks in both stores.
use pay_flow_mock.Prelude.{
  pos, codes, text_eq, trim_space, ℕ, ◌+◌, ◌≡◌, refl, true, false, none, some, [], ◌∷◌, arith,
}
use pay_flow_mock.Idempotency.{
  CachedResponse, redis_lock, LockHandle, IdempotencyRow, Stores, Idempotency, StoreEnv,
  build_lock_scope, find_row,
}
use pay_flow_mock.Idempotency.Locks.{
  Acquired, acquired, busy, blank_row, acquire_lease, try_acquire_lock,
}
use pay_flow_mock.Idempotency.Cache.{
  hit, completed_with, lookup_row, lookup_cached_response, store_cached_response,
}
use pay_flow_mock.Idempotency.Guards.{expired-blocks}
use pay_flow_mock.Idempotency.Replay.{lookup-store}
use pay_flow_mock.Idempotency.Serve.{
  HttpRequest, Place, store_place, release_place, ServeWorld, request_key,
}

abbrev pub middleware : Idempotency
middleware = record {
  has_redis = true;
  has_db = true;
  response_ttl = pos 1000;
  lock_ttl = pos 50;
  request_timeout = pos 100;
  wait_timeout = pos 10;
  poll_every = pos 5;
}

abbrev pub at : ℕ → StoreEnv
at t = record { now = t; fails = λ op. false }

abbrev pub empty_stores : Stores
empty_stores = record { responses = []; locks = []; rows = [] }

abbrev reply_text : CachedResponse
reply_text = record {
  request_path = codes "/v1/payments";
  request_method = codes "POST";
  request_hash = codes "h";
  response_status = 201;
  response_headers = [];
  response_body = codes "{}";
  created_at = 10;
  expires_at = 1010;
}

abbrev handle : LockHandle
handle = record { kind = redis_lock; key = codes "s"; token = codes "h"; completed = false }

lookup-store_example :
    lookup_cached_response middleware
      (at 500)
      (codes "k")
      (store_cached_response middleware (at 10) (codes "k") reply_text handle empty_stores).2
    ≡ (
      hit reply_text,
      (store_cached_response middleware (at 10) (codes "k") reply_text handle empty_stores).2,
    )
lookup-store_example =
    lookup-store middleware (at 10) (at 500) (codes "k") reply_text handle empty_stores refl refl
      refl (omega arith) (omega arith)

-- Without Redis the lock is a lease in Postgres.
abbrev no_redis : Idempotency
no_redis = record middleware { has_redis = false }

lease_taken : Acquired × Stores
unfolding try_acquire_lock text_eq
lease_taken =
    try_acquire_lock no_redis (at 10) (codes "s") (codes "k") (codes "/p") (codes "POST")
      (codes "h") empty_stores

abbrev old_row : IdempotencyRow
old_row = completed_with reply_text (blank_row 10 (codes "k"))

old_found : find_row (codes "k") (old_row ∷ []) ≡ some old_row
unfolding find_row text_eq
old_found = refl

expired-blocks_example :
    (lookup_row middleware (at 2000) (codes "k") (record empty_stores { rows = old_row ∷ [] })
      ≡ none)
    × (acquire_lease middleware
          (at 2000)
          (codes "k")
          (codes "/p")
          (codes "POST")
          (codes "h")
          (record empty_stores { rows = old_row ∷ [] })
        ≡ (busy, record empty_stores { rows = old_row ∷ [] }))
expired-blocks_example =
    expired-blocks middleware (at 2000) (codes "k") (codes "/p") (codes "POST") (codes "h")
      (record empty_stores { rows = old_row ∷ [] }) old_row old_found refl (omega arith) refl

-- The handler counts its runs.
abbrev world : ServeWorld ℕ
world = record {
  before = λ place st. (at 10, st);
  next = λ req x. (record { status_val = 201; header = []; content = codes "{}" }, x + 1);
  sha256_hex = λ body. codes "h";
  is_cancelled = λ x. false;
  polls = 3;
}

abbrev post : HttpRequest
post = record {
  method = codes "POST";
  path = codes "/v1/payments";
  idempotency_key = codes " ";
  x_idempotency_key = codes "k-7 ";
  body = some (codes "{}");
}

locked : Acquired × Stores
unfolding try_acquire_lock text_eq build_lock_scope request_key trim_space
locked =
    try_acquire_lock middleware (at 10)
      (build_lock_scope (codes "POST") (codes "/v1/payments") (request_key post)) (request_key post)
      (codes "/v1/payments") (codes "POST") (codes "h") empty_stores

abbrev post_handle : LockHandle
post_handle = record {
  kind = redis_lock;
  key = build_lock_scope (codes "POST") (codes "/v1/payments") (request_key post);
  token = codes "h";
  completed = false;
}

locks :
    try_acquire_lock middleware
      (at 10)
      (build_lock_scope (codes "POST") (codes "/v1/payments") (request_key post))
      (request_key post)
      (codes "/v1/payments")
      (codes "POST")
      (codes "h")
      empty_stores
    ≡ (acquired post_handle, locked.1)
unfolding locked
locks = refl

-- The handler takes longer than the lock lasts.
abbrev slow : Place → StoreEnv
slow store_place = at 300
slow release_place = at 301
slow _ = at 10
