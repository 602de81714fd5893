-- ===== src/Idempotency.antt =====
-- internal/middleware/idempotency.go: the response cache in Redis and Postgres, the lock that
-- serializes requests with one key, and the handler around another one. JSON texts are kept as the
-- values encoded; a Redis entry carries the time at which it expires.
pub mod Locks
pub mod Cache
pub mod Guards
pub mod Serve
pub mod Once
pub mod Replay
pub mod Fresh
pub mod LockTable
pub mod Recorder
pub mod Flight
mod Tests
use pay_flow_mock.Prelude.{
  ltb, if◌then◌else◌, ℤ, pos, pos_part, is_nonpos, Text, codes, text_eq, ℕ, ◌*◌, Bool, ◌&&◌, ◌||◌,
  Option, none, some, List, [], ◌∷◌, ◌++◌,
}

pub record CachedResponse : Type 0 where
  pub request_path : Text
  pub request_method : Text
  pub request_hash : Text
  pub response_status : ℕ
  pub response_headers : List (Text × List Text)
  pub response_body : Text
  pub created_at : ℕ
  pub expires_at : ℕ

pub data LockKind : Type 0 where
  redis_lock pg_lock : LockKind

pub record LockHandle : Type 0 where
  pub kind : LockKind
  pub key : Text
  pub token : Text
  pub completed : Bool

pub data RowStatus : Type 0 where
  in_progress completed_row : RowStatus

-- A row of idempotency_keys; NULL headers and an absent body are empty.
pub record IdempotencyRow : Type 0 where
  pub key : Text
  pub request_path : Text
  pub request_method : Text
  pub request_hash : Text
  pub status : RowStatus
  pub lock_token : Option Text
  pub lock_expires_at : Option ℕ
  pub response_status : Option ℕ
  pub response_headers : List (Text × List Text)
  pub response_body : Text
  pub created_at : ℕ
  pub expires_at : ℕ

pub record Stores : Type 0 where
  pub responses : List (Text × (CachedResponse × ℕ))
  pub locks : List (Text × (Text × ℕ))
  pub rows : List IdempotencyRow

-- The struct Idempotency: whether there are the two clients, and its durations.
pub record Idempotency : Type 0 where
  pub has_redis : Bool
  pub has_db : Bool
  pub response_ttl : ℤ
  pub lock_ttl : ℤ
  pub request_timeout : ℤ
  pub wait_timeout : ℤ
  pub poll_every : ℤ

pub data StoreOp : Type 0 where
  redis_get redis_set redis_set_nx redis_eval pg_select pg_update pg_upsert pg_lease pg_delete :
      StoreOp

pub record StoreEnv : Type 0 where
  pub now : ℕ
  pub fails : StoreOp → Bool

pub data StoreError : Type 0 where
  redis_failed pg_failed null_status lease_lost no_lock_backend : StoreError

abbrev second : ℕ
second = 1000000000

abbrev pub default_response_ttl : ℕ
default_response_ttl = 86400 * second

abbrev pub default_lock_ttl : ℕ
default_lock_ttl = 15 * second

abbrev pub default_request_timeout : ℕ
default_request_timeout = 60 * second

-- NewIdempotency
unfoldable pub new_idempotency : Bool → Bool → Idempotency
new_idempotency has_redis has_db = record {
  has_redis = has_redis;
  has_db = has_db;
  response_ttl = pos default_response_ttl;
  lock_ttl = pos default_lock_ttl;
  request_timeout = pos default_request_timeout;
  wait_timeout = pos (8 * second);
  poll_every = pos (150 * 1000000);
}

-- SetRequestTimeout, of a middleware that is not nil
unfoldable pub set_request_timeout : Idempotency → ℤ → Idempotency
set_request_timeout m d = if is_nonpos d then m else record m { request_timeout = d }

-- `if x <= 0 { x = d }`
abbrev pub duration_or : ℤ → ℕ → ℕ
duration_or x d = if is_nonpos x then d else pos_part x

unfoldable pub build_lock_scope : Text → Text → Text → Text
build_lock_scope method path key = method ++ (codes ":" ++ (path ++ (codes ":" ++ key)))

-- A method is the text of net/http's constant.
unfoldable pub is_idempotent_candidate_method : Text → Bool
is_idempotent_candidate_method method =
    text_eq method (codes "POST")
    || text_eq method (codes "PUT")
    || text_eq method (codes "PATCH")
    || text_eq method (codes "DELETE")

-- matchesRequest, of a response and a request that are not nil
unfoldable pub matches_request : CachedResponse → Text → Text → Text → Bool
matches_request resp method path hash =
    text_eq resp.request_method method
    && text_eq resp.request_path path
    && text_eq resp.request_hash hash

abbrev pub response_key : Text → Text
response_key key = codes "idem:resp:" ++ key

abbrev pub lock_key : Text → Text
lock_key scope = codes "idem:lock:" ++ scope

-- GET: an entry past its time is gone.
abbrev pub redis_read : {A : Type 0} → ℕ → Text → List (Text × (A × ℕ)) → Option A
redis_read now key [] = none
redis_read now key ((k, (a, expires)) ∷ entries) =
    if text_eq k key then (if ltb now expires then some a else none) else redis_read now key entries

unfoldable pub find_row : Text → List IdempotencyRow → Option IdempotencyRow
find_row key [] = none
find_row key (row ∷ rows) = if text_eq row.key key then some row else find_row key rows

-- The row takes the place of the one with its key, or is added.
unfoldable pub put_row : IdempotencyRow → List IdempotencyRow → List IdempotencyRow
put_row row [] = row ∷ []
put_row row (r ∷ rows) = if text_eq r.key row.key then row ∷ rows else r ∷ put_row row rows

unfoldable pub drop_row : Text → List IdempotencyRow → List IdempotencyRow
drop_row key [] = []
drop_row key (r ∷ rows) = if text_eq r.key key then rows else r ∷ drop_row key rows
