-- ===== src/Idempotency/Serve.antt =====
-- The handler that Middleware returns. Before each call of a store other requests may have changed
-- both stores, and the state `X` outside, on which the wrapped handler acts, may have moved on.
use pay_flow_mock.Prelude.{
  ltb, ◌==◌, if◌then◌else◌, length, pos_part, Text, codes, is_empty, trim_space, ℕ, zero, suc, ◌+◌,
  Bool, not, ◌||◌, Option, none, some, List,
}
use pay_flow_mock.Idempotency.{
  CachedResponse, LockHandle, Stores, Idempotency, StoreEnv, build_lock_scope,
  is_idempotent_candidate_method, matches_request,
}
use pay_flow_mock.Idempotency.Locks.{
  Acquired, acquired, busy, lock_error, try_acquire_lock, release_lock,
}
use pay_flow_mock.Idempotency.Cache.{
  Lookup, hit, miss, lookup_error, lookup_cached_response, store_cached_response,
}

-- A body that cannot be read is `none`.
pub record HttpRequest : Type 0 where
  pub method : Text
  pub path : Text
  pub idempotency_key : Text
  pub x_idempotency_key : Text
  pub body : Option Text

-- What responseRecorder holds; a status of 0 is one that was never written.
pub record Recorded : Type 0 where
  pub status_val : ℕ
  pub header : List (Text × List Text)
  pub content : Text

pub data Reply : Type 0 where
  response : ℕ → List (Text × List Text) → Text → Reply
  idempotency_error : ℕ → Text → Reply

pub data Place : Type 0 where
  first_lookup lock_attempt poll second_lookup store_place release_place : Place

abbrev pub ServeState : Type 0 → Type 0
ServeState X = Stores × X

pub record ServeWorld (X : Type 0) : Type 0 where
  pub before : Place → ServeState X → StoreEnv × ServeState X
  pub next : HttpRequest → X → Recorded × X
  pub sha256_hex : Text → Text
  pub is_cancelled : X → Bool
  pub polls : ℕ  -- how many rounds the wait timeout lets

-- statusCode
unfoldable pub status_code : ℕ → ℕ
status_code n = if n == 0 then 200 else n

-- writeCachedResponse
unfoldable pub write_cached_response : CachedResponse → Reply
unfolding status_code
write_cached_response resp =
    response (status_code resp.response_status) resp.response_headers resp.response_body

-- The key of either header.
unfoldable pub request_key : HttpRequest → Text
request_key req =
    if is_empty (trim_space req.idempotency_key)
    then trim_space req.x_idempotency_key
    else trim_space req.idempotency_key

-- The answer where a response is cached.
unfoldable pub reply_cached : HttpRequest → Text → CachedResponse → Reply
unfolding matches_request write_cached_response
reply_cached req hash resp =
    if matches_request resp req.method req.path hash
    then write_cached_response resp
    else idempotency_error 409 (codes "idempotency key reused with different request")

-- The response that is stored for a request.
unfoldable pub recorded_response : Idempotency → ℕ → HttpRequest → Text → Recorded → CachedResponse
unfolding status_code
recorded_response m now req hash rec = record {
  request_path = req.path;
  request_method = req.method;
  request_hash = hash;
  response_status = status_code rec.status_val;
  response_headers = rec.header;
  response_body = rec.content;
  created_at = now;
  expires_at = now + pos_part m.response_ttl;
}

module _ {X : Type 0} (world : ServeWorld X) (m : Idempotency) where
  abbrev pub look : Place → Text → ServeState X → Lookup × ServeState X
  look place key st =
      let (env, (s, x)) = world.before place st in
      let (found, s') = lookup_cached_response m env key s in (found, (s', x))

  -- The deferred releaseLock.
  abbrev pub release : LockHandle → ServeState X → ServeState X
  release h st = let (env, (s, x)) = world.before release_place st in (release_lock m env h s, x)

  -- The handler's run, under the lock, and the store of what it answered.
  unfoldable pub run_next :
      HttpRequest → Text → Text → LockHandle → ServeState X → Reply × ServeState X
  unfolding recorded_response write_cached_response
  run_next req key hash h (s, x) =
      let (rec, x1) = world.next req x in
      let (env, (s1, x2)) = world.before store_place (s, x1) in
      let resp = recorded_response m env.now req hash rec in
      let (e, h', s2) = store_cached_response m env key resp h s1 in
      (write_cached_response resp, release h' (s2, x2))

  -- The end of the lookup after the lock was acquired.
  unfoldable pub holding :
      HttpRequest → Text → Text → LockHandle → Lookup × ServeState X → Reply × ServeState X
  unfolding reply_cached run_next
  holding req key hash h (hit resp, st) = (reply_cached req hash resp, release h st)
  holding req key hash h (miss, st) = run_next req key hash h st
  holding req key hash h (lookup_error e, st) = run_next req key hash h st

  -- waitForCachedResponse: `none` where it ends with an error
  unfoldable pub wait_for_cached_response :
      ℕ → Text → ServeState X → Option CachedResponse × ServeState X
  wait_for_cached_response zero key st = (none, st)
  wait_for_cached_response (suc left) key st =
      if world.is_cancelled st.1
      then (none, st)
      else waited (look poll key st) (wait_for_cached_response left key)
    where
      waited :
          Lookup × ServeState X
          → (ServeState X → Option CachedResponse × ServeState X)
          → Option CachedResponse × ServeState X
      waited (hit resp, st) again = (some resp, st)
      waited (miss, st) again = again st
      waited (lookup_error e, st) again = again st

  unfoldable pub after_wait :
      HttpRequest → Text → Option CachedResponse × ServeState X → Reply × ServeState X
  unfolding reply_cached
  after_wait req hash (some resp, st) = (reply_cached req hash resp, st)
  after_wait req hash (none, st) =
      (idempotency_error 409 (codes "request with this idempotency key is already in progress"), st)

  unfoldable pub after_acquire :
      HttpRequest → Text → Text → Acquired × ServeState X → Reply × ServeState X
  unfolding holding wait_for_cached_response after_wait
  after_acquire req key hash (lock_error e, st) =
      (idempotency_error 503 (codes "unable to acquire idempotency lock"), st)
  after_acquire req key hash (busy, st) =
      after_wait req hash (wait_for_cached_response world.polls key st)
  after_acquire req key hash (acquired h, st) = holding req key hash h (look second_lookup key st)

  unfoldable pub acquire_and_serve : HttpRequest → Text → Text → ServeState X → Reply × ServeState X
  unfolding after_acquire build_lock_scope
  acquire_and_serve req key hash st =
      let (env, (s, x)) = world.before lock_attempt st in
      let (a, s') =
        try_acquire_lock m env (build_lock_scope req.method req.path key) key req.path req.method
          hash s in
      after_acquire req key hash (a, (s', x))

  -- The end of the first lookup.
  unfoldable pub after_lookup :
      HttpRequest → Text → Text → Lookup × ServeState X → Reply × ServeState X
  unfolding reply_cached acquire_and_serve
  after_lookup req key hash (hit resp, st) = (reply_cached req hash resp, st)
  after_lookup req key hash (miss, st) = acquire_and_serve req key hash st
  after_lookup req key hash (lookup_error e, st) = acquire_and_serve req key hash st

  -- The handler itself, without this middleware.
  abbrev pub pass_on : HttpRequest → ServeState X → Reply × ServeState X
  pass_on req (s, x) =
      let (rec, x') = world.next req x in
      (response (status_code rec.status_val) rec.header rec.content, (s, x'))

  unfoldable pub serve_body : HttpRequest → Text → Option Text → ServeState X → Reply × ServeState X
  unfolding after_lookup
  serve_body req key none st = (idempotency_error 400 (codes "unable to read request body"), st)
  serve_body req key (some body) st =
      after_lookup req key (world.sha256_hex body) (look first_lookup key st)

  -- Middleware, of a middleware and a handler that are not nil
  unfoldable pub serve : HttpRequest → ServeState X → Reply × ServeState X
  unfolding serve_body request_key is_idempotent_candidate_method
  serve req st =
      if not (is_idempotent_candidate_method req.method) || is_empty (request_key req)
      then pass_on req st
      else (if ltb 255 (length (request_key req))
          then (idempotency_error 400 (codes "idempotency key too long"), st)
          else serve_body req (request_key req) req.body st)
