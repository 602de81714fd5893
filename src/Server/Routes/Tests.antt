-- ===== src/Server/Routes/Tests.antt =====
-- A payment posted twice to the assembled server, on empty stores, with a chi that finds a path
-- letter by letter.
use pay_flow_mock.Prelude.{
  length, pos, Text, codes, is_empty, trim_space, ℕ, ◌≤◌, ◌≡◌, refl, ap, true, false, Option, none,
  some, [], arith,
}
use pay_flow_mock.Errors.{Error}
use pay_flow_mock.Ledger.{empty_db}
use pay_flow_mock.Ledger.Order.{repo}
use pay_flow_mock.Repository.{find_payment_by_key}
use pay_flow_mock.Service.{State}
use pay_flow_mock.Service.Answers.{Stored}
use pay_flow_mock.Service.Tests.{request, request_valid}
use pay_flow_mock.Psp.Mock.Tests.{dice}
use pay_flow_mock.Idempotency.{Stores, Idempotency, redis_get, StoreEnv, build_lock_scope, find_row}
use pay_flow_mock.Idempotency.Serve.{
  HttpRequest, Place, store_place, release_place, ServeWorld, request_key,
}
use pay_flow_mock.Idempotency.Once.{unshared}
use pay_flow_mock.Idempotency.Fresh.{IsFresh}
use pay_flow_mock.Server.Tests.{passing, fresh_outside, fresh-IsQuiet}
use pay_flow_mock.Server.Routes.{Endpoint, server_routes, exact_route, Web, server}
use pay_flow_mock.Server.Routes.Once.{paid, created_reply, repeated_post-pays_once}

abbrev found_as : Option Endpoint → Option (Endpoint × Text)
found_as none = none
found_as (some e) = some (e, codes "7")

abbrev web : Web ℕ
web = record {
  find = λ method path. found_as (exact_route server_routes method path);
  unrouted = λ req. record { status_val = 404; header = []; content = [] };
  scrape = λ x. record { status_val = 200; header = []; content = [] };
  parse_id = λ s. some 7;
  decode_create = λ body. some request;
  decode_refund = λ body. none;
  encode = λ b. codes "{}";
  pool_pings = λ x. true;
  exact = λ method path h. (codes "7", ap found_as h);
}

abbrev no_text : Error → Text
no_text e = []

abbrev alone : ServeWorld (State ℕ)
alone = record {
  before = λ place st. (record { now = 10; fails = λ op. false }, st);
  next = λ req s. (record { status_val = 0; header = []; content = [] }, s);
  sha256_hex = λ body. body;
  is_cancelled = λ s. false;
  polls = 3;
}

abbrev m : Idempotency
m = record {
  has_redis = true;
  has_db = true;
  response_ttl = pos 1000;
  lock_ttl = pos 15;
  request_timeout = pos 60;
  wait_timeout = pos 8;
  poll_every = pos 1;
}

abbrev post : HttpRequest
post = record {
  method = codes "POST";
  path = codes "/v1/payments";
  idempotency_key = codes "k-1";
  x_idempotency_key = [];
  body = some (codes "{}");
}

abbrev empty_stores : Stores
empty_stores = record { responses = []; locks = []; rows = [] }

-- The first request charges for so long that its lock lapses, and the release fails.
abbrev slow : Place → StoreEnv
slow store_place = record { now = 300; fails = λ op. false }
slow release_place = record { now = 301; fails = λ op. true }
slow _ = record { now = 10; fails = λ op. false }

-- An hour of trouble, in which only the read of Redis works.
abbrev troubled : Place → StoreEnv
troubled place = record { now = 900; fails = λ op. elim op [ redis_get ↦ false | _ ↦ true ] }

keyed : is_empty (request_key post) ≡ false
unfolding request_key trim_space
keyed = refl

key_short : length (request_key post) ≤ 255
unfolding request_key trim_space
key_short = omega arith

nothing_known :
    IsFresh 10
      (request_key post)
      (build_lock_scope post.method post.path (request_key post))
      empty_stores
unfolding find_row
nothing_known = record { unanswered = refl; unleased = refl; unlocked = refl }

repeated_post-pays_once_example :
    (stores' : Stores) × (after : State ℕ) × (server dice passing passing fresh_outside repo web
        no_text m
        (unshared alone slow)
        post
        (empty_stores, (empty_db, 1))
      ≡ (created_reply web.encode 101, (stores', after)))
    × Stored (paid 101) after.0
    × (server dice passing passing fresh_outside repo web no_text m
          (unshared alone troubled)
          post
          (stores', after)
        ≡ (created_reply web.encode 101, (stores', after)))
unfolding find_payment_by_key
repeated_post-pays_once_example =
    repeated_post-pays_once dice passing passing (λ x. refl) (λ x. refl) fresh_outside fresh-IsQuiet
      repo (refl, refl) web no_text alone m refl (omega arith) post (codes "{}") request slow
      troubled empty_stores (empty_db, 1) 101 refl refl keyed key_short refl refl request_valid refl
      (λ e. cc) refl refl refl refl refl refl (omega arith) (omega arith) nothing_known refl
      (omega arith)
