-- ===== src/Idempotency/Flight/Tests.antt =====
-- Two requests under two keys at once, and a lock that a late request takes from a retry.
use pay_flow_mock.Prelude.{Text, codes, text_eq, ℕ, ◌≡◌, refl, false, List, [], ◌∷◌, arith}
use pay_flow_mock.Idempotency.{redis_lock, LockHandle, Stores, lock_key}
use pay_flow_mock.Idempotency.Locks.{acquired, try_acquire_lock, release_lock}
use pay_flow_mock.Idempotency.Tests.{middleware, at, empty_stores}
use pay_flow_mock.Idempotency.Flight.{
  FlightState, pass, enter, FlightReach, at_start, after_step, Apart, FlightReach-Apart,
}

abbrev redis_handle : Text → LockHandle
redis_handle scope = record { kind = redis_lock; key = scope; token = codes "h"; completed = false }

abbrev with_locks : List (Text × (Text × ℕ)) → Stores
with_locks locks = record { responses = []; locks = locks; rows = [] }

first_enters :
    try_acquire_lock middleware
      (at 10)
      (codes "a")
      (codes "a")
      (codes "/p")
      (codes "POST")
      (codes "h")
      empty_stores
    ≡ (
      acquired (redis_handle (codes "a")),
      with_locks ((lock_key (codes "a"), (codes "h", 60)) ∷ []),
    )
unfolding try_acquire_lock
first_enters = refl

second_enters :
    try_acquire_lock middleware
      (at 30)
      (codes "b")
      (codes "b")
      (codes "/p")
      (codes "POST")
      (codes "h")
      (with_locks ((lock_key (codes "a"), (codes "h", 60)) ∷ []))
    ≡ (
      acquired (redis_handle (codes "b")),
      with_locks
          ((lock_key (codes "a"), (codes "h", 60)) ∷ (lock_key (codes "b"), (codes "h", 80)) ∷ []),
    )
unfolding try_acquire_lock text_eq
second_enters = refl

abbrev both : FlightState
both = record {
  now = 30;
  stores =
      with_locks
        ((lock_key (codes "a"), (codes "h", 60)) ∷ (lock_key (codes "b"), (codes "h", 80)) ∷ []);
  flights =
      record { handle = redis_handle (codes "b"); until = 80 }
      ∷ record { handle = redis_handle (codes "a"); until = 60 }
      ∷ [];
}

both_reached : FlightReach middleware both
both_reached =
    after_step
      (after_step
        (after_step (at_start 10 empty_stores) (
          enter (at 10) (codes "a") (codes "a") (codes "/p") (codes "POST") (codes "h") refl refl
            first_enters))
        (pass 30 (omega arith)))
      (enter (at 30) (codes "b") (codes "b") (codes "/p") (codes "POST") (codes "h") refl refl
        second_enters)

FlightReach-Apart_example : Apart middleware 30 both.flights
FlightReach-Apart_example = FlightReach-Apart middleware refl both_reached

-- At 70 a retry of the same body has taken the lock that lapsed at 60; the end of the first request
-- at 75 takes it away.
late_release :
    release_lock middleware
      (at 75)
      (redis_handle (codes "a"))
      (try_acquire_lock middleware
        (at 70)
        (codes "a")
        (codes "a")
        (codes "/p")
        (codes "POST")
        (codes "h")
        (with_locks ((lock_key (codes "a"), (codes "h", 60)) ∷ []))).1
    ≡ with_locks []
unfolding release_lock try_acquire_lock text_eq
late_release = refl
