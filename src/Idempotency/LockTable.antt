-- ===== src/Idempotency/LockTable.antt =====
-- The locks that Redis holds, before and after tryAcquireLock and releaseLock of
-- internal/middleware/idempotency.go.
use pay_flow_mock.Prelude.{
  Bool-cases, Option-cases, Text, text_eq, text_eq_iff, text_eq_refl, map_get, map_set,
  map_get-map_set, ℕ, ◌+◌, ◌<◌, ◌≡◌, refl, ap, ◌∙◌, ◌≢◌, ◌⊎◌, inl, inr, true, false, not, ◌||◌,
  Option, none, some, List, [], ◌∷◌, arith,
}
use pay_flow_mock.Idempotency.{
  redis_lock, LockHandle, Stores, Idempotency, redis_set_nx, redis_eval, StoreEnv, default_lock_ttl,
  duration_or, lock_key, redis_read,
}
use pay_flow_mock.Idempotency.Locks.{
  acquired, try_acquire_lock, drop_lock, release_redis, release_lock,
}

module _ (m : Idempotency) where
  pub redis_read-map_get :
      {A : Type 0} (now : ℕ) (key : Text) (entries : List (Text × (A × ℕ))) {a : A} {e : ℕ}
      → map_get text_eq key entries ≡ some (a, e)
      → now < e
      → redis_read now key entries ≡ some a
  redis_read-map_get now key [] h l = cc
  redis_read-map_get now key ((k, (b, d)) ∷ entries) {a} {e} h l =
      ground (arith, redis_read-map_get now key entries {a = a} {e = e})

  map_get-drop_lock :
      (env : StoreEnv) (k j : Text) (entries : List (Text × (Text × ℕ)))
      → k ≢ j
      → map_get text_eq j (drop_lock m env k entries) ≡ map_get text_eq j entries
  map_get-drop_lock env k j [] ne = refl
  map_get-drop_lock env k j ((i, entry) ∷ entries) ne =
      ground (arith, text_eq_iff i k, text_eq_iff i j, map_get-drop_lock env k j entries ne)

  -- The lock of a request that enters was free, and is in Redis from then on.
  pub enter-lock :
      (env : StoreEnv) (scope key path method token : Text) (s : Stores) {h : LockHandle}
      {after : Stores}
      → m.has_redis ≡ true
      → env.fails redis_set_nx ≡ false
      → try_acquire_lock m env scope key path method token s ≡ (acquired h, after)
      → (redis_read env.now (lock_key scope) s.locks ≡ none)
        × (h ≡ record { kind = redis_lock; key = scope; token = token; completed = false })
        × (after.locks
            ≡ map_set text_eq
                (lock_key scope)
                (token, env.now + duration_or m.lock_ttl default_lock_ttl)
                s.locks)
  unfolding try_acquire_lock
  enter-lock env scope key path method token s redis up taken =
      elim (Option-cases (redis_read env.now (lock_key scope) s.locks)) [
        | inr (holder, held) ↦ absurd (ground arith)
        | inl free ↦ (free, ground arith, ground arith)
      ]

  release_redis-locks :
      (env : StoreEnv) (h : LockHandle) (s : Stores) (j : Text)
      → (lock_key h.key ≢ j) ⊎ (redis_read env.now (lock_key h.key) s.locks ≢ some h.token)
      → map_get text_eq j (release_redis m env h.key h.token s).locks ≡ map_get text_eq j s.locks
  unfolding release_redis
  release_redis-locks env h s j other =
      elim (Option-cases (redis_read env.now (lock_key h.key) s.locks)) [
        | inl free ↦ ap (λ t. map_get text_eq j t.locks) (untouched (inl free))
        | inr (holder, held) ↦ elim (Bool-cases (text_eq holder h.token)) [
          | inr foreign ↦
              ap (λ t. map_get text_eq j t.locks) (untouched (inr (holder, held, foreign)))
          | inl own ↦ ap (λ t. map_get text_eq j t.locks) (dropped holder held own) ∙ elim other [
            | inl ne ↦ map_get-drop_lock env (lock_key h.key) j s.locks ne
            | inr hidden ↦ absurd (hidden (held ∙ ap some ((text_eq_iff holder h.token).0 own)))
          ]
        ]
      ]
    where
      untouched :
          (redis_read env.now (lock_key h.key) s.locks ≡ none)
            ⊎ ((holder : Text) × (redis_read env.now (lock_key h.key) s.locks ≡ some holder)
                × (text_eq holder h.token ≡ false))
          → release_redis m env h.key h.token s ≡ s
      untouched (inl free) = rw (free, release_redis) refl
      untouched (inr (holder, held, foreign)) = rw (held, foreign, release_redis) refl

      dropped :
          (holder : Text)
          → redis_read env.now (lock_key h.key) s.locks ≡ some holder
          → text_eq holder h.token ≡ true
          → release_redis m env h.key h.token s
            ≡ record s { locks = drop_lock m env (lock_key h.key) s.locks }
      dropped holder held own = rw (held, own, release_redis) refl

  -- The end of a request touches no other lock; it touches none where its token is not shown.
  pub leave-locks :
      (env : StoreEnv) (h : LockHandle) (s : Stores) (j : Text)
      → h.kind ≡ redis_lock
      → (lock_key h.key ≢ j) ⊎ (redis_read env.now (lock_key h.key) s.locks ≢ some h.token)
      → map_get text_eq j (release_lock m env h s).locks ≡ map_get text_eq j s.locks
  unfolding release_lock release_redis
  leave-locks env h s j redis other =
      rw redis elim (Bool-cases (not m.has_redis || env.fails redis_eval)) [
        | inl down ↦ rw down refl
        | inr eval_up ↦ rw eval_up (release_redis-locks env h s j other)
      ]

  pub some_not_none : {o : Option Text} {t : Text} → o ≡ some t → o ≡ none → ⊥
  some_not_none h k = cc

  text_ne : (k j : Text) → k ≢ j → text_eq k j ≡ false
  text_ne k j ne = ground (arith, text_eq_iff k j)

  -- A write of one lock keeps the others.
  pub kept :
      (k j : Text) (v : Text × ℕ) (locks after : List (Text × (Text × ℕ)))
      → after ≡ map_set text_eq k v locks
      → k ≢ j
      → map_get text_eq j after ≡ map_get text_eq j locks
  kept k j v locks after set ne =
      ap (map_get text_eq j) set
      ∙ map_get-map_set text_eq text_eq_iff k j v locks
      ∙ rw (text_ne k j ne) refl

  pub placed :
      (k : Text) (v : Text × ℕ) (locks after : List (Text × (Text × ℕ)))
      → after ≡ map_set text_eq k v locks
      → map_get text_eq k after ≡ some v
  placed k v locks after set =
      ap (map_get text_eq k) set
      ∙ map_get-map_set text_eq text_eq_iff k k v locks
      ∙ rw (text_eq_refl k) refl
