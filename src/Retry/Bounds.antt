-- ===== src/Retry/Bounds.antt =====
-- How often a run tries, and what it reports.
use pay_flow_mock.Prelude.{
  ◌==◌, Bool-cases, Option-cases, length, pos_part, ℕ, zero, suc, ◌-◌, ◌≤◌, ◌<◌, ◌≡◌, refl, ◌≢◌,
  inl, inr, Bool, true, false, Option, none, some, List, [], ◌∷◌, arith,
}
use pay_flow_mock.Errors.{Error, Result, ok, err}
use pay_flow_mock.Psp.Breaker.{Outcome, success_outcome, retryable_outcome}
use pay_flow_mock.Floats.{Float64}
use pay_flow_mock.Retry.{
  Config, is_retryable, with_defaults, Run, after_wait, after_op, attempts, do_with_observer,
}

-- Every outcome but the last is a retryable error, and none is a success.
abbrev pub IsTrace : List Outcome → Type 0
IsTrace [] = Unit
IsTrace (o ∷ []) = o ≢ success_outcome
IsTrace (o ∷ p ∷ os) = (o ≡ retryable_outcome) × IsTrace (p ∷ os)

IsTrace-cons : (os : List Outcome) → IsTrace os → IsTrace (retryable_outcome ∷ os)
IsTrace-cons [] h = λ e. cc
IsTrace-cons (o ∷ os) h = (refl, h)

abbrev pub is_ok : {A : Type 0} → Result A → Bool
is_ok (ok a) = true
is_ok (err e) = false

-- The failures reported by a run of at most so many rounds: a success has used one round more.
abbrev pub Reports : {A W : Type 0} → ℕ → Run A W → Type 0
Reports left (result, observed, w) =
    (length observed ≤ left) × (is_ok result ≡ true → length observed < left) × IsTrace observed

module _ {A W : Type 0} (op : W → Result A × W) (ctx_err : W → Option Error)
    (wait : ℕ → W → Option Error × W) (max_attempts : ℕ) where
  after_wait-Reports :
      (left : ℕ) (again : Error → W → Run A W) (e : Error) (paused : Option Error × W)
      → ((w : W) → Reports left (again e w))
      → Reports (suc left) (after_wait op ctx_err wait max_attempts again e paused)
  unfolding after_wait
  after_wait-Reports left again e (some ctx_error, w) h = (omega arith, λ p. cc, λ p. cc)
  after_wait-Reports left again e (none, w) h =
      let (few, fewer, trace) = h w in
      (omega arith, λ p. omega (arith, fewer p), IsTrace-cons (again e w).1 trace)

  after_op-Reports :
      (left attempt : ℕ) (again : Error → W → Run A W) (answer : Result A × W)
      → ((e : Error) (w : W) → Reports left (again e w))
      → Reports (suc left) (after_op op ctx_err wait max_attempts attempt again answer)
  unfolding after_op
  after_op-Reports left attempt again (ok a, w) h = (omega arith, λ p. omega arith, tt)
  after_op-Reports left attempt again (err e, w) h = elim (Bool-cases (is_retryable (some e))) [
    | inr no_more ↦ rw no_more (omega arith, λ p. cc, λ p. cc)
    | inl more ↦ rw more elim (Bool-cases (attempt == max_attempts - 1)) [
      | inl last ↦ rw last (omega arith, λ p. cc, λ p. cc)
      | inr early ↦ rw early (after_wait-Reports left again e (wait attempt w) (h e))
    ]
  ]

  -- A run of at most `left` rounds reports at most as many failures, and fewer if it succeeds.
  -- All but the last are retryable, and none is a success.
  pub attempts-Reports :
      (left attempt : ℕ) (last : Option Error) (w : W)
      → Reports left (attempts op ctx_err wait max_attempts left attempt last w)
  unfolding attempts
  attempts-Reports zero attempt none w = (omega arith, λ p. cc, tt)
  attempts-Reports zero attempt (some e) w = (omega arith, λ p. cc, tt)
  attempts-Reports (suc left) attempt last w = elim (Option-cases (ctx_err w)) [
    | inr (e, ended) ↦ rw (ended, attempts) (omega arith, λ p. cc, tt)
    | inl alive ↦
        rw (alive, attempts)
          (after_op-Reports left attempt
            (λ e. attempts op ctx_err wait max_attempts left (suc attempt) (some e)) (op w)
            (λ e w'. attempts-Reports left (suc attempt) (some e) w'))
  ]

module _ (fl : Float64) {A W : Type 0} (op : W → Result A × W) (ctx_err : W → Option Error)
    (wait : ℕ → W → Option Error × W) (fraction : ℕ → W → fl.F) where
  -- DoWithObserver tries at most MaxAttempts times, with 3 in place of a number below 1.
  pub do_with_observer-Reports :
      (config : Config fl.F) (w : W)
      → Reports
          (pos_part (with_defaults fl config).max_attempts)
          (do_with_observer fl op ctx_err wait fraction config w)
  unfolding do_with_observer
  do_with_observer-Reports config w = attempts-Reports op ctx_err _ _ _ 0 none w
