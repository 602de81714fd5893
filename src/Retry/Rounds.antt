-- ===== src/Retry/Rounds.antt =====
-- The run of the retry loop when the context stays alive: which round decides it.
use pay_flow_mock.Prelude.{
  ◌==◌, ==_iff, ==_ne, replicate, pos_part, ℕ, zero, suc, ◌+◌, ◌-◌, ◌<◌, ◌≡◌, refl, ap, subst, ◌∙◌,
  true, false, Option, none, some, ◌∷◌, arith,
}
use pay_flow_mock.Errors.{max_retries_exceeded, Error, wrapped, Result, ok, err}
use pay_flow_mock.Floats.{Float64}
use pay_flow_mock.Retry.{
  Config, is_retryable, with_defaults, calculate_delay_with_jitter, Run, attempts, do_with_observer,
}
use pay_flow_mock.Psp.Breaker.{retryable_outcome}

module _ {A W : Type 0} (op : W → Result A × W) (ctx_err : W → Option Error)
    (wait : ℕ → W → Option Error × W) (max_attempts : ℕ) where
  -- The context is alive, the operation fails with a retryable error and the pause runs its course.
  pub data Fails (attempt : ℕ) (w : W) (e : Error) (w' : W) : Type 0 where
    fails :
        (v : W)
        → ctx_err w ≡ none
        → op w ≡ (err e, v)
        → is_retryable (some e) ≡ true
        → wait attempt v ≡ (none, w')
        → Fails attempt w e w'

  -- So many failed rounds in a row, from one attempt and one state of the world on.
  abbrev pub FailedRounds : (attempt n : ℕ) (w w' : W) → Type 0
  FailedRounds attempt zero w w' = w ≡ w'
  FailedRounds attempt (suc n) w w' =
      (e : Error) × (u : W) × Fails attempt w e u × FailedRounds (suc attempt) n u w'

  abbrev loop : ℕ → ℕ → Option Error → W → Run A W
  loop left attempt last w = attempts op ctx_err wait max_attempts left attempt last w

  -- A failed round that is not the last hands over to the next.
  Fails-next :
      (left attempt : ℕ) (last : Option Error) (w : W) (e : Error) (u : W)
      → Fails attempt w e u
      → attempt + suc left ≡ max_attempts
      → 0 < left
      → loop (suc left) attempt last w ≡ (
          let (result, observed, w') = loop left (suc attempt) (some e) u in
          (result, retryable_outcome ∷ observed, w'))
  unfolding attempts
  Fails-next left attempt last w e u (fails v alive failed more paused) total some_left =
      let early : (attempt == max_attempts - 1) ≡ false = ==_ne _ _ (omega arith) in
      rw (alive, failed, more, early, paused, attempts) refl

  -- The first round that succeeds decides, if there is one within the limit.
  attempts-success :
      (n left attempt : ℕ) (last : Option Error) (w u v : W) (a : A)
      → FailedRounds attempt n w u
      → ctx_err u ≡ none
      → op u ≡ (ok a, v)
      → n < left
      → attempt + left ≡ max_attempts
      → loop left attempt last w ≡ (ok a, replicate n retryable_outcome, v)
  unfolding attempts
  attempts-success n zero attempt last w u v a rounds alive done within total = absurd (omega arith)
  attempts-success zero (suc left) attempt last w u v a rounds alive done within total =
      rw (ap ctx_err rounds ∙ alive, ap op rounds ∙ done, attempts) refl
  attempts-success (suc n) (suc left) attempt last w u v a (e, t, f, rounds) alive done within
        total =
      Fails-next left attempt last w e t f total (omega arith)
      ∙ rw
          (attempts-success n left (suc attempt) (some e) t u v a rounds alive done (omega arith)
            (omega arith))
          refl

  -- Where every round fails with a retryable error, the last error comes back, wrapped.
  attempts-exhausted :
      (left attempt : ℕ) (last : Option Error) (w u v : W) (e : Error)
      → FailedRounds attempt left w u
      → ctx_err u ≡ none
      → op u ≡ (err e, v)
      → is_retryable (some e) ≡ true
      → attempt + suc left ≡ max_attempts
      → loop (suc left) attempt last w
        ≡ (err (wrapped max_retries_exceeded e), replicate (suc left) retryable_outcome, v)
  unfolding attempts
  attempts-exhausted zero attempt last w u v e rounds alive failed more total =
      let late : (attempt == max_attempts - 1) ≡ true = (==_iff _ _).1 (omega arith) in
      rw (ap ctx_err rounds ∙ alive, ap op rounds ∙ failed, more, late, attempts) refl
  attempts-exhausted (suc left) attempt last w u v e (d, t, f, rounds) alive failed more total =
      Fails-next (suc left) attempt last w d t f total (omega arith)
      ∙ rw
          (attempts-exhausted left (suc attempt) (some d) t u v e rounds alive failed more
            (omega arith))
          refl

-- The pause that DoWithObserver makes after an attempt.
abbrev pub pause :
    (fl : Float64) {W : Type 0}
    → (ℕ → W → Option Error × W)
    → (ℕ → W → fl.F)
    → Config fl.F
    → ℕ
    → W
    → Option Error × W
pause fl wait fraction cfg attempt w =
    wait (calculate_delay_with_jitter fl cfg attempt (fraction attempt w)) w

module _ (fl : Float64) {A W : Type 0} (op : W → Result A × W) (ctx_err : W → Option Error)
    (wait : ℕ → W → Option Error × W) (fraction : ℕ → W → fl.F) (config : Config fl.F) where
  abbrev pub Failed : (n : ℕ) (w w' : W) → Type 0
  Failed n w w' =
      let cfg = with_defaults fl config in
      FailedRounds op ctx_err (pause fl wait fraction cfg) (pos_part cfg.max_attempts) 0 n w w'

  -- After n retryable failures, with the context alive, a success within MaxAttempts is the
  -- result; each failure has been reported, and the operation has run n + 1 times.
  pub do_with_observer-success :
      (n : ℕ) (w u v : W) (a : A)
      → Failed n w u
      → ctx_err u ≡ none
      → op u ≡ (ok a, v)
      → n < pos_part (with_defaults fl config).max_attempts
      → do_with_observer fl op ctx_err wait fraction config w
        ≡ (ok a, replicate n retryable_outcome, v)
  unfolding do_with_observer
  do_with_observer-success n w u v a rounds alive done within =
      attempts-success op ctx_err _ _ n _ 0 none w u v a rounds alive done within (omega arith)

  -- With MaxAttempts retryable failures the last error comes back, wrapped.
  pub do_with_observer-exhausted :
      (n : ℕ) (w u v : W) (e : Error)
      → Failed n w u
      → ctx_err u ≡ none
      → op u ≡ (err e, v)
      → is_retryable (some e) ≡ true
      → suc n ≡ pos_part (with_defaults fl config).max_attempts
      → do_with_observer fl op ctx_err wait fraction config w
        ≡ (err (wrapped max_retries_exceeded e), replicate (suc n) retryable_outcome, v)
  unfolding do_with_observer
  do_with_observer-exhausted n w u v e rounds alive failed more total =
      let cfg = with_defaults fl config in
      let stop = pause fl wait fraction cfg in
      subst
        (λ k.
          attempts op ctx_err stop (pos_part cfg.max_attempts) k 0 none w
          ≡ (err (wrapped max_retries_exceeded e), replicate (suc n) retryable_outcome, v))
        total
        (attempts-exhausted op ctx_err stop _ n 0 none w u v e rounds alive failed more
          (omega arith))
