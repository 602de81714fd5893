-- ===== src/Ledger/Runs.antt =====
-- Runs of steps, and what they keep.
use pay_flow_mock.Prelude.{
  if◌then◌else◌, ==_refl, some_inj, ℤ, Text, ℕ, ◌≡◌, refl, sym, ap, subst, ◌∙◌, ◌≢◌, inl, inr, some,
}
use pay_flow_mock.Repository.{PaymentRow, Db, Env, find_payment}
use pay_flow_mock.Repository.Payments.{PaymentRepo}
use pay_flow_mock.Domain.{Status, success, refunded, valid_transition}
use pay_flow_mock.Domain.Lifecycle.{◌⟶◌, valid_transition-iff_edge}
use pay_flow_mock.Repository.Updates.RefundSuccess.{refund_payment_atomic-ok}
use pay_flow_mock.Repository.Updates.Refunds.{refund_payment_atomic}
use pay_flow_mock.Repository.Updates.Success.{broken, with_status}
use pay_flow_mock.Errors.{Result, ok, Result-cases}
use pay_flow_mock.Repository.Updates.Atomic.{IsAtomic}
use pay_flow_mock.Ledger.{Step, Reach, step}
use pay_flow_mock.Ledger.Change.{find_payment-changed, SameData}
use pay_flow_mock.Ledger.Progress.{Step-AllOnward}

-- Any number of steps, from tables to tables.
pub data Steps (r : PaymentRepo) (db : Db) : Db → Type 0 where
  done : Steps r db db
  more : {mid after : Db} → Steps r db mid → Step r mid after → Steps r db after

SameData-trans : (a b c : PaymentRow) → SameData a b → SameData b c → SameData a c
SameData-trans x y z (i, m, a, c, k) (i', m', a', c', k') = (i' ∙ i, m' ∙ m, a' ∙ a, c' ∙ c, k' ∙ k)

refunded_final : {to : Status} → ¬ (refunded ⟶ to)
unfolding valid_transition
refunded_final {to} edge = let valid = (valid_transition-iff_edge refunded to).1 edge in cc

module _ (r : PaymentRepo) where
  pub Steps-trans : {a b c : Db} → Steps r a b → Steps r b c → Steps r a c
  Steps-trans s done = s
  Steps-trans s (more t last) = more (Steps-trans s t) last

  pub Reach-Steps : {db after : Db} → Reach r db → Steps r db after → Reach r after
  Reach-Steps reach done = reach
  Reach-Steps reach (more s last) = step (Reach-Steps reach s) last

  -- A payment that is stored is stored after any run, with the data it had.
  pub Steps-SameData :
      {db after : Db}
      → Steps r db after
      → (j : ℕ) (row : PaymentRow) → find_payment j db.payments ≡ some row
      → (new : PaymentRow) × (find_payment j after.payments ≡ some new) × SameData row new
  Steps-SameData done j row found = (row, found, (refl, refl, refl, refl, refl))
  Steps-SameData (more s last) j row found =
      let (mid, at_mid, same) = Steps-SameData s j row found in
      let (new, at_end, (same', _)) = Step-AllOnward r last j mid at_mid in
      (new, at_end, SameData-trans row mid new same same')

  -- A call that is atomic, and a step when it ends well.
  pub outcome-Steps :
      {A : Type 0} (env : Env) (db : Db) (call : Env → Result A × Db)
      → IsAtomic call env db
      → ((env' : Env) (a : A) (after : Db) → call env' ≡ (ok a, after) → Step r db after)
      → Steps r db (call env).1
  outcome-Steps env db call atomic is_step = elim (Result-cases (call env).0) [
    | inl (a, fine) ↦ more done (is_step env a _ (ap (λ result. (result, (call env).1)) fine))
    | inr (e, broken) ↦ elim (atomic e broken) [
      | inl kept ↦ subst (Steps r db) (sym kept) done
      | inr (lands, (env', draws, (a, ran))) ↦ more done (is_step env' a _ ran)
    ]
  ]

  Steps-refunded :
      {db after : Db} (i : ℕ) (row : PaymentRow)
      → Steps r db after
      → find_payment i db.payments ≡ some row
      → row.status ≡ refunded
      → (new : PaymentRow) × (find_payment i after.payments ≡ some new) × (new.status ≡ refunded)
  Steps-refunded i row done found stays = (row, found, stays)
  Steps-refunded i row (more s last) found stays =
      let (mid, at_mid, held) = Steps-refunded i row s found stays in
      let (new, at_end, (_, moved)) = Step-AllOnward r last i mid at_mid in
      (
        new,
        at_end,
        elim moved [
          | inl same ↦ same ∙ held
          | inr edge ↦ absurd (refunded_final (subst (λ s'. s' ⟶ new.status) held edge))
        ],
      )

  -- Once refunded, a payment is refunded no second time: after any run of steps that follows, a
  -- refund of it, with any amount, key and environment, returns an error.
  pub refund_once :
      (env later : Env) (i : ℕ) (amount again : ℤ) (key other_key : Text) (db : Db) {id : ℕ}
      {after much_later : Db}
      → refund_payment_atomic r env i amount key db ≡ (ok id, after)
      → Steps r after much_later
      → (second : ℕ) → (refund_payment_atomic r later i again other_key much_later).0 ≢ ok second
  refund_once env later i amount again key other_key db {id} {after} {much_later} h run second h2 =
      let (old, _, q) = refund_payment_atomic-ok r env i amount key db h in
      let (newer, _, q') =
        refund_payment_atomic-ok r later i again other_key much_later
          (λ k. (h2 k, (refund_payment_atomic r later i again other_key much_later).1)) in
      let new = with_status env refunded old in
      let now : find_payment i after.payments ≡ some new =
        ap (find_payment i) q.changed.written
        ∙ find_payment-changed i old new db.payments i q.changed.found refl
        ∙ ap (λ b. if b then some new else find_payment i db.payments) (==_refl i) in
      let (last, at_last, still) = Steps-refunded i new run now refl in
      let same : last ≡ newer = some_inj (sym at_last ∙ q'.changed.found) in
      let clash : refunded ≡ success =
        sym still ∙ ap (λ row. row.status) same ∙ q'.changed.expected in
      cc
