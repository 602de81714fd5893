-- ===== src/Ledger/Progress.antt =====
-- What a step may do to a payment that is stored.
use pay_flow_mock.Prelude.{
  ◌==◌, if◌then◌else◌, ==_iff, Bool-cases, some_inj, ℕ, ◌≡◌, refl, sym, ap, subst, ◌∙◌, ◌⊎◌, inl,
  inr, some,
}
use pay_flow_mock.Domain.{Status, initiated, processing, success, refunded, Payment}
use pay_flow_mock.Domain.Lifecycle.{◌⟶◌, start, succeed, fail}
use pay_flow_mock.Repository.{PaymentRow, Db, Env, find_payment}
use pay_flow_mock.Repository.Payments.{PaymentRepo, payment_row}
use pay_flow_mock.Repository.Updates.Effects.{Changed}
use pay_flow_mock.Repository.Updates.Success.{
  paid, broken, with_status, update_payment_status-ok, update_payment_status_with_psp-ok,
  update_payment_failed-ok,
}
use pay_flow_mock.Repository.Updates.RefundSuccess.{refund_payment_atomic-ok}
use pay_flow_mock.Ledger.{
  Step, create, start_processing, succeed_payment, fail_payment, refund_payment, claim, reclaim,
  deliver, retry_later, give_up,
}
use pay_flow_mock.Ledger.Change.{find_payment-changed, SameData}
use pay_flow_mock.Ledger.Worker.{
  claim_batch-OnlyProgress, reclaim-OnlyProgress, mark_delivered-OnlyProgress,
  mark_retry-OnlyProgress, mark_dead-OnlyProgress,
}
use pay_flow_mock.Repository.Payments.Store.{Created, create_payment-ok}

-- The same payment, in its old status or one edge of the diagram further.
abbrev pub Onward : PaymentRow → PaymentRow → Type 0
Onward old new = SameData old new × ((new.status ≡ old.status) ⊎ (old.status ⟶ new.status))

abbrev pub AllOnward : Db → Db → Type 0
AllOnward before after =
    (j : ℕ) (row : PaymentRow)
    → find_payment j before.payments ≡ some row
    → (new : PaymentRow) × (find_payment j after.payments ≡ some new) × Onward row new

Changed-AllOnward :
    (before after : Db) (i : ℕ) (from : Status) (change : PaymentRow → PaymentRow)
    (old : PaymentRow)
    → Changed i from change before.payments after.payments old
    → SameData old (change old)
    → from ⟶ (change old).status
    → AllOnward before after
Changed-AllOnward before after i from change old q same edge j row found =
    let now =
      ap (find_payment j) q.written
      ∙ find_payment-changed i old (change old) before.payments j q.found same.0 in
    elim (Bool-cases (i == j)) [
      | inr other_id ↦ (
        row,
        now
            ∙ ap (λ b. if b then some (change old) else find_payment j before.payments) other_id
            ∙ found,
        ((refl, refl, refl, refl, refl), inl refl),
      )
      | inl this_id ↦
          let same_row : row ≡ old = some_inj (
            sym found
            ∙ ap (λ k. find_payment k before.payments) (sym ((==_iff i j).0 this_id))
            ∙ q.found) in
          (
            change old,
            now ∙ ap (λ b. if b then some (change old) else find_payment j before.payments) this_id,
            rw same_row (same, inr (subst (λ s. s ⟶ (change old).status) (sym q.expected) edge)),
          )
    ]

kept-AllOnward : (before after : Db) → after.payments ≡ before.payments → AllOnward before after
kept-AllOnward before after same j row found =
    (row, ap (find_payment j) same ∙ found, ((refl, refl, refl, refl, refl), inl refl))

Created-AllOnward :
    (env : Env) (request stored : Payment) (before after : Db)
    → Created env request stored before after
    → AllOnward before after
unfolding payment_row
Created-AllOnward env request stored before after made j row found =
    let now = ap (λ d. find_payment j d.payments) made.written in
    elim (Bool-cases (stored.id == j)) [
      | inr other_id ↦ (
        row,
        now
            ∙ ap (λ b. if b then some (payment_row stored) else find_payment j before.payments)
                other_id
            ∙ found,
        ((refl, refl, refl, refl, refl), inl refl),
      )
      | inl this_id ↦
          let same : stored.id ≡ j = (==_iff _ _).0 this_id in
          absurd (cc (made.new_id, found, same))
    ]

-- A step loses no payment, changes no id, merchant, amount, currency or key of one, and moves its
-- status along an edge of the diagram or not at all.
pub Step-AllOnward :
    (r : PaymentRepo) {before after : Db} → Step r before after → AllOnward before after
Step-AllOnward r {before} {after} (create env request stored h) =
    Created-AllOnward env request stored before after (create_payment-ok r env request before h)
Step-AllOnward r {before} {after} (start_processing env i h) =
    let (old, _, q, _) = update_payment_status-ok r env i before initiated processing h (λ e. cc) in
    Changed-AllOnward before after i initiated (with_status env processing) old q
      (refl, refl, refl, refl, refl) start
Step-AllOnward r {before} {after} (succeed_payment env i n f h) =
    let (old, _, _, q) =
      update_payment_status_with_psp-ok r env i before processing success n f h (λ e. cc) in
    Changed-AllOnward before after i processing (paid env success n f) old q.changed
      (refl, refl, refl, refl, refl) succeed
Step-AllOnward r {before} {after} (fail_payment env i n f reason h) =
    let (old, _, _, q) =
      update_payment_failed-ok r env i before processing n f reason h (λ e. cc) in
    Changed-AllOnward before after i processing (broken env n f reason) old q.changed
      (refl, refl, refl, refl, refl) fail
Step-AllOnward r {before} {after} (refund_payment env i amount key id row found covered h) =
    let (old, _, q) = refund_payment_atomic-ok r env i amount key before h in
    Changed-AllOnward before after i success (with_status env refunded) old q.changed
      (refl, refl, refl, refl, refl) ◌⟶◌.refund
Step-AllOnward r {before} {after} (claim env locked limit e) =
    kept-AllOnward before after
      (ap (λ d. d.payments) e ∙ (claim_batch-OnlyProgress env before locked limit).same_payments)
Step-AllOnward r {before} {after} (reclaim env stale_after e) =
    kept-AllOnward before after
      (ap (λ d. d.payments) e ∙ (reclaim-OnlyProgress env before stale_after).same_payments)
Step-AllOnward r {before} {after} (deliver env i e) =
    kept-AllOnward before after
      (ap (λ d. d.payments) e ∙ (mark_delivered-OnlyProgress env before i).same_payments)
Step-AllOnward r {before} {after} (retry_later env i next_at last_err e) =
    kept-AllOnward before after (
      ap (λ d. d.payments) e
      ∙ (mark_retry-OnlyProgress env before i next_at last_err).same_payments)
Step-AllOnward r {before} {after} (give_up env i last_err e) =
    kept-AllOnward before after
      (ap (λ d. d.payments) e ∙ (mark_dead-OnlyProgress env before i last_err).same_payments)
