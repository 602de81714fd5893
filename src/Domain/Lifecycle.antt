-- ===== src/Domain/Lifecycle.antt =====
-- The diagram of the payment's life, beside the code's test for a valid transition.
use pay_flow_mock.Prelude.{ℕ, zero, suc, ◌+◌, ◌≤◌, ◌<◌, ◌≡◌, refl, ◌↔◌, true, arith}
use pay_flow_mock.Domain.{
  Status, initiated, processing, success, failed, refunded, other, status_eq, valid_transition,
}

infix 40 ◌⟶◌
pub data ◌⟶◌ : Status → Status → Type 0 where
  start : initiated ⟶ processing
  succeed : processing ⟶ success
  fail : processing ⟶ failed
  refund : success ⟶ refunded

-- Some number of edges in a row.
pub data Walk (s : Status) : Status → ℕ → Type 0 where
  here : Walk s s zero
  next : {t u : Status} {n : ℕ} → Walk s t n → t ⟶ u → Walk s u (suc n)

ruleset edges = (start, succeed, fail, refund)

-- ValidTransition accepts exactly the edges of the diagram, for all texts that a Status can hold.
pub valid_transition-iff_edge : (s t : Status) → (valid_transition s t ≡ true) ↔ (s ⟶ t)
unfolding valid_transition status_eq
valid_transition-iff_edge s t = (only_edges s t, edges_pass)
  where
    only_edges : (s t : Status) → valid_transition s t ≡ true → s ⟶ t
    only_edges initiated t h = grind (arith, edges)
    only_edges processing t h = grind (arith, edges)
    only_edges success t h = grind (arith, edges)
    only_edges _ t h = grind (arith, edges)

    edges_pass : {s t : Status} → s ⟶ t → valid_transition s t ≡ true
    edges_pass start = refl
    edges_pass succeed = refl
    edges_pass fail = refl
    edges_pass refund = refl

-- How far a status is from the start.
abbrev pub stage : Status → ℕ
stage initiated = 0
stage processing = 1
stage success = 2
stage failed = 3
stage refunded = 3
stage (other s) = 0

edge-stage : {s t : Status} → s ⟶ t → (stage s < stage t) × (stage t ≤ 3)
edge-stage start = omega arith
edge-stage succeed = omega arith
edge-stage fail = omega arith
edge-stage refund = omega arith

-- A payment makes three transitions at most, and a walk of one or more does not come back.
pub Walk-bounded : {s t : Status} {n : ℕ} → Walk s t n → (n ≤ 3) × (stage s + n ≤ stage t)
Walk-bounded w = omega (arith, climbs w, stage_le _)
  where
    climbs : {s t : Status} {n : ℕ} → Walk s t n → stage s + n ≤ stage t
    climbs here = omega arith
    climbs (next w e) = omega (arith, climbs w, edge-stage e)

    stage_le : (s : Status) → stage s ≤ 3
    stage_le (other s) = omega arith
    stage_le _ = omega arith
