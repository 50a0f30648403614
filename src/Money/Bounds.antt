-- ===== src/Money/Bounds.antt =====
-- Bounds that relate the ceilings of src/missions/mission-common.ts.
use waylo_app.Base.{ℕ, ◌+◌, ◌≤◌, arith}
use waylo_app.Money.{
  substitution_ceiling_cents, substitution_hard_cap_cents, required_capacity_cents,
}

pub ceiling-le-hard_cap : (b : ℕ) → substitution_ceiling_cents b ≤ substitution_hard_cap_cents b
unfolding substitution_ceiling_cents substitution_hard_cap_cents
ceiling-le-hard_cap b = omega arith

pub budget-le-ceiling : (b : ℕ) → b ≤ substitution_ceiling_cents b
unfolding substitution_ceiling_cents
budget-le-ceiling b = omega arith

pub held-le-required :
    (b c : ℕ) → substitution_ceiling_cents b + c ≤ required_capacity_cents (b + c)
unfolding substitution_ceiling_cents required_capacity_cents
held-le-required b c = omega arith
