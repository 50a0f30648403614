-- ===== src/Money.antt =====
-- Amounts in whole cents: src/missions/mission-common.ts (ceiling and hard cap of a substitution),
-- src/checkout/wallet-validation.ts (required capacity).
pub mod Bounds
use waylo_app.Base.{ℕ, ◌*◌, ◌/◌}

-- `Math.floor((budgetCents * 12) / 10)`
unfoldable pub substitution_ceiling_cents : ℕ → ℕ
substitution_ceiling_cents budget = budget * 12 / 10

-- `Math.floor((budgetCents * 15) / 10)`
unfoldable pub substitution_hard_cap_cents : ℕ → ℕ
substitution_hard_cap_cents budget = budget * 15 / 10

-- `Math.floor((missionTotalCents * 12) / 10)`
unfoldable pub required_capacity_cents : ℕ → ℕ
required_capacity_cents total = total * 12 / 10
