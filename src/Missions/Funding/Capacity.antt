-- ===== src/Missions/Funding/Capacity.antt =====
-- The capacity check before a funding: src/checkout/wallet-validation.ts.
use waylo_app.Base.{ℕ, ◌+◌, ◌*◌, ◌<◌, ◌≡◌, ◌↔◌, none, some, arith}
use waylo_app.Schema.Rows.{Mission}
use waylo_app.Money.{required_capacity_cents}
use waylo_app.App.{Db, World, ok}
use waylo_app.Missions.Funding.{
  Authorization, undeclared, not_cents, cents, wallet_balance, check_funding_capacity,
  validate_mission_funding, capacity_in_tx,
}

-- The declared amount and the wallet reach 120% of the total, which is rounded down to whole cents.
-- What is not declared is taken to be enough.
pub IsCovered : (balance total : ℕ) → Authorization → Type 0
IsCovered balance total undeclared = Unit
IsCovered balance total not_cents = ⊥
IsCovered balance total (cents n) = total * 12 < (n + balance + 1) * 10

module _ (locked : Db → Db) (id : ℕ) (w : World) (m : Mission)
    (there : w.db.missions.row id ≡ some m) where
  abbrev balance : ℕ
  balance = wallet_balance m.buyer_id (locked w.db)

  abbrev total : ℕ
  total = m.budget_cents + m.commission_cents

  -- The check of a mission that is there lets it pass exactly where the declared amount and the
  -- wallet of the buyer reach 120% of the total, or where nothing is declared.
  pub check_funding_capacity_iff :
      (declared : Authorization)
      → ((check_funding_capacity locked id m.budget_cents m.commission_cents declared w).0
          ≡ ok none)
        ↔ IsCovered balance total declared
  unfolding check_funding_capacity validate_mission_funding capacity_in_tx required_capacity_cents
      IsCovered
  check_funding_capacity_iff undeclared = ground (arith, there)
  check_funding_capacity_iff not_cents = ground (arith, there)
  check_funding_capacity_iff (cents n) = ground (arith, there)
