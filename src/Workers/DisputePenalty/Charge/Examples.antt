-- ===== src/Workers/DisputePenalty/Charge/Examples.antt =====
-- The last charge that is allowed, which Stripe refuses.
use waylo_app.Base.{◌≡◌, refl, Bool, false, none, some}
use waylo_app.Base.Table.{find_many}
use waylo_app.Schema.Status.{MissionStatus, PenaltyStatus}
use waylo_app.Schema.Rows.{Penalty}
use waylo_app.App.{World, ok}
use waylo_app.Samples.{sample_world, sample_user, single}
use waylo_app.Workers.Batch.{unlocked, update_all, fetch_all, claim_outbox_batch}
use waylo_app.Workers.DisputePenalty.{
  PenaltyRun, ClaimedPenalty, charge_penalty, run_dispute_penalty_worker_once,
  sweep_stuck_penalties, claim_penalty_batch, charge_all, charge_with, fail_penalty,
  update_penalty_row, suspend_user,
}
use waylo_app.Workers.DisputePenalty.Charge.{Outcome, charge_penalty_outcome}

abbrev owed : Penalty
owed = record {
  user_id = 1;
  amount_cents = 500;
  status = PenaltyStatus.pending;
  attempts = 2;
  stripe_payment_intent_id = none;
}

abbrev owed_world : World
owed_world =
    let w = sample_world MissionStatus.in_dispute in
    record w { db = record w.db { penalties = single 7 owed } }

abbrev answers : Bool → PenaltyRun
answers paid = record { locked = λ k. false; meanwhile = λ k db. db; charge = λ k. some (88, paid) }

abbrev sample_charge : ClaimedPenalty
sample_charge = record {
  mission_id = 7;
  user_id = 1;
  amount_cents = 500;
  attempts = 3;
  payment_method_id = some 56;
}

charge_penalty_outcome_example :
    Outcome
      (answers false)
      3
      sample_charge
      owed
      owed
      sample_user
      sample_user
      owed_world
      (charge_penalty (answers false) 3 sample_charge owed_world)
charge_penalty_outcome_example =
    charge_penalty_outcome (answers false) 3 sample_charge owed owed sample_user sample_user
      owed_world refl refl refl refl

-- two attempts have failed, and the third suspends the account
third_charge :
    (run_dispute_penalty_worker_once (answers false) 3 50 owed_world).0
    ≡ ok (record { paid = 0; failed = 0; suspended = 1 })
unfolding run_dispute_penalty_worker_once sweep_stuck_penalties claim_penalty_batch charge_all
    charge_penalty charge_with fail_penalty update_penalty_row suspend_user claim_outbox_batch
    unlocked update_all fetch_all find_many
third_charge = refl
