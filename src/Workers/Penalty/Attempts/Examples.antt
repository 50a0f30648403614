-- ===== src/Workers/Penalty/Attempts/Examples.antt =====
-- A penalty whose charge succeeds, and whose hold Stripe does not release.
use waylo_app.Base.{◌≡◌, refl, true, false, none, some}
use waylo_app.Schema.Status.{MissionStatus, TransferStatus, is_escrow_status}
use waylo_app.Schema.Rows.{PenaltyDebitOutbox}
use waylo_app.App.{World, ok}
use waylo_app.Samples.{sample_world, single, undisturbed}
use waylo_app.Workers.Outbox.{next_row, eligible}
use waylo_app.Workers.Transfer.{count}
use waylo_app.Workers.Penalty.{
  PenaltyRound, ClaimedPenalty, claimed_penalty, claim_next, attempt, run_penalty_worker_once,
}
use waylo_app.Workers.Penalty.Attempts.{Outcome, penalty_outcome}

abbrev sample_penalty : PenaltyDebitOutbox
sample_penalty = record {
  user_id = 2;
  amount_cents = 19_000;
  status = TransferStatus.submitted;
  attempts = 4;
  stripe_payment_intent_id = none;
}

abbrev penalty_world : World
penalty_world =
    let w = sample_world MissionStatus.disputed_fraud in
    record w { db = record w.db { penalty_debits = single 7 sample_penalty } }

abbrev unreleased : PenaltyRound
unreleased = record {
  age = λ k. 10_000;
  locked = λ k. false;
  response = record { charge = some (88, true); can_cancel = true; cancels = false };
  others = undisturbed;
}

abbrev sample_claim : ClaimedPenalty
sample_claim = claimed_penalty penalty_world.db 7 sample_penalty

penalty_outcome_example :
    Outcome 5 unreleased 7 sample_claim sample_penalty sample_penalty penalty_world
      (attempt 5 unreleased 7 sample_claim penalty_world)
penalty_outcome_example =
    penalty_outcome 5 unreleased 7 sample_claim sample_penalty sample_penalty penalty_world refl
      refl

-- at the last attempt the row is abandoned although the traveler's card has been charged
abandoned_although_charged :
    (run_penalty_worker_once 5 1 (λ i. unreleased) penalty_world).0
    ≡ ok (record { settled = 0; failed = 0; abandoned = 1 })
unfolding run_penalty_worker_once claim_next next_row eligible attempt count is_escrow_status
abandoned_although_charged = refl
