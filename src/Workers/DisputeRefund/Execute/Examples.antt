-- ===== src/Workers/DisputeRefund/Execute/Examples.antt =====
-- A mission whose dispute has expired, with the hold on the buyer's card still there.
use waylo_app.Base.{◌≡◌, refl, Bool, true, false, some}
use waylo_app.Base.Table.{find_many}
use waylo_app.Schema.Status.{
  MissionStatus, OutboxStatus, OutboxEventType, is_status, is_escrow_status,
}
use waylo_app.Schema.Rows.{OutboxEvent}
use waylo_app.App.{World, ok}
use waylo_app.Samples.{sample_world, sample_escrow, single}
use waylo_app.Workers.Batch.{unlocked, update_all, fetch_all, claim_outbox_batch}
use waylo_app.Workers.DisputeRefund.{
  RefundRun, ClaimedRefund, execute_refund, run_dispute_resolution_worker_once,
  enqueue_expired_dispute_refunds, claim_refund_batch, without_event, create_events, refund_all,
  cancel_hold, commit_refund, update_event, refund, fail_refund,
}
use waylo_app.Workers.DisputeRefund.Execute.{Outcome, execute_refund_outcome}

abbrev sample_event : OutboxEvent
sample_event = record {
  mission_id = 7;
  type = OutboxEventType.ready_for_refund;
  status = OutboxStatus.pending;
  attempts = 1;
}

abbrev refund_world : World
refund_world =
    let w = sample_world MissionStatus.in_dispute in
    record w { db = record w.db { outbox_events = single 3 sample_event } }

abbrev cancels_run : Bool → RefundRun
cancels_run answer = record {
  now = 2_000;
  locked = λ k. false;
  new_id = λ k. k;
  can_cancel = true;
  cancels = λ k. answer;
  meanwhile = λ k db. db;
}

abbrev sample_refund : ClaimedRefund
sample_refund = record { id = 3; mission_id = 7; attempts = 1 }

execute_refund_outcome_example :
    Outcome
      (cancels_run false)
      5
      sample_refund
      (some sample_escrow)
      sample_event
      refund_world
      (execute_refund (cancels_run false) 5 sample_refund refund_world)
execute_refund_outcome_example =
    execute_refund_outcome (cancels_run false) 5 sample_refund sample_event refund_world refl

-- the event that waits is claimed, and the refund carried out
one_refund :
    (run_dispute_resolution_worker_once (cancels_run true) (λ l. l) 5 50 refund_world).0
    ≡ ok (record { enqueued = 0; refunded = 1; failed = 0 })
unfolding run_dispute_resolution_worker_once enqueue_expired_dispute_refunds claim_refund_batch
    without_event create_events refund_all execute_refund cancel_hold commit_refund update_event
    refund fail_refund claim_outbox_batch unlocked update_all fetch_all is_status is_escrow_status
    find_many
one_refund = refl
