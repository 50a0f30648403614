-- ===== src/Workers/DisputeRefund.antt =====
-- src/workers/disputeResolutionWorker.ts: the refund of a mission whose dispute has expired. And
-- `triggerAutoRefundWatchdog` of src/services/disputeResolution.service.ts, which opens such disputes.
pub mod Execute
use waylo_app.Base.{
  ℕ, zero, suc, ◌+◌, Bool, true, false, not, ◌&&◌, ◌||◌, Option, none, some, List, [], ◌∷◌, ◌++◌,
  leb, ltb, length, take, is_some, map, ◌==◌, if◌then◌else◌, Text,
}
use waylo_app.Base.Table.{Table, put, find_many, find_first, update_where, holds}
use waylo_app.Schema.Status.{
  MissionStatus, EscrowStatus, OutboxStatus, OutboxEventType, is_status, is_escrow_status,
}
use waylo_app.Schema.Rows.{Mission, Escrow, OutboxEvent}
use waylo_app.App.{
  Db, World, StripeCall, Fault, Result, Action, Done, ◌>>=◌, ◌>>◌, pure, throw, throw_if, read,
  modify, catch, transaction, stripe_call, others, update_mission, update_escrow,
}
use waylo_app.Workers.Batch.{claim_outbox_batch, unlocked, update_all, fetch_all}

-- `triggerAutoRefundWatchdog`: the missions that it looks for, and the condition of the update
unfoldable pub is_overdue : ℕ → Mission → Bool
is_overdue now m =
    is_status m.status MissionStatus.in_progress
    && elim m.auto_refund_deadline [ none ↦ false | some t ↦ leb t now ]
    && not (is_some m.dropoff_receipt_url)
    && not (is_some m.drop_off_tracking_id)

abbrev pub is_sealed_overdue : ℕ → Mission → Bool
is_sealed_overdue now m = is_overdue now m && is_some m.inner_qr_code_hash

abbrev pub to_in_dispute : ℕ → Mission → Mission
to_in_dispute now m = record m {
  status = MissionStatus.in_dispute;
  dispute_opened_at = some now;
  dispute_deadline = some now;
}

-- the loop over the missions; `others` is what is committed before each of them
unfoldable pub dispute_all : (others : ℕ → Db → Db) → (now : ℕ) → List ℕ → Db → ℕ × Db
unfolding is_overdue
dispute_all others now [] db = (0, db)
dispute_all others now (id ∷ ids) db =
    let db1 = others id db in
    let (missions, n) = update_where id (is_overdue now) (to_in_dispute now) db1.missions in
    let (rest, db2) = dispute_all others now ids (record db1 { missions = missions }) in
    (n + rest, db2)

unfoldable pub trigger_auto_refund_watchdog : (others : ℕ → Db → Db) → (now batch : ℕ) → Db → ℕ × Db
unfolding dispute_all
trigger_auto_refund_watchdog others now batch db =
    dispute_all others now (take batch (find_many (is_sealed_overdue now) db.missions)) db

abbrev pub default_max_attempts : ℕ
default_max_attempts = 5

-- What others do to a run, the ids of new rows, and what Stripe answers.
pub record RefundRun : Type 0 where
  pub now : ℕ
  pub locked : ℕ → Bool
  pub new_id : ℕ → ℕ
  pub can_cancel : Bool
  pub cancels : ℕ → Bool
  pub meanwhile : ℕ → Db → Db

abbrev pub is_refund_event : OutboxEvent → Bool
is_refund_event o = elim o.type [
  | OutboxEventType.ready_for_payout ↦ false
  | OutboxEventType.ready_for_refund ↦ true
]

abbrev pub is_pending : OutboxEvent → Bool
is_pending o = elim o.status [
  | OutboxStatus.pending ↦ true
  | OutboxStatus.settled ↦ false
  | OutboxStatus.failed ↦ false
]

abbrev pub has_expired : ℕ → Mission → Bool
has_expired now m =
    is_status m.status MissionStatus.in_dispute
    && elim m.dispute_deadline [ none ↦ false | some t ↦ ltb t now ]

-- `EXISTS (SELECT 1 FROM "OutboxEvent" o WHERE o."missionId" = … AND o."type" = 'READY_FOR_REFUND')`
abbrev pub has_refund_event : ℕ → Db → Bool
has_refund_event id db =
    is_some (find_first (λ o. o.mission_id == id && is_refund_event o) db.outbox_events)

unfoldable pub without_event : Db → List ℕ → List ℕ
without_event db [] = []
without_event db (id ∷ ids) =
    let rest = without_event db ids in if has_refund_event id db then rest else id ∷ rest

abbrev pub new_event : ℕ → OutboxEvent
new_event id = record {
  mission_id = id;
  type = OutboxEventType.ready_for_refund;
  status = OutboxStatus.pending;
  attempts = 0;
}

-- `outboxEvent.createMany`
unfoldable pub create_events : (ℕ → ℕ) → List ℕ → Table OutboxEvent → Table OutboxEvent
create_events new_id [] t = t
create_events new_id (id ∷ ids) t = create_events new_id ids (record {
  keys = t.keys ++ (new_id id ∷ []);
  row = λ k. if k == new_id id then some (new_event id) else t.row k;
})

-- `enqueueExpiredDisputeRefunds`. The query orders by `disputeDeadline`; `sorted` is that order.
unfoldable pub enqueue_expired_dispute_refunds :
    RefundRun → (sorted : List ℕ → List ℕ) → (limit : ℕ) → Action ℕ
unfolding unlocked without_event create_events
enqueue_expired_dispute_refunds run sorted limit = transaction (do
  rows ← read (λ db. take limit (
      unlocked run.locked
        (without_event db (sorted (find_many (has_expired run.now) db.missions)))))
  modify (λ db. record db { outbox_events = create_events run.new_id rows db.outbox_events })
  pure (length rows))

-- `attempts` counts the attempt that is under way.
pub record ClaimedRefund : Type 0 where
  pub id : ℕ
  pub mission_id : ℕ
  pub attempts : ℕ

abbrev pub claimed_rows : List (ℕ × OutboxEvent) → List ClaimedRefund
claimed_rows [] = []
claimed_rows ((id, o) ∷ rows) =
    record { id = id; mission_id = o.mission_id; attempts = o.attempts } ∷ claimed_rows rows

abbrev pub to_attempted : OutboxEvent → OutboxEvent
to_attempted o = record o { attempts = o.attempts + 1 }

-- `claimRefundBatch`
unfoldable pub claim_refund_batch : RefundRun → (max limit : ℕ) → Action (List ClaimedRefund)
unfolding claim_outbox_batch
claim_refund_batch run max limit =
    claim_outbox_batch
      (λ db. take limit (
        unlocked run.locked (
          find_many (λ o. is_refund_event o && is_pending o && ltb o.attempts max)
            db.outbox_events)))
      (λ ids db. record db { outbox_events = update_all ids to_attempted db.outbox_events })
      (λ ids db. claimed_rows (fetch_all ids db.outbox_events))

-- `outboxEvent.update({ where: { id }, data: { status } })`
unfoldable pub update_event : ℕ → OutboxStatus → Action Done
update_event id s w = elim (w.db.outbox_events.row id) [
  | none ↦ (Result.err Fault.unexpected, w)
  | some o ↦ (
    Result.ok tt,
    record w {
      db = record w.db { outbox_events = put id (record o { status = s }) w.db.outbox_events };
    },
  )
]

pub data RefundOutcome : Type 0 where
  was_refunded has_failed : RefundOutcome

-- `failRefund`
unfoldable pub fail_refund : (terminal : Bool) → ClaimedRefund → Action RefundOutcome
unfolding update_event
fail_refund terminal claimed =
    update_event claimed.id (if terminal then OutboxStatus.failed else OutboxStatus.pending)
    >> pure has_failed

abbrev pub is_settled : Escrow → Bool
is_settled e =
    is_escrow_status e.status EscrowStatus.released
    || is_escrow_status e.status EscrowStatus.partially_refunded

abbrev pub is_held_row : Escrow → Bool
is_held_row e = is_escrow_status e.status EscrowStatus.held

-- the cancellation of the hold, if there is one
unfoldable pub cancel_hold : RefundRun → (mission : ℕ) → Option Escrow → Action Done
cancel_hold run id none = pure tt
cancel_hold run id (some e) =
    if not (is_held_row e)
    then pure tt
    else (throw_if (not run.can_cancel) Fault.unexpected
        >> (stripe_call (StripeCall.dispute_refund e.stripe_payment_intent_id id)
            >> throw_if (not (run.cancels id)) Fault.unexpected))

abbrev pub is_in_dispute : Mission → Bool
is_in_dispute m = is_status m.status MissionStatus.in_dispute

abbrev pub to_refunded : Mission → Mission
to_refunded m = record m { status = MissionStatus.refunded }

abbrev pub to_cancelled : Escrow → Escrow
to_cancelled e = record e { status = EscrowStatus.cancelled }

-- the transaction: the event, the mission and the escrow, if one was read
unfoldable pub commit_refund : ClaimedRefund → Bool → Action Done
unfolding update_event
commit_refund claimed had_escrow = transaction (do
  update_event claimed.id OutboxStatus.settled
  missions ← update_mission claimed.mission_id is_in_dispute to_refunded
  escrows ← update_escrow claimed.mission_id (λ e. had_escrow && is_held_row e) to_cancelled
  pure tt)

-- the body of the `try`
unfoldable pub refund : RefundRun → ClaimedRefund → Option Escrow → Action RefundOutcome
unfolding cancel_hold commit_refund
refund run claimed escrow = do
  cancel_hold run claimed.mission_id escrow
  commit_refund claimed (is_some escrow)
  pure was_refunded

-- `executeRefund`. Others commit after the escrow was read, while Stripe answers.
unfoldable pub execute_refund : RefundRun → (max : ℕ) → ClaimedRefund → Action RefundOutcome
unfolding refund fail_refund
execute_refund run max claimed = do
  escrow ← read (λ db. db.escrows.row claimed.mission_id)
  others (run.meanwhile claimed.mission_id)
  if holds is_settled escrow
      then fail_refund true claimed
      else catch (refund run claimed escrow) (λ e. fail_refund (leb max claimed.attempts) claimed)

pub record RefundCounts : Type 0 where
  pub enqueued : ℕ
  pub refunded : ℕ
  pub failed : ℕ

abbrev pub count_refund : RefundOutcome → RefundCounts → RefundCounts
count_refund was_refunded c = record c { refunded = c.refunded + 1 }
count_refund has_failed c = record c { failed = c.failed + 1 }

unfoldable pub refund_all : RefundRun → ℕ → List ClaimedRefund → RefundCounts → Action RefundCounts
unfolding execute_refund
refund_all run max [] c = pure c
refund_all run max (claimed ∷ batch) c =
    execute_refund run max claimed >>= λ outcome. refund_all run max batch (count_refund outcome c)

-- `runDisputeResolutionWorkerOnce`
unfoldable pub run_dispute_resolution_worker_once :
    RefundRun → (sorted : List ℕ → List ℕ) → (max limit : ℕ) → Action RefundCounts
unfolding enqueue_expired_dispute_refunds claim_refund_batch refund_all
run_dispute_resolution_worker_once run sorted max limit = do
  enqueued ← enqueue_expired_dispute_refunds run sorted limit
  batch ← claim_refund_batch run max limit
  refund_all run max batch (record { enqueued = enqueued; refunded = 0; failed = 0 })
