-- ===== src/Workers/Transfer.antt =====
-- src/workers/transfer-worker.ts, and `requeueFailedTransfer` of src/workers/reconciliation.ts.
pub mod Attempts
pub mod Bounds
pub mod Iteration
pub mod Life
pub mod History
pub mod Liveness
pub mod Ends
mod Examples
use waylo_app.Base.{
  ℕ, zero, suc, ◌+◌, Bool, true, false, Option, none, some, refl, leb, ◌==◌, if◌then◌else◌,
}
use waylo_app.Base.Table.{put, update_where}
use waylo_app.Schema.Status.{TransferStatus}
use waylo_app.Schema.Rows.{TransferOutbox}
use waylo_app.App.{
  Db, World, StripeCall, AlertCode, Fault, Result, Action, Done, ◌>>=◌, ◌>>◌, pure, or_throw, catch,
  emit, stripe_call, others,
}
use waylo_app.Workers.Outbox.{Outbox, Round, failure_status, next_row, update_row}

unfoldable pub transfer_outbox : Outbox TransferOutbox
transfer_outbox = record {
  status = λ r. r.status;
  attempts = λ r. r.attempts;
  submit = λ r. record r { status = TransferStatus.submitted };
  settle = λ i r. record r { status = TransferStatus.settled; stripe_transfer_id = some i };
  refuse = λ s r. record r { status = s; attempts = r.attempts + 1 };
  status-submit = λ r. refl;
  attempts-submit = λ r. refl;
  status-settle = λ i r. refl;
  attempts-settle = λ i r. refl;
  status-refuse = λ s r. refl;
  attempts-refuse = λ s r. refl;
}

-- Stripe's answer to `transfers.create`: the transfer's id, or a throw
abbrev pub TransferRound : Type 0
TransferRound = Round (Option ℕ)

-- `{ settled, failed, abandoned }`
pub record Counts : Type 0 where
  pub settled : ℕ
  pub failed : ℕ
  pub abandoned : ℕ

abbrev pub no_counts : Counts
no_counts = record { settled = 0; failed = 0; abandoned = 0 }

-- `claimNext`, a transaction of its own
unfoldable pub claim_next : ℕ → TransferRound → Action (Option (ℕ × TransferOutbox))
unfolding transfer_outbox
claim_next max_attempts round w =
    elim (next_row transfer_outbox max_attempts round w.db.transfers) [
      | none ↦ (Result.ok none, w)
      | some (id, r) ↦
          let claimed = record r { status = TransferStatus.submitted } in
          (
            Result.ok (some (id, claimed)),
            record w { db = record w.db { transfers = put id claimed w.db.transfers } },
          )
    ]

-- `transferOutbox.update({ where: { id }, data: f })`, which throws where there is no such row
unfoldable pub update_transfer : ℕ → (TransferOutbox → TransferOutbox) → Action Done
unfolding update_row
update_transfer id f w = elim (update_row id f w.db.transfers) [
  | none ↦ (Result.err Fault.unexpected, w)
  | some ts ↦ (Result.ok tt, record w { db = record w.db { transfers = ts } })
]

-- the body of the `try`
unfoldable pub deliver : TransferRound → ℕ → TransferOutbox → Action TransferStatus
unfolding update_transfer transfer_outbox
deliver round id claimed = do
  stripe_call (StripeCall.make_transfer id claimed.amount_cents claimed.destination_account_id)
  others round.others
  transfer ← or_throw round.response Fault.unexpected
  update_transfer id (transfer_outbox.settle transfer)
  pure TransferStatus.settled

-- the body of the `catch`
unfoldable pub record_failure : ℕ → ℕ → TransferOutbox → Action TransferStatus
unfolding failure_status update_transfer transfer_outbox
record_failure max_attempts id claimed = do
  let is_abandon = leb max_attempts (claimed.attempts + 1)
  update_transfer id (transfer_outbox.refuse (failure_status max_attempts claimed.attempts))
  if is_abandon
      then (emit AlertCode.transfer_abandoned >> pure TransferStatus.abandoned)
      else pure TransferStatus.failed

unfoldable pub attempt : ℕ → TransferRound → ℕ → TransferOutbox → Action TransferStatus
unfolding deliver record_failure
attempt max_attempts round id claimed =
    catch (deliver round id claimed) (λ e. record_failure max_attempts id claimed)

unfoldable pub count : TransferStatus → Counts → Counts
count TransferStatus.settled c = record c { settled = c.settled + 1 }
count TransferStatus.abandoned c = record c { abandoned = c.abandoned + 1 }
count TransferStatus.failed c = record c { failed = c.failed + 1 }
count TransferStatus.pending c = c
count TransferStatus.submitted c = c

-- the loop, with the iterations that are left and what each of them meets
unfoldable pub transfer_loop : ℕ → ℕ → (ℕ → TransferRound) → Counts → Action Counts
transfer_loop max_attempts zero rounds c = pure c
transfer_loop max_attempts (suc n) rounds c = claim_next max_attempts (rounds 0) >>= λ claimed.
    elim claimed [
      | none ↦ pure c
      | some (id, r) ↦ attempt max_attempts (rounds 0) id r >>= λ outcome.
          transfer_loop max_attempts n (λ i. rounds (suc i)) (count outcome c)
    ]

-- `runTransferWorkerOnce`
unfoldable pub run_transfer_worker_once : ℕ → ℕ → (ℕ → TransferRound) → Action Counts
unfolding transfer_loop
run_transfer_worker_once max_attempts batch_limit rounds =
    transfer_loop max_attempts batch_limit rounds no_counts

unfoldable pub is_failed : TransferStatus → Bool
is_failed TransferStatus.failed = true
is_failed _ = false

-- `requeueFailedTransfer`
unfoldable pub requeue_failed_transfer : ℕ → Action Bool
unfolding is_failed
requeue_failed_transfer id w =
    let (ts, n) =
      update_where id (λ r. is_failed r.status) (λ r. record r { status = TransferStatus.pending })
        w.db.transfers in
    (Result.ok (n == 1), record w { db = record w.db { transfers = ts } })
