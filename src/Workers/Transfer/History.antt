-- ===== src/Workers/Transfer/History.antt =====
-- The transfers through any number of ticks of the worker and of requeues by hand.
use waylo_app.Base.{ℕ, ◌≡◌, ◌⊎◌, inl, inr, refl, sym, arith, true, some, Option-cases, Bool-cases}
use mathlib.Core.Path.{subst}
use waylo_app.Base.Table.{put}
use waylo_app.Schema.Status.{TransferStatus, pending, failed}
use waylo_app.Schema.Rows.{TransferOutbox}
use waylo_app.App.{World}
use waylo_app.Workers.Outbox.Machine.{requeue, IsSound, IsTerminal, Steps-IsSound, Steps-IsTerminal}
use waylo_app.Workers.Outbox.Refines.{state, RowSteps, RowSteps-refl, RowSteps-trans, put-RowSteps}
use waylo_app.Workers.Transfer.{
  TransferRound, transfer_outbox, run_transfer_worker_once, requeue_failed_transfer, is_failed,
}
use waylo_app.Workers.Transfer.Life.{IsPoliteRound, transfer_tick_refines}

-- `w'` is what ticks and requeues have made of `w`.
pub data History (max : ℕ) (w : World) : World → Type 0 where
  start : History max w w
  tick :
      {u v : World} (batch_limit : ℕ) (rounds : ℕ → TransferRound)
      → ((i : ℕ) → IsPoliteRound max (rounds i))
      → History max w u
      → v ≡ (run_transfer_worker_once max batch_limit rounds u).1
      → History max w v
  requeued :
      {u v : World} (id : ℕ)
      → History max w u
      → v ≡ (requeue_failed_transfer id u).1
      → History max w v

is_failed_status : (s : TransferStatus) → is_failed s ≡ true → s ≡ failed
unfolding is_failed
is_failed_status s h = ground arith

-- The requeue changes nothing, or makes a failed row pending.
requeue_cases :
    (id : ℕ) (w : World)
    → ((requeue_failed_transfer id w).1.db.transfers ≡ w.db.transfers)
      ⊎ ((r : TransferOutbox) × (w.db.transfers.row id ≡ some r)
          × (r.status ≡ failed)
          × ((requeue_failed_transfer id w).1.db.transfers
              ≡ put id (record r { status = pending }) w.db.transfers))
unfolding requeue_failed_transfer
requeue_cases id w = elim (Option-cases (w.db.transfers.row id)) [
  | inl gone ↦ inl (ground (arith, gone))
  | inr (r, there) ↦ elim (Bool-cases (is_failed r.status)) [
    | inl yes_ ↦ inr (r, there, is_failed_status r.status yes_, ground (arith, there, yes_))
    | inr no_ ↦ inl (ground (arith, there, no_))
  ]
]

requeue-RowSteps :
    (max id : ℕ) (w : World)
    → RowSteps transfer_outbox max w.db.transfers (requeue_failed_transfer id w).1.db.transfers
unfolding transfer_outbox
requeue-RowSteps max id w = elim (requeue_cases id w) [
  | inl same ↦
      subst (RowSteps transfer_outbox max w.db.transfers) (sym same)
        (RowSteps-refl transfer_outbox w.db.transfers)
  | inr (r, there, is, changed) ↦
      subst (RowSteps transfer_outbox max w.db.transfers) (sym changed) (
        put-RowSteps transfer_outbox w.db.transfers id r (record r { status = pending }) there
          (requeue is refl))
]

module _ {max : ℕ} where
  History-RowSteps :
      {w w' : World}
      → History max w w'
      → RowSteps transfer_outbox max w.db.transfers w'.db.transfers
  History-RowSteps {w} start = RowSteps-refl transfer_outbox w.db.transfers
  History-RowSteps {w} (tick {u} {v} batch_limit rounds polite h e) =
      subst (λ x. RowSteps transfer_outbox max w.db.transfers x.db.transfers) (sym e)
        (RowSteps-trans transfer_outbox w.db.transfers u.db.transfers
          (run_transfer_worker_once max batch_limit rounds u).1.db.transfers (History-RowSteps h)
          (transfer_tick_refines max batch_limit rounds u polite).1)
  History-RowSteps {w} (requeued {u} {v} id h e) =
      subst (λ x. RowSteps transfer_outbox max w.db.transfers x.db.transfers) (sym e)
        (RowSteps-trans transfer_outbox w.db.transfers u.db.transfers
          (requeue_failed_transfer id u).1.db.transfers (History-RowSteps h)
          (requeue-RowSteps max id u))

  -- Through any ticks and requeues, in which others write the transfers only by steps of the machine
  -- of an outbox and not while they are submitted: a transfer is not lost; one that has failed fewer
  -- than `max` times, or was abandoned at the last of `max` failures, stays so; and a transfer that is
  -- settled or abandoned keeps its status and its attempts.
  pub transfer_history :
      {w w' : World} (k : ℕ) (r : TransferOutbox)
      → History max w w'
      → w.db.transfers.row k ≡ some r
      → IsSound max (state transfer_outbox r)
      → (r' : TransferOutbox) × (w'.db.transfers.row k ≡ some r')
        × IsSound max (state transfer_outbox r')
        × (IsTerminal (state transfer_outbox r)
            → state transfer_outbox r' ≡ state transfer_outbox r)
  transfer_history k r h there sound =
      let (r', there', steps) = History-RowSteps h k r there in
      (r', there', Steps-IsSound steps sound, λ ended. Steps-IsTerminal ended steps)
