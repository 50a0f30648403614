-- ===== src/Workers/Transfer/Life.antt =====
-- The transfers through any number of ticks and of requeues, against the machine of Outbox.
use waylo_app.Base.{ℕ, zero, suc, ◌≡◌, inl, inr, refl, sym, some, Option-cases}
use mathlib.Core.Path.{subst}
use waylo_app.Base.Table.{put, row-put_self}
use waylo_app.Schema.Status.{submitted}
use waylo_app.Schema.Rows.{TransferOutbox}
use waylo_app.App.{World, Result, ok}
use waylo_app.Workers.Outbox.{next_row}
use waylo_app.Workers.Outbox.Machine.{claim}
use waylo_app.Workers.Outbox.Refines.{
  state, RowSteps, IsPolite, RowSteps-refl, RowSteps-trans, put-RowSteps, next_row_sound,
}
use waylo_app.Workers.Transfer.{
  TransferRound, Counts, no_counts, count, transfer_outbox, transfer_loop, run_transfer_worker_once,
}
use waylo_app.Workers.Transfer.Attempts.{claimed_world, after, loop-idle, loop-next}
use waylo_app.Workers.Transfer.Iteration.{transfers_of, Attempted, attempt-Attempted}

-- What a tick that starts in `w` and ends in `p` should do: return, after steps of every row.
abbrev Refines : ℕ → World → Result Counts × World → Type 0
Refines max w p =
    ((c : Counts) × (w' : World) × (p ≡ (ok c, w')))
    × RowSteps transfer_outbox max w.db.transfers p.1.db.transfers

submit_state :
    (r : TransferOutbox)
    → state transfer_outbox (transfer_outbox.submit r)
      ≡ record (state transfer_outbox r) { status = submitted }
unfolding transfer_outbox
submit_state r = refl

module _ (max : ℕ) where
  abbrev pub IsPoliteRound : TransferRound → Type 0
  IsPoliteRound round = IsPolite transfer_outbox max transfers_of round.others

  module _ (round : TransferRound) (polite : IsPoliteRound round) {k : ℕ} {r : TransferOutbox}
      (w : World) (found : next_row transfer_outbox max round w.db.transfers ≡ some (k, r)) where
    kept : (round.others (claimed_world k r w).db).transfers.row k ≡ some (transfer_outbox.submit r)
    kept =
        (polite (claimed_world k r w).db).1 k (transfer_outbox.submit r)
          (row-put_self k (transfer_outbox.submit r) w.db.transfers)
          (transfer_outbox.status-submit r)

    pub iteration-Attempted : Attempted max round k r w
    iteration-Attempted =
        let (there, live, among) = next_row_sound transfer_outbox max round w.db.transfers found in
        attempt-Attempted max round k r w live kept

    -- the claim, what others do, and the outcome
    iteration-RowSteps :
        (a : Attempted max round k r w)
        → RowSteps transfer_outbox max w.db.transfers
            (after round k
              (transfer_outbox.submit r)
              a.row
              a.alerts
              (claimed_world k r w)).db.transfers
    iteration-RowSteps a =
        let (there, live, among) = next_row_sound transfer_outbox max round w.db.transfers found in
        let t1 = (claimed_world k r w).db.transfers in
        let t2 = (round.others (claimed_world k r w).db).transfers in
        RowSteps-trans transfer_outbox w.db.transfers t1 (put k a.row t2)
          (put-RowSteps transfer_outbox w.db.transfers k r (transfer_outbox.submit r) there
            (claim live (submit_state r)))
          (RowSteps-trans transfer_outbox t1 t2 (put k a.row t2)
            ((polite (claimed_world k r w).db).0)
            (put-RowSteps transfer_outbox t2 k (transfer_outbox.submit r) a.row kept a.step))

  transfer_loop-Refines :
      (n : ℕ) (rounds : ℕ → TransferRound) (c : Counts) (w : World)
      → ((i : ℕ) → IsPoliteRound (rounds i))
      → Refines max w (transfer_loop max n rounds c w)
  unfolding transfer_loop
  transfer_loop-Refines zero rounds c w polite =
      ((c, w, refl), RowSteps-refl transfer_outbox w.db.transfers)
  transfer_loop-Refines (suc n) rounds c w polite =
      elim (Option-cases (next_row transfer_outbox max (rounds 0) w.db.transfers)) [
        | inl idle ↦
            subst (Refines max w) (sym (loop-idle max n rounds c w idle))
              ((c, w, refl), RowSteps-refl transfer_outbox w.db.transfers)
        | inr ((k, r), found) ↦
            let a = iteration-Attempted (rounds 0) (polite 0) w found in
            let w' =
              after (rounds 0) k (transfer_outbox.submit r) a.row a.alerts (claimed_world k r w) in
            let rest = transfer_loop max n (λ i. rounds (suc i)) (count a.outcome c) w' in
            let (returns, steps) =
              transfer_loop-Refines n (λ i. rounds (suc i)) (count a.outcome c) w'
                (λ i. polite (suc i)) in
            subst (Refines max w) (sym (loop-next max n rounds c w found a.returns)) (
              returns,
              RowSteps-trans transfer_outbox w.db.transfers w'.db.transfers rest.1.db.transfers
                  (iteration-RowSteps (rounds 0) (polite 0) w found a) steps,
            )
      ]

  -- A tick of the worker does not throw, and takes every transfer through steps of the machine of an
  -- outbox, if what others do to the transfers meanwhile are such steps too, on transfers that are not
  -- submitted.
  pub transfer_tick_refines :
      (batch_limit : ℕ) (rounds : ℕ → TransferRound) (w : World)
      → ((i : ℕ) → IsPoliteRound (rounds i))
      → ((c : Counts) × (w' : World) × (run_transfer_worker_once max batch_limit rounds w
            ≡ (ok c, w')))
        × RowSteps transfer_outbox max w.db.transfers
            (run_transfer_worker_once max batch_limit rounds w).1.db.transfers
  unfolding run_transfer_worker_once
  transfer_tick_refines batch_limit rounds w polite =
      transfer_loop-Refines batch_limit rounds no_counts w polite
