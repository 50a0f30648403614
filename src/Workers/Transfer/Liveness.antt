-- ===== src/Workers/Transfer/Liveness.antt =====
-- The ticks of the worker come to an end with every transfer.
use waylo_app.Base.{
  ℕ, zero, suc, ◌≤◌, ◌<◌, ◌≡◌, inl, inr, refl, sym, ◌∙◌, ap, arith, some, Option-cases,
}
use mathlib.Core.Path.{subst}
use waylo_app.Base.Table.{put}
use waylo_app.Schema.Rows.{TransferOutbox}
use waylo_app.App.{Db, World, Result}
use waylo_app.Workers.Outbox.{next_row}
use waylo_app.Workers.Outbox.Refines.{IsPolite, RowSteps, RowSteps-refl, next_row_sound}
use waylo_app.Workers.Outbox.Work.{work, work-put}
use waylo_app.Workers.Transfer.{TransferRound, Counts, count, transfer_outbox, transfer_loop}
use waylo_app.Workers.Transfer.Attempts.{claimed_world, after, loop-idle, loop-next}
use waylo_app.Workers.Transfer.Iteration.{transfers_of, Attempted}
use waylo_app.Workers.Transfer.Life.{iteration-Attempted}

-- No one else writes the transfers meanwhile.
abbrev pub IsAlone : TransferRound → Type 0
IsAlone round = (db : Db) → (round.others db).transfers ≡ db.transfers

module _ (max : ℕ) where
  pub Alone-IsPolite :
      (round : TransferRound)
      → IsAlone round
      → IsPolite transfer_outbox max transfers_of round.others
  Alone-IsPolite round alone db = (
    subst (RowSteps transfer_outbox max db.transfers) (sym (alone db))
        (RowSteps-refl transfer_outbox db.transfers),
    λ k r there is. subst (λ t. t.row k ≡ some r) (sym (alone db)) there,
  )

  -- What a tick leaves: the same keys, and no more work.
  abbrev pub Lessens : World → Result Counts × World → Type 0
  Lessens w p =
      (p.1.db.transfers.keys ≡ w.db.transfers.keys)
      × (work transfer_outbox max p.1.db.transfers ≤ work transfer_outbox max w.db.transfers)

  -- an iteration that claims the row `k`, where no one else writes
  module _ (round : TransferRound) (alone : IsAlone round) {k : ℕ} {r : TransferOutbox} (w : World)
      (found : next_row transfer_outbox max round w.db.transfers ≡ some (k, r))
      (a : Attempted max round k r w) where
    abbrev pub done : World
    done = after round k (transfer_outbox.submit r) a.row a.alerts (claimed_world k r w)

    transfers-done :
        done.db.transfers ≡ put k a.row (put k (transfer_outbox.submit r) w.db.transfers)
    transfers-done = ap (put k a.row) (alone (claimed_world k r w).db)

    keys-done : done.db.transfers.keys ≡ w.db.transfers.keys
    keys-done = ap (λ t. t.keys) transfers-done

    pub work-done :
        work transfer_outbox max done.db.transfers < work transfer_outbox max w.db.transfers
    work-done =
        let (there, live, among) = next_row_sound transfer_outbox max round w.db.transfers found in
        subst (λ t. work transfer_outbox max t < work transfer_outbox max w.db.transfers)
          (sym transfers-done)
          (work-put transfer_outbox max w.db.transfers there among (transfer_outbox.submit r) a.row
            a.less)

  pub transfer_loop-Lessens :
      (n : ℕ) (rounds : ℕ → TransferRound) (c : Counts) (w : World)
      → ((i : ℕ) → IsAlone (rounds i))
      → Lessens w (transfer_loop max n rounds c w)
  unfolding transfer_loop
  transfer_loop-Lessens zero rounds c w alone = (refl, omega arith)
  transfer_loop-Lessens (suc n) rounds c w alone =
      elim (Option-cases (next_row transfer_outbox max (rounds 0) w.db.transfers)) [
        | inl idle ↦ subst (Lessens w) (sym (loop-idle max n rounds c w idle)) (refl, omega arith)
        | inr ((k, r), found) ↦
            let a =
              iteration-Attempted max (rounds 0) (Alone-IsPolite (rounds 0) (alone 0)) w found in
            let (keys, less) =
              transfer_loop-Lessens n (λ i. rounds (suc i)) (count a.outcome c)
                (done (rounds 0) (alone 0) w found a) (λ i. alone (suc i)) in
            subst (Lessens w) (sym (loop-next max n rounds c w found a.returns)) (
              keys ∙ keys-done (rounds 0) (alone 0) w found a,
              omega (arith, work-done (rounds 0) (alone 0) w found a),
            )
      ]
