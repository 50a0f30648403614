-- ===== src/Workers/Transfer/Iteration.antt =====
-- One iteration of the transfer worker as steps of its rows, where the others are polite.
use waylo_app.Base.{
  ℕ, ◌+◌, ◌<◌, ◌≡◌, inl, inr, refl, arith, true, some, List, ◌++◌, [], ◌∷◌, leb, Bool-cases,
  Option-cases,
}
use waylo_app.Base.Table.{Table}
use waylo_app.Schema.Status.{TransferStatus}
use waylo_app.Schema.Rows.{TransferOutbox}
use waylo_app.App.{Db, World, AlertCode, ok, transfer_abandoned}
use waylo_app.Workers.Outbox.Machine.{Step, settle, fail, abandon, is_live}
use waylo_app.Workers.Outbox.Refines.{state}
use waylo_app.Workers.Outbox.Work.{outstanding}
use waylo_app.Workers.Transfer.{TransferRound, attempt, transfer_outbox}
use waylo_app.Workers.Transfer.Attempts.{
  after, claimed_world, attempt-settles, attempt-abandons, attempt-fails,
}

abbrev pub transfers_of : Db → Table TransferOutbox
transfers_of db = db.transfers

-- What an attempt on the claimed row `r` makes of it: a step of the machine, with less to do.
pub record Attempted (max : ℕ) (round : TransferRound) (k : ℕ) (r : TransferOutbox) (w : World)
    : Type 0 where
  pub outcome : TransferStatus
  pub row : TransferOutbox
  pub alerts : List AlertCode
  pub returns :
      attempt max round k (transfer_outbox.submit r) (claimed_world k r w)
      ≡ (ok outcome, after round k (transfer_outbox.submit r) row alerts (claimed_world k r w))
  pub step : Step max (state transfer_outbox (transfer_outbox.submit r)) (state transfer_outbox row)
  pub less : outstanding max (state transfer_outbox row) < outstanding max (state transfer_outbox r)

module _ (max : ℕ) (round : TransferRound) (k : ℕ) (r : TransferOutbox) (w : World)
    (live : is_live max (state transfer_outbox r) ≡ true)
    (kept : (round.others (claimed_world k r w).db).transfers.row k
      ≡ some (transfer_outbox.submit r)) where
  pub attempt-Attempted : Attempted max round k r w
  unfolding transfer_outbox
  attempt-Attempted = elim (Option-cases round.response) [
    | inr (i, yes_) ↦ record {
      outcome = TransferStatus.settled;
      row = transfer_outbox.settle i (transfer_outbox.submit r);
      alerts = w.alerts;
      returns =
          attempt-settles max round k (transfer_outbox.submit r) (transfer_outbox.submit r)
            (claimed_world k r w) kept i yes_;
      step = settle refl refl;
      less = rw live (omega arith);
    }
    | inl no_ ↦ elim (Bool-cases (leb max (r.attempts + 1))) [
      | inl many ↦ record {
        outcome = TransferStatus.abandoned;
        row = transfer_outbox.refuse TransferStatus.abandoned (transfer_outbox.submit r);
        alerts = w.alerts ++ (transfer_abandoned ∷ []);
        returns =
            attempt-abandons max round k (transfer_outbox.submit r) (transfer_outbox.submit r)
              (claimed_world k r w) kept no_ many;
        step = abandon refl (ground (arith, many)) refl;
        less = rw live (omega arith);
      }
      | inr few ↦ record {
        outcome = TransferStatus.failed;
        row = transfer_outbox.refuse TransferStatus.failed (transfer_outbox.submit r);
        alerts = w.alerts;
        returns =
            attempt-fails max round k (transfer_outbox.submit r) (transfer_outbox.submit r)
              (claimed_world k r w) kept no_ few;
        step = fail refl (ground (arith, few)) refl;
        less = rw live (ground (arith, few));
      }
    ]
  ]
