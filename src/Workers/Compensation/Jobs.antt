-- ===== src/Workers/Compensation/Jobs.antt =====
-- What becomes of one compensation: src/workers/buyer-compensation.worker.ts.
mod Examples
use waylo_app.Base.{
  ℕ, ◌≡◌, ◌⊎◌, inl, inr, arith, Bool, true, false, ◌&&◌, Option, none, some, Bool-cases,
  Option-cases,
}
use waylo_app.Base.Table.{put, holds}
use waylo_app.Schema.Rows.{BuyerCompensationOutbox}
use waylo_app.App.{Db, World, Fault, ok, err}
use waylo_app.Workers.Compensation.{
  JobRound, is_pending, settled_job, credit, claim_job, settle_job, failed_job, record_job_failure,
  process_job,
}

module _ (round : JobRound) (id : ℕ) (job : BuyerCompensationOutbox) (w : World) where
  -- the world in which others have committed before the claim
  abbrev pub claimed_in : World
  claimed_in = record w { db = round.before w.db }

  -- the buyer is credited and the row settled
  abbrev pub paid : BuyerCompensationOutbox → World
  paid r = record w {
    db = credit job (record (round.before w.db) {
      buyer_compensations = put id (settled_job job r) (round.before w.db).buyer_compensations;
    });
  }

  -- the world in which a failure is recorded, before it is
  abbrev pub failed_in : World
  failed_in = record w { db = round.between (round.before w.db) }

  abbrev pub retried : BuyerCompensationOutbox → World
  retried r = record w {
    db = record failed_in.db {
      buyer_compensations = put id (failed_job job r) failed_in.db.buyer_compensations;
    };
  }

  abbrev pub row_before : Option BuyerCompensationOutbox
  row_before = (round.before w.db).buyer_compensations.row id

  abbrev pub Failing : Type 0
  Failing =
      ((failed_in.db.buyer_compensations.row id ≡ none)
        × (process_job round id job w ≡ (err Fault.unexpected, failed_in)))
      ⊎ ((r : BuyerCompensationOutbox) × (failed_in.db.buyer_compensations.row id ≡ some r)
          × (process_job round id job w ≡ (ok tt, retried r)))

  failing : settle_job round id job w ≡ (err Fault.unexpected, claimed_in) → Failing
  unfolding process_job record_job_failure
  failing threw = elim (Option-cases (failed_in.db.buyer_compensations.row id)) [
    | inl lost ↦ inl (lost, ground (arith, threw, lost))
    | inr (s, left) ↦ inr (s, left, ground (arith, threw, left))
  ]

  -- A job that is no longer pending when it is claimed writes nothing. A pending one credits its buyer
  -- with its amount and is settled, both or neither. Where the claim or the wallet cannot be written,
  -- nothing is credited, and the row is tried again, or has failed at the fourth attempt, whatever state others
  -- have given it meanwhile.
  pub process_job_outcome :
      ((holds is_pending row_before ≡ false)
        × (round.claims ≡ true)
        × (process_job round id job w ≡ (ok tt, claimed_in)))
      ⊎ ((r : BuyerCompensationOutbox) × (row_before ≡ some r)
          × (is_pending r ≡ true)
          × ((round.claims && round.credits) ≡ true)
          × (process_job round id job w ≡ (ok tt, paid r)))
      ⊎ (((round.claims && round.credits) ≡ false) × Failing)
  unfolding process_job settle_job claim_job record_job_failure
  process_job_outcome = elim (Bool-cases round.claims) [
    | inr broken ↦ inr (inr (ground (arith, broken), failing (ground (arith, broken))))
    | inl claims ↦ elim (Option-cases row_before) [
      | inl gone ↦ inl (ground (arith, gone), claims, ground (arith, gone, claims))
      | inr (r, there) ↦ elim (Bool-cases (is_pending r)) [
        | inr no_ ↦ inl (ground (arith, there, no_), claims, ground (arith, there, no_, claims))
        | inl yes_ ↦ elim (Bool-cases round.credits) [
          | inl can ↦ inr (
              inl (
                r,
                there,
                yes_,
                ground (arith, claims, can),
                ground (arith, there, yes_, can, claims),
              ))
          | inr cannot ↦ inr (
              inr (
                ground (arith, cannot, claims),
                failing (ground (arith, there, yes_, cannot, claims)),
              ))
        ]
      ]
    ]
  ]
