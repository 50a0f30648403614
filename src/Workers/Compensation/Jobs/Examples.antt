-- ===== src/Workers/Compensation/Jobs/Examples.antt =====
-- Tests of src/workers/buyer-compensation.worker.ts: the compensation of buyer 1 for mission 7.
use waylo_app.Base.{◌≡◌, ◌⊎◌, ◌&&◌, true, false, some, refl}
use waylo_app.Base.Table.{holds}
use waylo_app.Schema.Status.{MissionStatus, OutboxStatus}
use waylo_app.Schema.Rows.{BuyerCompensationOutbox}
use waylo_app.App.{World, ok}
use waylo_app.Workers.Compensation.{JobRound, is_pending, process_job}
use waylo_app.Workers.Compensation.Jobs.{claimed_in, paid, row_before, Failing, process_job_outcome}
use waylo_app.Samples.{sample_db, sample_world, single, undisturbed}

abbrev job : BuyerCompensationOutbox
job = record { buyer_id = 1; amount_cents = 12_600; status = OutboxStatus.pending; attempts = 0 }

abbrev start : World
start = record (sample_world MissionStatus.disputed) {
  db = record (sample_db MissionStatus.disputed) { buyer_compensations = single 7 job };
}

abbrev calm : JobRound
calm = record { before = undisturbed; claims = true; credits = true; between = undisturbed }

process_job_outcome_example :
    ((holds is_pending (row_before calm 7 job start) ≡ false)
      × (true ≡ true)
      × (process_job calm 7 job start ≡ (ok tt, claimed_in calm 7 job start)))
    ⊎ ((r : BuyerCompensationOutbox) × (row_before calm 7 job start ≡ some r)
        × (is_pending r ≡ true)
        × ((true && true) ≡ true)
        × (process_job calm 7 job start ≡ (ok tt, paid calm 7 job start r)))
    ⊎ (((true && true) ≡ false) × Failing calm 7 job start)
process_job_outcome_example = process_job_outcome calm 7 job start

process_job_run : (process_job calm 7 job start).1.db.wallets 1 ≡ some 12_600
unfolding process_job is_pending
process_job_run = refl
