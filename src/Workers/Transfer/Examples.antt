-- ===== src/Workers/Transfer/Examples.antt =====
-- A transfer that Stripe refuses, and one that it makes.
use waylo_app.Base.{ℕ, ◌≡◌, refl, false, Option, some, none, [], ◌∷◌, arith}
use waylo_app.Schema.Status.{MissionStatus, TransferStatus}
use waylo_app.Schema.Rows.{TransferOutbox}
use waylo_app.App.{World, ok}
use waylo_app.Samples.{sample_world, single, undisturbed}
use waylo_app.Workers.Outbox.{next_row, eligible}
use waylo_app.Workers.Outbox.Machine.{IsSound, IsTerminal}
use waylo_app.Workers.Outbox.Refines.{state, RowSteps, RowSteps-refl, IsPatient}
use waylo_app.Workers.Outbox.Work.{work}
use waylo_app.Workers.Transfer.{
  TransferRound, Counts, transfer_outbox, claim_next, attempt, count, run_transfer_worker_once,
  requeue_failed_transfer,
}
use waylo_app.Workers.Transfer.Life.{IsPoliteRound, transfer_tick_refines}
use waylo_app.Workers.Transfer.History.{History, start, tick, requeued, transfer_history}
use waylo_app.Workers.Transfer.Ends.{Tick, IsQuiet, run_ticks, transfers_end}

abbrev sample_transfer : TransferOutbox
sample_transfer = record {
  destination_account_id = 55;
  amount_cents = 9_000;
  status = TransferStatus.pending;
  attempts = 0;
  stripe_transfer_id = none;
}

abbrev transfer_world : World
transfer_world =
    let w = sample_world MissionStatus.released in
    record w { db = record w.db { transfers = single 7 sample_transfer } }

abbrev round_with : Option ℕ → TransferRound
round_with a = record { age = λ k. 10_000; locked = λ k. false; response = a; others = undisturbed }

abbrev refusing : ℕ → TransferRound
refusing i = round_with none

abbrev accepting : ℕ → TransferRound
accepting i = round_with (some 99)

-- a tick of two iterations whose transfer is refused twice
refused_twice :
    (run_transfer_worker_once 5 2 refusing transfer_world).0
    ≡ ok (record { settled = 0; failed = 2; abandoned = 0 })
unfolding run_transfer_worker_once claim_next next_row eligible attempt count
refused_twice = refl

accepted :
    (run_transfer_worker_once 5 50 accepting transfer_world).0
    ≡ ok (record { settled = 1; failed = 0; abandoned = 0 })
unfolding run_transfer_worker_once claim_next next_row eligible attempt count
accepted = refl

polite_refusing : (i : ℕ) → IsPoliteRound 5 (refusing i)
polite_refusing i db = (RowSteps-refl transfer_outbox db.transfers, λ k r there is. there)

transfer_tick_refines_example :
    ((c : Counts) × (w' : World) × (run_transfer_worker_once 5 2 refusing transfer_world
        ≡ (ok c, w')))
    × RowSteps transfer_outbox 5 transfer_world.db.transfers
        (run_transfer_worker_once 5 2 refusing transfer_world).1.db.transfers
transfer_tick_refines_example = transfer_tick_refines 5 2 refusing transfer_world polite_refusing

-- refused, and put back in the queue by hand
abbrev requeued_world : World
requeued_world =
    (requeue_failed_transfer 7 (run_transfer_worker_once 5 1 refusing transfer_world).1).1

requeued_history : History 5 transfer_world requeued_world
requeued_history = requeued 7 (tick 1 refusing polite_refusing start refl) refl

transfer_history_example :
    (r' : TransferOutbox) × (requeued_world.db.transfers.row 7 ≡ some r')
    × IsSound 5 (state transfer_outbox r')
    × (IsTerminal (state transfer_outbox sample_transfer)
        → state transfer_outbox r' ≡ state transfer_outbox sample_transfer)
unfolding transfer_outbox
transfer_history_example = transfer_history 7 sample_transfer requeued_history refl (omega arith)

abbrev refusing_tick : Tick
refusing_tick = record { more = 0; rounds = refusing }

patient : IsPatient 1 10_000
patient = (omega arith, λ n h. let e : n ≡ 0 = omega arith in rw e (omega arith))

refusing_tick-IsQuiet : IsQuiet 1 refusing_tick
refusing_tick-IsQuiet = record { alone = λ i db. refl; free = λ k. refl; old = λ k. patient }

transfers_end_example :
    (r' : TransferOutbox) × ((run_ticks 1
          (refusing_tick ∷ refusing_tick ∷ [])
          transfer_world).db.transfers.row
        7
      ≡ some r')
    × IsTerminal (state transfer_outbox r')
unfolding work transfer_outbox
transfers_end_example =
    transfers_end 1 (refusing_tick ∷ refusing_tick ∷ []) transfer_world 7 sample_transfer
      (refusing_tick-IsQuiet, (refusing_tick-IsQuiet, tt)) (omega arith) refl refl (omega arith)
