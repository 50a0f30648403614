-- ===== src/Cleanup/History/Examples.antt =====
-- A worker that is allowed one failure: it is registered and started, its tick times out, and it is resumed.
use waylo_app.Base.{ℕ, ◌≡◌, refl, arith, none, some}
use waylo_app.Cleanup.{
  CleanupWorker, Scheduler, Outcome, done, error, timed_out, new_scheduler, register, start, resume,
  stop, suspend, begin_tick, finish_tick, fail_tick, land,
}
use waylo_app.Cleanup.Sound.{IsSound}
use waylo_app.Cleanup.History.{Steps, here, next, registers, starts, fires, ends, scheduler_history}

abbrev purge : CleanupWorker
purge = record { id = 4; interval_ms = 60_000; max_duration_ms = none }

abbrev left : Outcome → Scheduler
left (done s) = s
left (error e) = new_scheduler none

abbrev s0 : Scheduler
s0 = new_scheduler (some 1)

abbrev s1 : Scheduler
s1 = left (register purge s0)

abbrev s2 : Scheduler
s2 = left (start 4 s1)

abbrev s3 : Scheduler
s3 = left (begin_tick 4 s2)

abbrev s4 : Scheduler
s4 = left (finish_tick 4 timed_out s3)

course : Steps s0 s4
unfolding register start stop suspend begin_tick finish_tick fail_tick land
course =
    next s3
      (next s2 (next s1 (next s0 here (registers purge refl)) (starts 4 refl))
        (fires 0 4 refl refl))
      (ends 4 timed_out _ refl refl refl)

scheduler_history_example :
    IsSound s4
    × ((h id : ℕ) → s4.intervals h ≡ some id → (t : Scheduler) × (begin_tick id s4 ≡ done t))
scheduler_history_example = scheduler_history (some 1) s4 (omega arith) course

-- the time-out has suspended the worker: `start` does nothing then, and `resume` starts it again
resumed_purge :
    ((left (start 4 s4)).intervals 1 ≡ none) × ((left (resume 4 s4)).intervals 1 ≡ some 4)
unfolding register start stop suspend begin_tick finish_tick fail_tick land resume
resumed_purge = (refl, refl)
