-- ===== src/Cleanup/Liveness/Examples.antt =====
-- A worker that is allowed two failures: one tick fails, and the next times out.
use waylo_app.Base.{refl, arith, none, some, [], ◌∷◌}
use waylo_app.Cleanup.{
  Scheduler, CleanupWorker, failed, timed_out, new_scheduler, put_state, fresh_state,
}
use waylo_app.Cleanup.Methods.{Ends}
use waylo_app.Cleanup.Liveness.{ticks, Counted, ticks-Counted}

abbrev purge : CleanupWorker
purge = record { id = 4; interval_ms = 60_000; max_duration_ms = none }

abbrev one_worker : Scheduler
one_worker = put_state 4 (fresh_state purge) (new_scheduler (some 2))

ticks-Counted_example : Ends (Counted 2 4 2) (ticks 4 (failed ∷ timed_out ∷ []) one_worker)
ticks-Counted_example =
    ticks-Counted 4 2 (failed ∷ timed_out ∷ []) 0 one_worker refl (omega arith) (omega arith)
      (fresh_state purge, refl, refl, refl, refl, refl)
