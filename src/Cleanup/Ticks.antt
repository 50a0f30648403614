-- ===== src/Cleanup/Ticks.antt =====
-- The end of a tick: none throws, and this is the row afterwards.
use waylo_app.Base.{ℕ, ◌+◌, ◌≡◌, refl, arith, true, false, some, none, leb, if◌then◌else◌}
use waylo_app.Cleanup.{
  WorkerState, Scheduler, CleanupEvent, TickResult, succeeded, failed, timed_out, tick_success,
  tick_failure, tick_timeout, done, put_state, on_log, suspend, add_failure, fail_tick, land,
  end_tick, finish_tick,
}
use waylo_app.Cleanup.Effects.{Effect, Effect-trans, on_log-Effect, put_state-Effect}
use waylo_app.Cleanup.Methods.{
  Ends, Ends-map, with_state-Ends, and_then-Ends, if-Ends, suspend-Ends, land-Ends,
}

-- the row after one more failure: the last one that is allowed suspends the worker, without a timer
abbrev pub failed_once : ℕ → WorkerState → WorkerState
failed_once max x =
    if leb max (x.consecutive_failures + 1)
    then record (add_failure x) { suspended = true; timer = none }
    else add_failure x

abbrev pub ended : ℕ → TickResult → WorkerState → WorkerState
ended max succeeded x = record x { consecutive_failures = 0 }
ended max failed x = failed_once max x
ended max timed_out x = failed_once max x

-- the row when the tick has ended
abbrev pub finished : ℕ → TickResult → WorkerState → WorkerState
finished max result x = record (ended max result x) { in_flight = false }

module _ (id : ℕ) (x : WorkerState) (s : Scheduler) (there : s.workers.row id ≡ some x) where
  fail_tick-Ends :
      (event : CleanupEvent)
      → Ends (Effect id (failed_once s.max_consecutive_failures x) s) (fail_tick id event x s)
  unfolding fail_tick
  fail_tick-Ends event =
      let y = add_failure x in
      let z = record y { suspended = true; timer = none } in
      let s1 = on_log event id (some (x.consecutive_failures + 1)) (put_state id y s) in
      let first : Effect id y s s1 =
        Effect-trans id y y s (put_state id y s) s1 (put_state-Effect id x y s there refl) (
          on_log-Effect id y (put_state id y s) event (some (x.consecutive_failures + 1))
            (ground arith)) in
      if-Ends id s (leb s.max_consecutive_failures (x.consecutive_failures + 1)) z y (suspend id s1)
        (done s1)
        (λ last.
          Ends-map (Effect id z s1) (Effect id z s) (suspend id s1)
            (λ t e. Effect-trans id y z s s1 t first e) (suspend-Ends id y s1 first.here))
        (λ more. first)

  end_tick-Ends :
      (result : TickResult)
      → Ends (Effect id (ended s.max_consecutive_failures result x) s) (end_tick id result x s)
  end_tick-Ends succeeded =
      let y = record x { consecutive_failures = 0 } in
      Effect-trans id y y s (put_state id y s) (on_log tick_success id none (put_state id y s))
        (put_state-Effect id x y s there refl)
        (on_log-Effect id y (put_state id y s) tick_success none (ground arith))
  end_tick-Ends failed = fail_tick-Ends tick_failure
  end_tick-Ends timed_out = fail_tick-Ends tick_timeout

  pub finish_tick-Ends :
      (result : TickResult)
      → Ends (Effect id (finished s.max_consecutive_failures result x) s) (finish_tick id result s)
  unfolding finish_tick
  finish_tick-Ends result =
      let y = ended s.max_consecutive_failures result x in
      let z = finished s.max_consecutive_failures result x in
      with_state-Ends (Effect id z s) id x s _ there (
        and_then-Ends (Effect id y s) (Effect id z s) (end_tick id result x s) (land id)
          (end_tick-Ends result)
          (λ t e.
            Ends-map (Effect id z t) (Effect id z s) (land id t)
              (λ u f. Effect-trans id y z s t u e f) (land-Ends id y t e.here)))
