-- ===== src/Cleanup/Sound.antt =====
-- The invariant of the scheduler, and that each method keeps it.
use waylo_app.Base.{
  ℕ, ◌+◌, ◌<◌, ◌≤◌, ◌≡◌, refl, sym, subst, ◌∙◌, inl, inr, arith, Bool, true, false, ◌||◌, none,
  some, leb, ◌==◌, if◌then◌else◌, Bool-cases, Option-cases,
}
use waylo_app.Cleanup.{
  WorkerState, Scheduler, Outcome, done, TickResult, succeeded, failed, timed_out, with_state,
  start, stop, resume, begin_tick, finish_tick, resumed_state, add_failure,
}
use waylo_app.Cleanup.Effects.{IsWired, Effect}
use waylo_app.Cleanup.Methods.{
  Ends, started, resumed, start-Ends, stop-Ends, resume-Ends, begin_tick-Ends,
}
use waylo_app.Cleanup.Ticks.{failed_once, finished, finish_tick-Ends}

-- A worker is suspended exactly when it has failed as often in a row as is allowed, and a suspended
-- worker has neither a timer nor a tick under way.
pub record IsRowSound (max : ℕ) (x : WorkerState) : Type 0 where
  pub below : x.suspended ≡ false → x.consecutive_failures < max
  pub reached : x.suspended ≡ true → max ≤ x.consecutive_failures
  pub no_timer : x.suspended ≡ true → x.timer ≡ none
  pub no_tick : x.suspended ≡ true → x.in_flight ≡ false

pub record IsSound (s : Scheduler) : Type 0 where
  pub positive : 0 < s.max_consecutive_failures
  pub wired : IsWired s
  pub rows :
      (id : ℕ) (x : WorkerState)
      → s.workers.row id ≡ some x
      → IsRowSound s.max_consecutive_failures x

IsSound-Effect :
    (id : ℕ) (x : WorkerState) (s t : Scheduler)
    → IsRowSound s.max_consecutive_failures x
    → IsSound s
    → Effect id x s t
    → IsSound t
IsSound-Effect id x s t good sound e = record {
  positive = subst (λ m. 0 < m) (sym e.same_max) sound.positive;
  wired = e.wired sound.wired;
  rows = λ j y there.
      subst (λ m. IsRowSound m y) (sym e.same_max)
        (elim (Bool-cases (j == id)) [
          | inl own ↦
              let same_id : j ≡ id = ground (arith, own) in
              let row_ = e.here in
              let same : x ≡ y = cc in subst (IsRowSound s.max_consecutive_failures) same good
          | inr other ↦ sound.rows j y (sym (e.others j other) ∙ there)
        ]);
}

either :
    (P : WorkerState → Type 0) (b : Bool) (y z : WorkerState)
    → (b ≡ true → P y)
    → (b ≡ false → P z)
    → P (if b then y else z)
either P true y z yes_ no_ = yes_ refl
either P false y z yes_ no_ = no_ refl

module _ (max : ℕ) (x : WorkerState) (good : IsRowSound max x) where
  started-IsRowSound : (s : Scheduler) → IsRowSound max (record x { timer = started x s })
  started-IsRowSound s = record {
    below = good.below;
    reached = good.reached;
    no_timer = λ off. let idle = good.no_timer off in ground (arith, off, idle);
    no_tick = good.no_tick;
  }

  stopped-IsRowSound : IsRowSound max (record x { timer = none })
  stopped-IsRowSound = record {
    below = good.below;
    reached = good.reached;
    no_timer = λ off. refl;
    no_tick = good.no_tick;
  }

  resumed-IsRowSound : (s : Scheduler) → 0 < max → IsRowSound max (resumed x s)
  resumed-IsRowSound s some_ =
      either (IsRowSound max) x.suspended
        (record (resumed_state x) { timer = started (resumed_state x) s }) x
        (λ off. record {
          below = λ on. some_;
          reached = λ no_. ground (arith, no_);
          no_timer = λ no_. ground (arith, no_);
          no_tick = λ no_. ground (arith, no_);
        })
        (λ on. good)

  begun-IsRowSound :
      IsRowSound max (if x.in_flight || x.suspended then x else record x { in_flight = true })
  begun-IsRowSound =
      either (IsRowSound max) (x.in_flight || x.suspended) x (record x { in_flight = true })
        (λ skip. good)
        (λ run. record {
          below = good.below;
          reached = good.reached;
          no_timer = good.no_timer;
          no_tick = λ off. ground (arith, run, off);
        })

  failed_once-IsRowSound :
      x.suspended ≡ false → IsRowSound max (record (failed_once max x) { in_flight = false })
  failed_once-IsRowSound on =
      either (λ y. IsRowSound max (record y { in_flight = false }))
        (leb max (x.consecutive_failures + 1))
        (record (add_failure x) { suspended = true; timer = none }) (add_failure x)
        (λ last. record {
          below = λ no_. ground (arith, no_);
          reached = λ off. ground (arith, last);
          no_timer = λ off. refl;
          no_tick = λ off. refl;
        })
        (λ more. record {
          below = λ still. ground (arith, more);
          reached = λ off. ground (arith, on, off);
          no_timer = λ off. ground (arith, on, off);
          no_tick = λ off. refl;
        })

  finished-IsRowSound :
      (result : TickResult) → 0 < max → x.suspended ≡ false → IsRowSound max (finished max result x)
  finished-IsRowSound succeeded some_ on = record {
    below = λ still. some_;
    reached = λ off. ground (arith, on, off);
    no_timer = λ off. ground (arith, on, off);
    no_tick = λ off. refl;
  }
  finished-IsRowSound failed some_ on = failed_once-IsRowSound on
  finished-IsRowSound timed_out some_ on = failed_once-IsRowSound on

leaves : (P : Scheduler → Type 0) (o : Outcome) (t : Scheduler) → o ≡ done t → Ends P o → P t
leaves P o t h e = subst (Ends P) h e

found :
    (id : ℕ) (s t : Scheduler) (k : WorkerState → Outcome)
    → with_state id s k ≡ done t
    → (x : WorkerState) × (s.workers.row id ≡ some x)
found id s t k h = elim (Option-cases (s.workers.row id)) [
  | inl gone ↦ ground (arith, gone, h)
  | inr (x, there) ↦ (x, there)
]

module _ (s : Scheduler) (sound : IsSound s) where
  -- a method whose effect on the row is known
  keeps :
      (id : ℕ) (y : WorkerState) (o : Outcome) (t : Scheduler)
      → IsRowSound s.max_consecutive_failures y
      → Ends (Effect id y s) o
      → o ≡ done t
      → IsSound t
  keeps id y o t good e h = IsSound-Effect id y s t good sound (leaves (Effect id y s) o t h e)

  pub start-IsSound : (id : ℕ) (t : Scheduler) → start id s ≡ done t → IsSound t
  unfolding start
  start-IsSound id t h =
      let (x, there) = found id s t _ h in
      keeps id (record x { timer = started x s }) (start id s) t
        (started-IsRowSound s.max_consecutive_failures x (sound.rows id x there) s)
        (start-Ends id x s there) h

  pub stop-IsSound : (id : ℕ) (t : Scheduler) → stop id s ≡ done t → IsSound t
  unfolding stop
  stop-IsSound id t h =
      let (x, there) = found id s t _ h in
      keeps id (record x { timer = none }) (stop id s) t
        (stopped-IsRowSound s.max_consecutive_failures x (sound.rows id x there))
        (stop-Ends id x s there) h

  pub begin_tick-IsSound : (id : ℕ) (t : Scheduler) → begin_tick id s ≡ done t → IsSound t
  unfolding begin_tick
  begin_tick-IsSound id t h =
      let (x, there) = found id s t _ h in
      keeps id (if x.in_flight || x.suspended then x else record x { in_flight = true })
        (begin_tick id s) t (begun-IsRowSound s.max_consecutive_failures x (sound.rows id x there))
        (begin_tick-Ends id x s there) h

  pub resume-IsSound : (id : ℕ) (t : Scheduler) → resume id s ≡ done t → IsSound t
  unfolding resume
  resume-IsSound id t h =
      let (x, there) = found id s t _ h in
      keeps id (resumed x s) (resume id s) t
        (resumed-IsRowSound s.max_consecutive_failures x (sound.rows id x there) s sound.positive)
        (resume-Ends id x s there) h

  pub finish_tick-IsSound :
      (id : ℕ) (result : TickResult) (x : WorkerState) (t : Scheduler)
      → s.workers.row id ≡ some x
      → x.in_flight ≡ true
      → finish_tick id result s ≡ done t
      → IsSound t
  finish_tick-IsSound id result x t there flies h =
      let good = sound.rows id x there in
      let on : x.suspended ≡ false = elim (Bool-cases x.suspended) [
        | inl off ↦ let lands = good.no_tick off in ground (arith, lands, flies)
        | inr on_ ↦ on_
      ] in
      keeps id (finished s.max_consecutive_failures result x) (finish_tick id result s) t
        (finished-IsRowSound s.max_consecutive_failures x good result sound.positive on)
        (finish_tick-Ends id x s there result) h
