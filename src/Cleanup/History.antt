-- ===== src/Cleanup/History.antt =====
-- Every course of a scheduler: its methods and its ticks, in any order.
mod Examples
use waylo_app.Base.{
  ℕ, ◌+◌, ◌<◌, ◌≡◌, refl, sym, ap, subst, ◌∙◌, arith, Bool, true, false, ◌||◌, Option, none, some,
  List, [], ◌∷◌, ◌++◌, ◌==◌, if◌then◌else◌, Bool-cases, Option-cases, inl, inr,
}
use waylo_app.Base.Table.{Table, create}
use waylo_app.Cleanup.{
  CleanupWorker, WorkerState, Scheduler, Outcome, done, error, and_then, TickResult, new_scheduler,
  fresh_state, register, start, stop, start_all, stop_all, for_each, resume, begin_tick,
  finish_tick,
}
use waylo_app.Cleanup.Effects.{IsWired}
use waylo_app.Cleanup.Methods.{Ends, begin_tick-Ends, Ends-map}
use waylo_app.Cleanup.Sound.{
  IsRowSound, IsSound, start-IsSound, stop-IsSound, begin_tick-IsSound, resume-IsSound,
  finish_tick-IsSound,
}

-- what can happen to a scheduler: a call of one of its methods that does not throw, an interval that is
-- live and fires, or the end of a tick that is under way
pub data Step (s t : Scheduler) : Type 0 where
  registers : (worker : CleanupWorker) → register worker s ≡ done t → Step s t
  starts : (id : ℕ) → start id s ≡ done t → Step s t
  stops : (id : ℕ) → stop id s ≡ done t → Step s t
  starts_all : start_all s ≡ done t → Step s t
  stops_all : stop_all s ≡ done t → Step s t
  resumes : (id : ℕ) → resume id s ≡ done t → Step s t
  fires : (h id : ℕ) → s.intervals h ≡ some id → begin_tick id s ≡ done t → Step s t
  ends :
      (id : ℕ) (result : TickResult) (x : WorkerState)
      → s.workers.row id ≡ some x
      → x.in_flight ≡ true
      → finish_tick id result s ≡ done t
      → Step s t

pub data Steps (s : Scheduler) : Scheduler → Type 0 where
  here : Steps s s
  next : (t : Scheduler) {u : Scheduler} → Steps s t → Step t u → Steps s u

split :
    (o : Outcome) (k : Scheduler → Outcome) (t : Scheduler)
    → and_then o k ≡ done t
    → (u : Scheduler) × (o ≡ done u) × (k u ≡ done t)
split (done u) k t h = (u, refl, h)
split (error e) k t h = ground (arith, h)

-- the scheduler that is left, if there is one
abbrev left_of : Scheduler → Outcome → Scheduler
left_of s (done t) = t
left_of s (error e) = s

for_each-IsSound :
    (method : ℕ → Scheduler → Outcome)
    → ((s : Scheduler) (id : ℕ) (t : Scheduler) → IsSound s → method id s ≡ done t → IsSound t)
    → (ids : List ℕ) (s t : Scheduler) → IsSound s
    → for_each method ids s ≡ done t
    → IsSound t
unfolding for_each
for_each-IsSound method keep [] s t sound h = subst IsSound (ap (left_of s) h) sound
for_each-IsSound method keep (id ∷ ids) s t sound h =
    let (u, first, rest) = split (method id s) (for_each method ids) t h in
    for_each-IsSound method keep ids u t (keep s id u sound first) rest

new-IsSound :
    (max : Option ℕ)
    → 0 < (new_scheduler max).max_consecutive_failures
    → IsSound (new_scheduler max)
new-IsSound max some_ = record {
  positive = some_;
  wired = record {
    to_row = λ h id live. ground (arith, live);
    to_interval = λ h id x there timer. ground (arith, there);
    given = λ h id live. ground (arith, live);
  };
  rows = λ id x there. ground (arith, there);
}

-- the scheduler with one more worker
abbrev registered : CleanupWorker → Scheduler → Scheduler
registered worker s = record s {
  workers = record {
    keys = s.workers.keys ++ (worker.id ∷ []);
    row = λ j. if j == worker.id then some (fresh_state worker) else s.workers.row j;
  };
}

module _ (worker : CleanupWorker) (s : Scheduler) (sound : IsSound s) where
  registered-IsSound : s.workers.row worker.id ≡ none → IsSound (registered worker s)
  registered-IsSound gone = record {
    positive = sound.positive;
    wired = record {
      to_row = λ h id live.
          let (z, row_, timer) = sound.wired.to_row h id live in
          (z, ground (arith, gone, row_), timer);
      to_interval = λ h id z row_ timer. elim (Bool-cases (id == worker.id)) [
        | inl own ↦ ground (arith, own, row_, timer)
        | inr other ↦ sound.wired.to_interval h id z (ground (arith, other, row_)) timer
      ];
      given = sound.wired.given;
    };
    rows = λ id z row_. elim (Bool-cases (id == worker.id)) [
      | inl own ↦
          let same : fresh_state worker ≡ z = ground (arith, own, row_) in
          subst (IsRowSound s.max_consecutive_failures) same (record {
            below = λ on. sound.positive;
            reached = λ off. ground (arith, off);
            no_timer = λ off. refl;
            no_tick = λ off. refl;
          })
      | inr other ↦ sound.rows id z (ground (arith, other, row_))
    ];
  }

  register-IsSound : (t : Scheduler) → register worker s ≡ done t → IsSound t
  unfolding register
  register-IsSound t h = elim (Option-cases (s.workers.row worker.id)) [
    | inr (x, there) ↦ ground (arith, there, h)
    | inl gone ↦
        let same : done (registered worker s) ≡ done t = ground (arith, gone, h) in
        subst IsSound (ap (left_of s) same) (registered-IsSound gone)
  ]

Step-IsSound : (s t : Scheduler) → IsSound s → Step s t → IsSound t
unfolding start_all stop_all
Step-IsSound s t sound (registers worker h) = register-IsSound worker s sound t h
Step-IsSound s t sound (starts id h) = start-IsSound s sound id t h
Step-IsSound s t sound (stops id h) = stop-IsSound s sound id t h
Step-IsSound s t sound (starts_all h) =
    for_each-IsSound start (λ u id v good. start-IsSound u good id v) s.workers.keys s t sound h
Step-IsSound s t sound (stops_all h) =
    for_each-IsSound stop (λ u id v good. stop-IsSound u good id v) s.workers.keys s t sound h
Step-IsSound s t sound (resumes id h) = resume-IsSound s sound id t h
Step-IsSound s t sound (fires h id live e) = begin_tick-IsSound s sound id t e
Step-IsSound s t sound (ends id result x there flies e) =
    finish_tick-IsSound s sound id result x t there flies e

Steps-IsSound : (s t : Scheduler) → IsSound s → Steps s t → IsSound t
Steps-IsSound s t sound here = sound
Steps-IsSound s t sound (next u before step) =
    Step-IsSound u t (Steps-IsSound s u sound before) step

Ends-left : (P : Scheduler → Type 0) (o : Outcome) → Ends P o → (t : Scheduler) × (o ≡ done t)
Ends-left P (done t) e = (t, refl)
Ends-left P (error f) e = absurd e

-- In every course of a scheduler that is made to allow at least one failure: a worker is suspended
-- exactly when its count of failures in a row has reached the number that is allowed; a suspended worker has no timer and no
-- tick under way; the live intervals are exactly the timers of the workers, so that none is left
-- behind; and an interval that fires throws nothing.
scheduler_history :
    (max : Option ℕ) (s : Scheduler)
    → 0 < (new_scheduler max).max_consecutive_failures
    → Steps (new_scheduler max) s
    → IsSound s
      × ((h id : ℕ) → s.intervals h ≡ some id → (t : Scheduler) × (begin_tick id s ≡ done t))
scheduler_history max s some_ course =
    let sound = Steps-IsSound (new_scheduler max) s (new-IsSound max some_) course in
    (
      sound,
      λ h id live.
          let (x, there, timer) = sound.wired.to_row h id live in
          Ends-left _ (begin_tick id s) (begin_tick-Ends id x s there),
    )
