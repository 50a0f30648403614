-- ===== src/Cleanup.antt =====
-- `CleanupScheduler` of packages/shared/src/automation/cleanup.ts. A worker is named by its id. `fn` and
-- the clock are outside: a tick that has begun ends by one of the three results, whenever it does.
pub mod Effects
pub mod Methods
pub mod Sound
pub mod Ticks
pub mod History
pub mod Liveness
use waylo_app.Base.{
  ℕ, ◌+◌, Bool, true, false, ◌||◌, Option, none, some, List, [], ◌∷◌, ◌++◌, leb, ◌==◌,
  if◌then◌else◌,
}
use waylo_app.Base.Table.{Table, put, create}

pub record CleanupWorker : Type 0 where
  pub id : ℕ
  pub interval_ms : ℕ
  pub max_duration_ms : Option ℕ

pub data CleanupEvent : Type 0 where
  tick_start tick_success tick_failure tick_timeout worker_suspended worker_resumed : CleanupEvent

pub record CleanupLog : Type 0 where
  pub event : CleanupEvent
  pub worker_id : ℕ
  pub consecutive_failures : Option ℕ

pub data CleanupWorkerError : Type 0 where
  already_registered not_registered : CleanupWorkerError

pub record WorkerState : Type 0 where
  pub worker : CleanupWorker
  pub timer : Option ℕ
  pub consecutive_failures : ℕ
  pub suspended : Bool
  pub in_flight : Bool

-- The scheduler, its log, and the intervals of the runtime: the worker that a live interval ticks.
pub record Scheduler : Type 0 where
  pub workers : Table WorkerState
  pub max_consecutive_failures : ℕ
  pub logs : List CleanupLog
  pub intervals : ℕ → Option ℕ
  pub next_handle : ℕ

-- what a method throws, or leaves
pub data Outcome : Type 0 where
  done : Scheduler → Outcome
  error : CleanupWorkerError → Outcome

abbrev pub and_then : Outcome → (Scheduler → Outcome) → Outcome
and_then (done s) k = k s
and_then (error e) k = error e

-- `new CleanupScheduler(options)`
abbrev pub new_scheduler : Option ℕ → Scheduler
new_scheduler max = record {
  workers = record { keys = []; row = λ k. none };
  max_consecutive_failures = elim max [ none ↦ 5 | some m ↦ m ];
  logs = [];
  intervals = λ h. none;
  next_handle = 0;
}

abbrev pub put_state : ℕ → WorkerState → Scheduler → Scheduler
put_state id state s = record s { workers = put id state s.workers }

abbrev pub on_log : CleanupEvent → ℕ → Option ℕ → Scheduler → Scheduler
on_log event id failures s = record s {
  logs = s.logs ++ (record { event = event; worker_id = id; consecutive_failures = failures } ∷ []);
}

-- `requireState(id)`, and what follows
abbrev pub with_state : ℕ → Scheduler → (WorkerState → Outcome) → Outcome
with_state id s k = elim (s.workers.row id) [ none ↦ error not_registered | some state ↦ k state ]

abbrev pub fresh_state : CleanupWorker → WorkerState
fresh_state worker = record {
  worker = worker;
  timer = none;
  consecutive_failures = 0;
  suspended = false;
  in_flight = false;
}

-- `register`
unfoldable pub register : CleanupWorker → Scheduler → Outcome
register worker s = elim (create worker.id (fresh_state worker) s.workers) [
  | none ↦ error already_registered
  | some t ↦ done (record s { workers = t })
]

-- `setInterval`, kept as the timer of the worker
abbrev pub set_timer : ℕ → WorkerState → Scheduler → Scheduler
set_timer id state s = record s {
  workers = put id (record state { timer = some s.next_handle }) s.workers;
  intervals = λ h. if h == s.next_handle then some id else s.intervals h;
  next_handle = s.next_handle + 1;
}

-- `clearInterval`, and the timer of the worker is forgotten
abbrev pub clear_timer : ℕ → WorkerState → ℕ → Scheduler → Scheduler
clear_timer id state timer s = record s {
  workers = put id (record state { timer = none }) s.workers;
  intervals = λ h. if h == timer then none else s.intervals h;
}

-- `start`
unfoldable pub start : ℕ → Scheduler → Outcome
start id s = with_state id s (λ state. elim state.timer [
  | some timer ↦ done s
  | none ↦ if state.suspended then done s else done (set_timer id state s)
])

-- `stop`
unfoldable pub stop : ℕ → Scheduler → Outcome
stop id s =
    with_state id s (λ state. elim state.timer [
      | none ↦ done s
      | some timer ↦ done (clear_timer id state timer s)
    ])

-- `for (const id of this.workers.keys()) method(id)`
unfoldable pub for_each : (ℕ → Scheduler → Outcome) → List ℕ → Scheduler → Outcome
for_each method [] s = done s
for_each method (id ∷ ids) s = and_then (method id s) (for_each method ids)

unfoldable pub start_all : Scheduler → Outcome
unfolding for_each
start_all s = for_each start s.workers.keys s

unfoldable pub stop_all : Scheduler → Outcome
unfolding for_each
stop_all s = for_each stop s.workers.keys s

abbrev pub resumed_state : WorkerState → WorkerState
resumed_state state = record state { suspended = false; consecutive_failures = 0 }

-- `resume`
unfoldable pub resume : ℕ → Scheduler → Outcome
unfolding start
resume id s = with_state id s (λ state.
    if state.suspended
    then start id (on_log worker_resumed id none (put_state id (resumed_state state) s))
    else done s)

-- `suspend`
unfoldable pub suspend : ℕ → Scheduler → Outcome
unfolding stop
suspend id s = with_state id s (λ state.
    and_then (stop id (put_state id (record state { suspended = true }) s))
      (λ s1. done (on_log worker_suspended id (some state.consecutive_failures) s1)))

-- `tick`, up to the `await`
unfoldable pub begin_tick : ℕ → Scheduler → Outcome
begin_tick id s = with_state id s (λ state.
    if state.in_flight || state.suspended
    then done s
    else done (on_log tick_start id none (put_state id (record state { in_flight = true }) s)))

-- how `raceWithTimeout` ends
pub data TickResult : Type 0 where
  succeeded failed timed_out : TickResult

abbrev pub add_failure : WorkerState → WorkerState
add_failure state = record state { consecutive_failures = state.consecutive_failures + 1 }

-- the `catch` of `tick`
unfoldable pub fail_tick : ℕ → CleanupEvent → WorkerState → Scheduler → Outcome
unfolding suspend
fail_tick id event state s =
    let s1 =
      on_log event id (some (state.consecutive_failures + 1))
        (put_state id (add_failure state) s) in
    if leb s.max_consecutive_failures (state.consecutive_failures + 1)
    then suspend id s1
    else done s1

-- the `finally` of `tick`
unfoldable pub land : ℕ → Scheduler → Outcome
land id s = with_state id s (λ state. done (put_state id (record state { in_flight = false }) s))

abbrev pub end_tick : ℕ → TickResult → WorkerState → Scheduler → Outcome
end_tick id succeeded state s =
    done (on_log tick_success id none (put_state id (record state { consecutive_failures = 0 }) s))
end_tick id failed state s = fail_tick id tick_failure state s
end_tick id timed_out state s = fail_tick id tick_timeout state s

-- `tick`, from the end of the `await` on
unfoldable pub finish_tick : ℕ → TickResult → Scheduler → Outcome
unfolding fail_tick land
finish_tick id result s = with_state id s (λ state. and_then (end_tick id result state s) (land id))
