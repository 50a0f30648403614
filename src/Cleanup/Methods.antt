-- ===== src/Cleanup/Methods.antt =====
-- The methods of the scheduler on a worker that is registered: none throws, and this is its row afterwards.
use waylo_app.Base.{
  ℕ, ◌≡◌, refl, sym, ap, subst, arith, Bool, true, false, ◌||◌, Option, none, some, if◌then◌else◌,
  Bool-cases, Option-cases, inl, inr,
}
use waylo_app.Cleanup.{
  WorkerState, Scheduler, Outcome, done, error, not_registered, and_then, tick_start,
  worker_suspended, worker_resumed, put_state, on_log, with_state, set_timer, clear_timer, start,
  stop, resume, suspend, begin_tick, resumed_state, land,
}
use waylo_app.Cleanup.Effects.{
  Effect, Effect-trans, on_log-Effect, put_state-Effect, set_timer-Effect, clear_timer-Effect,
}

-- nothing is thrown, and `P` holds of what is left
abbrev pub Ends : (Scheduler → Type 0) → Outcome → Type 0
Ends P (done t) = P t
Ends P (error e) = ⊥

with_state_lem :
    (id : ℕ) (x : WorkerState) (s : Scheduler) (k : WorkerState → Outcome)
    → s.workers.row id ≡ some x
    → with_state id s k ≡ k x
with_state_lem id x s k there =
    ap (λ o. elim o as (λ r. Outcome) [ none ↦ error not_registered | some y ↦ k y ]) there

module _ (P : Scheduler → Type 0) where
  pub with_state-Ends :
      (id : ℕ) (x : WorkerState) (s : Scheduler) (k : WorkerState → Outcome)
      → s.workers.row id ≡ some x
      → Ends P (k x)
      → Ends P (with_state id s k)
  with_state-Ends id x s k there e = subst (Ends P) (sym (with_state_lem id x s k there)) e

  timer-Ends :
      (o : Option ℕ) (p : Outcome) (q : ℕ → Outcome)
      → (o ≡ none → Ends P p)
      → ((h : ℕ) → o ≡ some h → Ends P (q h))
      → Ends P (elim o [ none ↦ p | some h ↦ q h ])
  timer-Ends none p q idle runs = idle refl
  timer-Ends (some h) p q idle runs = runs h refl

pub and_then-Ends :
    (P Q : Scheduler → Type 0) (o : Outcome) (k : Scheduler → Outcome)
    → Ends P o
    → ((t : Scheduler) → P t → Ends Q (k t))
    → Ends Q (and_then o k)
and_then-Ends P Q (done t) k p next = next t p
and_then-Ends P Q (error e) k p next = absurd p

pub Ends-map :
    (P Q : Scheduler → Type 0) (o : Outcome) → ((t : Scheduler) → P t → Q t) → Ends P o → Ends Q o
Ends-map P Q (done t) f p = f t p
Ends-map P Q (error e) f p = absurd p

-- either way, with the row that it leaves
pub if-Ends :
    (id : ℕ) (s : Scheduler) (b : Bool) (y z : WorkerState) (p q : Outcome)
    → (b ≡ true → Ends (Effect id y s) p)
    → (b ≡ false → Ends (Effect id z s) q)
    → Ends (Effect id (if b then y else z) s) (if b then p else q)
if-Ends id s true y z p q yes_ no_ = yes_ refl
if-Ends id s false y z p q yes_ no_ = no_ refl

-- nothing has changed, and `y` is another form of the row
pub same-Effect :
    (id : ℕ) (y : WorkerState) (s : Scheduler) → s.workers.row id ≡ some y → Effect id y s s
same-Effect id y s there = record {
  here = there;
  others = λ j other. refl;
  wired = λ w. w;
  same_max = refl;
}

-- the timer that a worker has after `start`
abbrev pub started : WorkerState → Scheduler → Option ℕ
started x s = elim x.timer [
  | none ↦ if x.suspended then none else some s.next_handle
  | some h ↦ some h
]

module _ (id : ℕ) (x : WorkerState) (s : Scheduler) (there : s.workers.row id ≡ some x) where
  pub stop-Ends : Ends (Effect id (record x { timer = none }) s) (stop id s)
  unfolding stop
  stop-Ends =
      let P = Effect id (record x { timer = none }) s in
      with_state-Ends P id x s _ there (
        timer-Ends P x.timer (done s) (λ h. done (clear_timer id x h s))
          (λ idle. same-Effect id (record x { timer = none }) s (ground (arith, there, idle)))
          (λ h runs. clear_timer-Effect id x h s there runs))

  start_idle :
      x.timer ≡ none
      → Ends
          (Effect id (record x { timer = if x.suspended then none else some s.next_handle }) s)
          (if x.suspended then done s else done (set_timer id x s))
  start_idle idle = elim (Bool-cases x.suspended) [
    | inl off ↦
        subst
          (λ b.
            Ends (Effect id (record x { timer = if b then none else some s.next_handle }) s)
              (if b then done s else done (set_timer id x s)))
          (sym off) (same-Effect id (record x { timer = none }) s (ground (arith, there, idle)))
    | inr on ↦
        subst
          (λ b.
            Ends (Effect id (record x { timer = if b then none else some s.next_handle }) s)
              (if b then done s else done (set_timer id x s)))
          (sym on) (set_timer-Effect id x s there idle)
  ]

  pub start-Ends : Ends (Effect id (record x { timer = started x s }) s) (start id s)
  unfolding start
  start-Ends =
      let either = λ (o : Option ℕ).
        Ends
          (Effect id
            (record x {
              timer = elim o as (λ y. Option ℕ) [
                | none ↦ if x.suspended then none else some s.next_handle
                | some h ↦ some h
              ];
            })
            s)
          (elim o as (λ y. Outcome) [
            | none ↦ if x.suspended then done s else done (set_timer id x s)
            | some timer ↦ done s
          ]) in
      with_state-Ends (Effect id (record x { timer = started x s }) s) id x s _ there
        (elim (Option-cases x.timer) [
          | inl idle ↦ subst either (sym idle) (start_idle idle)
          | inr (h, runs) ↦
              subst either (sym runs)
                (same-Effect id (record x { timer = some h }) s (ground (arith, there, runs)))
        ])

-- the row that `resume` leaves
abbrev pub resumed : WorkerState → Scheduler → WorkerState
resumed x s =
    if x.suspended then record (resumed_state x) { timer = started (resumed_state x) s } else x

module _ (id : ℕ) (x : WorkerState) (s : Scheduler) (there : s.workers.row id ≡ some x) where
  pub resume-Ends : Ends (Effect id (resumed x s) s) (resume id s)
  unfolding resume
  resume-Ends =
      let s1 = on_log worker_resumed id none (put_state id (resumed_state x) s) in
      let y = record (resumed_state x) { timer = started (resumed_state x) s } in
      let first : Effect id (resumed_state x) s s1 =
        Effect-trans id (resumed_state x) (resumed_state x) s (put_state id (resumed_state x) s) s1
          (put_state-Effect id x (resumed_state x) s there refl)
          (on_log-Effect id (resumed_state x) (put_state id (resumed_state x) s) worker_resumed none
            (ground arith)) in
      with_state-Ends (Effect id (resumed x s) s) id x s _ there (
        if-Ends id s x.suspended y x (start id s1) (done s)
          (λ off.
            Ends-map (Effect id y s1) (Effect id y s) (start id s1)
              (λ t e. Effect-trans id (resumed_state x) y s s1 t first e)
              (start-Ends id (resumed_state x) s1 first.here))
          (λ on. same-Effect id x s there))

  pub begin_tick-Ends :
      Ends
        (Effect id (if x.in_flight || x.suspended then x else record x { in_flight = true }) s)
        (begin_tick id s)
  unfolding begin_tick
  begin_tick-Ends =
      let y = record x { in_flight = true } in
      let s1 = put_state id y s in
      with_state-Ends (Effect id (if x.in_flight || x.suspended then x else y) s) id x s _ there (
        if-Ends id s (x.in_flight || x.suspended) x y (done s) (done (on_log tick_start id none s1))
          (λ skip. same-Effect id x s there)
          (λ run.
            Effect-trans id y y s s1 (on_log tick_start id none s1)
              (put_state-Effect id x y s there refl)
              (on_log-Effect id y s1 tick_start none (ground arith))))

  pub land-Ends : Ends (Effect id (record x { in_flight = false }) s) (land id s)
  unfolding land
  land-Ends =
      let y = record x { in_flight = false } in
      with_state-Ends (Effect id y s) id x s _ there (put_state-Effect id x y s there refl)

  pub suspend-Ends : Ends (Effect id (record x { suspended = true; timer = none }) s) (suspend id s)
  unfolding suspend
  suspend-Ends =
      let y = record x { suspended = true } in
      let z = record x { suspended = true; timer = none } in
      let s1 = put_state id y s in
      with_state-Ends (Effect id z s) id x s _ there (
        and_then-Ends (Effect id z s1) (Effect id z s) (stop id s1) _
          (stop-Ends id y s1 (ground arith))
          (λ t e.
            Effect-trans id y z s s1 (on_log worker_suspended id (some x.consecutive_failures) t)
              (put_state-Effect id x y s there refl)
              (Effect-trans id z z s1 t (on_log worker_suspended id (some x.consecutive_failures) t)
                e (on_log-Effect id z t worker_suspended (some x.consecutive_failures) e.here))))
