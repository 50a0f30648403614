-- ===== src/Cleanup/Effects.antt =====
-- What a method of the scheduler does to the row of its worker, and that it leaves all others alone.
use waylo_app.Base.{
  ℕ, ◌<◌, ◌≡◌, refl, sym, ap, ◌∙◌, arith, false, Option, none, some, ◌==◌, Bool-cases, inl, inr,
}
use waylo_app.Cleanup.{
  WorkerState, Scheduler, CleanupEvent, put_state, on_log, set_timer, clear_timer,
}

-- the live intervals are the timers of the workers, and handles are not given twice
pub record IsWired (s : Scheduler) : Type 0 where
  pub to_row :
      (h id : ℕ)
      → s.intervals h ≡ some id
      → (x : WorkerState) × (s.workers.row id ≡ some x) × (x.timer ≡ some h)
  pub to_interval :
      (h id : ℕ) (x : WorkerState)
      → s.workers.row id ≡ some x
      → x.timer ≡ some h
      → s.intervals h ≡ some id
  pub given : (h id : ℕ) → s.intervals h ≡ some id → h < s.next_handle

-- from `s` to `t` the row of `id` has become `x`
pub record Effect (id : ℕ) (x : WorkerState) (s t : Scheduler) : Type 0 where
  pub here : t.workers.row id ≡ some x
  pub others : (j : ℕ) → (j == id) ≡ false → t.workers.row j ≡ s.workers.row j
  pub wired : IsWired s → IsWired t
  pub same_max : t.max_consecutive_failures ≡ s.max_consecutive_failures

pub Effect-trans :
    (id : ℕ) (x y : WorkerState) (s t u : Scheduler)
    → Effect id x s t
    → Effect id y t u
    → Effect id y s u
Effect-trans id x y s t u p q = record {
  here = q.here;
  others = λ j other. q.others j other ∙ p.others j other;
  wired = λ w. q.wired (p.wired w);
  same_max = q.same_max ∙ p.same_max;
}

-- a log entry changes no row
pub on_log-Effect :
    (id : ℕ) (x : WorkerState) (s : Scheduler) (event : CleanupEvent) (failures : Option ℕ)
    → s.workers.row id ≡ some x
    → Effect id x s (on_log event id failures s)
on_log-Effect id x s event failures there = record {
  here = there;
  others = λ j other. refl;
  wired = λ w. record { to_row = w.to_row; to_interval = w.to_interval; given = w.given };
  same_max = refl;
}

-- a row that keeps its timer
module _ (id : ℕ) (x y : WorkerState) (s : Scheduler) (there : s.workers.row id ≡ some x)
    (same : y.timer ≡ x.timer) where
  put-IsWired : IsWired s → IsWired (put_state id y s)
  put-IsWired w = record {
    to_row = λ h k live. elim (Bool-cases (k == id)) [
      | inl own ↦
          let (z, row_, timer) = w.to_row h k live in
          let same_id : k ≡ id = ground (arith, own) in
          let same_state : z ≡ x = cc in (y, ground (arith, own), cc)
      | inr other ↦
          let (z, row_, timer) = w.to_row h k live in (z, ground (arith, other, row_), timer)
    ];
    to_interval = λ h k z row_ timer. elim (Bool-cases (k == id)) [
      | inl own ↦
          let same_id : k ≡ id = ground (arith, own) in
          let same_state : y ≡ z = ground (arith, own, row_) in
          let own_timer : x.timer ≡ some h = cc in
          w.to_interval h id x there own_timer ∙ ap some (sym same_id)
      | inr other ↦ w.to_interval h k z (ground (arith, other, row_)) timer
    ];
    given = w.given;
  }

  pub put_state-Effect : Effect id y s (put_state id y s)
  put_state-Effect = record {
    here = ground arith;
    others = λ j other. ground (arith, other);
    wired = put-IsWired;
    same_max = refl;
  }

no_timer : (x : WorkerState) (h : ℕ) → x.timer ≡ none → ¬ (x.timer ≡ some h)
no_timer x h idle runs = ground (arith, idle, runs)

-- `set_timer`, where there was none
module _ (id : ℕ) (x : WorkerState) (s : Scheduler) (there : s.workers.row id ≡ some x)
    (idle : x.timer ≡ none) where
  set-IsWired : IsWired s → IsWired (set_timer id x s)
  set-IsWired w = record {
    to_row = λ h k live. elim (Bool-cases (h == s.next_handle)) [
      | inl new ↦
          let same_id : k ≡ id = ground (arith, new, live) in
          let same_handle : h ≡ s.next_handle = ground (arith, new) in
          (
            record x { timer = some s.next_handle },
            ground (arith, same_id),
            ap some (sym same_handle),
          )
      | inr old ↦ elim (Bool-cases (k == id)) [
        | inl own ↦
            let (z, row_, timer) = w.to_row h k (ground (arith, old, live)) in
            let same_id : k ≡ id = ground (arith, own) in
            let same_state : z ≡ x = cc in
            let own_timer : x.timer ≡ some h = cc in absurd (no_timer x h idle own_timer)
        | inr other ↦
            let (z, row_, timer) = w.to_row h k (ground (arith, old, live)) in
            (z, ground (arith, other, row_), timer)
      ]
    ];
    to_interval = λ h k z row_ timer. elim (Bool-cases (k == id)) [
      | inl own ↦ ground (arith, own, row_, timer)
      | inr other ↦
          let live : s.intervals h ≡ some k =
            w.to_interval h k z (ground (arith, other, row_)) timer in
          let before = w.given h k live in ground (arith, live, before)
    ];
    given = λ h k live. elim (Bool-cases (h == s.next_handle)) [
      | inl new ↦ ground (arith, new)
      | inr old ↦ let before = w.given h k (ground (arith, old, live)) in ground (arith, before)
    ];
  }

  pub set_timer-Effect : Effect id (record x { timer = some s.next_handle }) s (set_timer id x s)
  set_timer-Effect = record {
    here = ground arith;
    others = λ j other. ground (arith, other);
    wired = set-IsWired;
    same_max = refl;
  }

-- `clear_timer`
module _ (id : ℕ) (x : WorkerState) (timer : ℕ) (s : Scheduler) (there : s.workers.row id ≡ some x)
    (runs : x.timer ≡ some timer) where
  clear-IsWired : IsWired s → IsWired (clear_timer id x timer s)
  clear-IsWired w = record {
    to_row = λ h k live. elim (Bool-cases (k == id)) [
      | inl own ↦
          let (z, row_, timer_) = w.to_row h k (ground (arith, live)) in
          let same_id : k ≡ id = ground (arith, own) in
          let same_state : z ≡ x = cc in
          let own_timer : some timer ≡ some h = cc in ground (arith, live, own_timer)
      | inr other ↦
          let (z, row_, timer_) = w.to_row h k (ground (arith, live)) in
          (z, ground (arith, other, row_), timer_)
    ];
    to_interval = λ h k z row_ timer_. elim (Bool-cases (k == id)) [
      | inl own ↦ ground (arith, own, row_, timer_)
      | inr other ↦
          let live : s.intervals h ≡ some k =
            w.to_interval h k z (ground (arith, other, row_)) timer_ in
          let cleared = w.to_interval timer id x there runs in ground (arith, live, cleared, other)
    ];
    given = λ h k live. w.given h k (ground (arith, live));
  }

  pub clear_timer-Effect : Effect id (record x { timer = none }) s (clear_timer id x timer s)
  clear_timer-Effect = record {
    here = ground arith;
    others = λ j other. ground (arith, other);
    wired = clear-IsWired;
    same_max = refl;
  }
