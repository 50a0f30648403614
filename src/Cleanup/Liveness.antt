-- ===== src/Cleanup/Liveness.antt =====
-- What a row of failures does to a worker.
mod Examples
use waylo_app.Base.{
  ℕ, suc, ◌+◌, ◌<◌, ◌≤◌, ◌≡◌, ◌⊎◌, inl, inr, refl, sym, ap, subst, ◌∙◌, arith, Bool, true, false,
  ◌||◌, ◌&&◌, Option, none, some, List, [], ◌∷◌, leb, if◌then◌else◌, length, Bool-cases,
}
use waylo_app.Cleanup.{
  WorkerState, Scheduler, Outcome, done, and_then, TickResult, succeeded, failed, timed_out,
  begin_tick, finish_tick, add_failure,
}
use waylo_app.Cleanup.Effects.{Effect, Effect-trans}
use waylo_app.Cleanup.Methods.{Ends, Ends-map, and_then-Ends, begin_tick-Ends}
use waylo_app.Cleanup.Ticks.{finished, failed_once, finish_tick-Ends}

abbrev pub is_failure : TickResult → Bool
is_failure succeeded = false
is_failure failed = true
is_failure timed_out = true

abbrev pub all_fail : List TickResult → Bool
all_fail [] = true
all_fail (r ∷ rs) = is_failure r && all_fail rs

-- ticks of one worker, one after the other
unfoldable pub ticks : ℕ → List TickResult → Scheduler → Outcome
ticks id [] s = done s
ticks id (r ∷ rs) s = and_then (and_then (begin_tick id s) (finish_tick id r)) (ticks id rs)

-- the worker has failed so often in a row, and is ready for its next tick
abbrev pub IsReady : ℕ → ℕ → ℕ → Scheduler → Type 0
IsReady max id n s =
    (x : WorkerState) × (s.workers.row id ≡ some x)
    × (x.suspended ≡ false)
    × (x.in_flight ≡ false)
    × (x.consecutive_failures ≡ n)
    × (s.max_consecutive_failures ≡ max)

-- the worker is suspended, without a timer
abbrev pub IsSuspended : ℕ → Scheduler → Type 0
IsSuspended id s =
    (x : WorkerState) × (s.workers.row id ≡ some x) × (x.suspended ≡ true) × (x.timer ≡ none)

-- after `n` failures in a row, as long as they are not more than are allowed
abbrev pub Counted : ℕ → ℕ → ℕ → Scheduler → Type 0
Counted max id n s = ((n < max) × IsReady max id n s) ⊎ ((n ≡ max) × IsSuspended id s)

module _ (id : ℕ) (r : TickResult) (s : Scheduler) where
  tick-Ends :
      (x : WorkerState)
      → s.workers.row id ≡ some x
      → x.suspended ≡ false
      → x.in_flight ≡ false
      → Ends
          (Effect id (finished s.max_consecutive_failures r (record x { in_flight = true })) s)
          (and_then (begin_tick id s) (finish_tick id r))
  tick-Ends x there on idle =
      let y = record x { in_flight = true } in
      let z = finished s.max_consecutive_failures r y in
      let runs : (x.in_flight || x.suspended) ≡ false = ground (arith, on, idle) in
      and_then-Ends (Effect id y s) (Effect id z s) (begin_tick id s) (finish_tick id r)
        (subst (λ b. Ends (Effect id (if b then x else y) s) (begin_tick id s)) runs
          (begin_tick-Ends id x s there))
        (λ t e.
          Ends-map (Effect id (finished t.max_consecutive_failures r y) t) (Effect id z s)
            (finish_tick id r t)
            (λ u f.
              Effect-trans id y z s t u e
                (subst (λ m. Effect id (finished m r y) t u) e.same_max f))
            (finish_tick-Ends id y t e.here r))

counted_failure :
    (id max n : ℕ) (x : WorkerState) (t : Scheduler)
    → n < max
    → x.suspended ≡ false
    → x.consecutive_failures ≡ n
    → t.max_consecutive_failures ≡ max
    → t.workers.row id ≡ some (record (failed_once max x) { in_flight = false })
    → Counted max id (suc n) t
counted_failure id max n x t few on so_far same there =
    elim (Bool-cases (leb max (x.consecutive_failures + 1))) [
      | inl last ↦ inr (
        ground (arith, few, last, so_far),
        (
          record (add_failure x) { suspended = true; timer = none; in_flight = false },
          ground (arith, there, last),
          refl,
          refl,
        ),
      )
      | inr more ↦ inl (
        ground (arith, more, so_far),
        (
          record (add_failure x) { in_flight = false },
          ground (arith, there, more),
          on,
          refl,
          ground (arith, so_far),
          same,
        ),
      )
    ]

counted :
    (id max n : ℕ) (r : TickResult) (x : WorkerState) (t : Scheduler)
    → is_failure r ≡ true
    → n < max
    → x.suspended ≡ false
    → x.consecutive_failures ≡ n
    → t.max_consecutive_failures ≡ max
    → t.workers.row id ≡ some (finished max r (record x { in_flight = true }))
    → Counted max id (suc n) t
counted id max n succeeded x t fails few on so_far same there = ground (arith, fails)
counted id max n failed x t fails few on so_far same there =
    counted_failure id max n (record x { in_flight = true }) t few on so_far same there
counted id max n timed_out x t fails few on so_far same there =
    counted_failure id max n (record x { in_flight = true }) t few on so_far same there

tick-Counted :
    (id max n : ℕ) (r : TickResult) (s : Scheduler)
    → is_failure r ≡ true
    → n < max
    → IsReady max id n s
    → Ends (Counted max id (suc n)) (and_then (begin_tick id s) (finish_tick id r))
tick-Counted id max n r s fails few (x, there, on, idle, so_far, same) =
    let y = record x { in_flight = true } in
    Ends-map (Effect id (finished s.max_consecutive_failures r y) s) (Counted max id (suc n))
      (and_then (begin_tick id s) (finish_tick id r))
      (λ t e.
        counted id max n r x t fails few on so_far (e.same_max ∙ same)
          (e.here ∙ ap (λ m. some (finished m r y)) same))
      (tick-Ends id r s x there on idle)

too_many : (n max k : ℕ) → n ≡ max → ¬ (n + suc k ≤ max)
too_many n max k full enough = omega arith

-- the last failure that is allowed was the last tick
ticks-full :
    (id max n : ℕ) (rs : List TickResult) (t : Scheduler)
    → n ≡ max
    → n + length rs ≤ max
    → IsSuspended id t
    → Ends (Counted max id (n + length rs)) (ticks id rs t)
unfolding ticks
ticks-full id max n [] t full enough off = inr (ground (arith, full), off)
ticks-full id max n (r ∷ rs) t full enough off = absurd (too_many n max (length rs) full enough)

-- Up to the number of failures that are allowed, a worker that fails on and on is counted: below that
-- number it is ready for its next tick, and with the failure that reaches it the worker is suspended
-- and has no timer. No tick throws. The worker is registered, not suspended and has no tick under way
-- when the first of them fires, and has failed `n` times in a row.
ticks-Counted :
    (id max : ℕ) (rs : List TickResult) (n : ℕ) (s : Scheduler)
    → all_fail rs ≡ true
    → n < max
    → n + length rs ≤ max
    → IsReady max id n s
    → Ends (Counted max id (n + length rs)) (ticks id rs s)
unfolding ticks
ticks-Counted id max [] n s fails few enough ready =
    let same : n ≡ n + 0 = omega arith in subst (λ m. Counted max id m s) same (inl (few, ready))
ticks-Counted id max (r ∷ rs) n s fails few enough ready =
    let fails_here : is_failure r ≡ true = ground (arith, fails) in
    let fails_later : all_fail rs ≡ true = ground (arith, fails) in
    let enough_later : suc n + length rs ≤ max = ground (arith, enough) in
    let same : suc n + length rs ≡ n + suc (length rs) = omega arith in
    subst (λ m. Ends (Counted max id m) (ticks id (r ∷ rs) s)) same
      (and_then-Ends (Counted max id (suc n)) (Counted max id (suc n + length rs))
        (and_then (begin_tick id s) (finish_tick id r)) (ticks id rs)
        (tick-Counted id max n r s fails_here few ready)
        (λ t c. elim c [
          | inl (few_later, ready_later) ↦
              ticks-Counted id max rs (suc n) t fails_later few_later enough_later ready_later
          | inr (full, off) ↦ ticks-full id max (suc n) rs t full enough_later off
        ]))
