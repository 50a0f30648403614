-- ===== src/Watchdog/Time.antt =====
-- How long the watchdog can take.
use waylo_app.Base.{ℕ, zero, suc, ◌+◌, ◌*◌, ◌≤◌, inl, inr, List, [], ◌∷◌, ◌++◌, arith}
use waylo_app.Watchdog.{
  Attempt, LogEvent, WatchdogOptions, ExhaustLog, AttemptLog, race_with_timeout, duration,
  delay_after, failure_log, automate_from, automate,
}
use waylo_app.Watchdog.Attempts.{Settled-cases}

-- the pauses after the attempts `n`, …, `n + left - 1`
abbrev pub backoff_total : WatchdogOptions → ℕ → ℕ → ℕ
backoff_total o zero n = 0
backoff_total o (suc left) n = delay_after o n + backoff_total o left (n + 1)

module _ {ℓ} {A : Type ℓ} (o : WatchdogOptions) (fn : ℕ → Attempt A) where
  duration-le : (a : Attempt A) → duration o.timeout_ms a ≤ o.timeout_ms
  unfolding duration
  duration-le a = ground arith

  automate_from_bounded :
      (left n clock : ℕ) (xs : List ExhaustLog) (ls : List AttemptLog)
      → (automate_from o fn left n clock xs ls).clock
        ≤ clock + (left + 1) * o.timeout_ms + backoff_total o left n
  unfolding automate_from
  automate_from_bounded zero n clock xs ls = ground (arith, duration-le (fn n))
  automate_from_bounded (suc left) n clock xs ls =
      elim (Settled-cases (race_with_timeout o.timeout_ms (fn n))) [
        | inl (v, won) ↦ ground (arith, duration-le (fn n))
        | inr (e, lost) ↦
            let d = duration o.timeout_ms (fn n) in
            let x : ExhaustLog = record { attempt = n; error = e; timestamp = clock + d } in
            rw (lost, automate_from)
              (omega (
                arith,
                duration-le (fn n),
                automate_from_bounded left (n + 1) (clock + d + delay_after o n) (xs ++ (x ∷ []))
                    (ls ++ (failure_log o fn LogEvent.attempt_failure n e ∷ [])),
              ))
      ]

  -- Whatever its function does, the watchdog ends after at most one timeout for each attempt and
  -- the pauses between them.
  pub automate_bounded :
      (start : ℕ)
      → (automate o fn start).clock
        ≤ start + (o.max_retries + 1) * o.timeout_ms + backoff_total o o.max_retries 1
  unfolding automate
  automate_bounded start = automate_from_bounded o.max_retries 1 start [] []
