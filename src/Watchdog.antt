-- ===== src/Watchdog.antt =====
-- Retry with exponential backoff and a strict timeout: packages/shared/src/automation/watchdog.ts.
-- What a promise of `fn` does is a value of `Attempt`; the clock is counted in ms. A promise that
-- settles before its deadline wins the race, any other loses it. The factor is a whole number, as
-- in every alias that the program registers.
pub mod Attempts
pub mod Time
mod Examples
use waylo_app.Base.{
  ℕ, zero, suc, ◌+◌, ◌-◌, ◌*◌, ◌^◌, Option, none, some, List, [], ◌∷◌, ◌++◌, ltb, if◌then◌else◌,
}

-- what one call of `fn` does: it resolves or rejects after so many ms
pub data Attempt {ℓ} (A : Type ℓ) : Type ℓ where
  resolves : ℕ → A → Attempt A
  rejects : ℕ → ℕ → Attempt A

pub data Thrown : Type 0 where
  timed_out : Thrown  -- WatchdogTimeoutError
  rejected : ℕ → Thrown

pub data Settled {ℓ} (A : Type ℓ) : Type ℓ where
  value : A → Settled A
  thrown : Thrown → Settled A

pub data LogEvent : Type 0 where
  attempt_success attempt_failure exhausted : LogEvent

pub record AttemptLog : Type 0 where
  pub event : LogEvent
  pub attempt : ℕ
  pub duration_ms : ℕ
  pub error : Option Thrown

pub record ExhaustLog : Type 0 where
  pub attempt : ℕ
  pub error : Thrown
  pub timestamp : ℕ

pub record WatchdogOptions : Type 0 where
  pub max_retries : ℕ
  pub backoff_ms : ℕ
  pub timeout_ms : ℕ
  pub exponential_factor : ℕ

-- the defaults of `automate`
abbrev pub default_options : WatchdogOptions
default_options = record {
  max_retries = 3;
  backoff_ms = 200;
  timeout_ms = 30_000;
  exponential_factor = 2;
}

pub data Outcome {ℓ} (A : Type ℓ) : Type ℓ where
  returned : A → Outcome A
  -- WatchdogExhaustedError: `attempts`, `lastError`, `attemptLogs`
  exhausted_error : ℕ → Thrown → List ExhaustLog → Outcome A

pub record Run {ℓ} (A : Type ℓ) : Type ℓ where
  pub outcome : Outcome A
  pub calls : ℕ  -- how often `fn` was called
  pub clock : ℕ
  pub logs : List AttemptLog

module _ {ℓ} {A : Type ℓ} where
  -- `raceWithTimeout`
  unfoldable pub race_with_timeout : ℕ → Attempt A → Settled A
  race_with_timeout ms (resolves after a) = if ltb after ms then value a else thrown timed_out
  race_with_timeout ms (rejects after e) =
      if ltb after ms then thrown (rejected e) else thrown timed_out

  unfoldable pub duration : ℕ → Attempt A → ℕ
  duration ms (resolves after a) = if ltb after ms then after else ms
  duration ms (rejects after e) = if ltb after ms then after else ms

-- `backoffMs * Math.pow(exponentialFactor, attempt - 1)`
unfoldable pub delay_after : WatchdogOptions → ℕ → ℕ
delay_after o attempt = o.backoff_ms * o.exponential_factor ^ (attempt - 1)

module _ {ℓ} {A : Type ℓ} (o : WatchdogOptions) (fn : ℕ → Attempt A) where
  abbrev success : ℕ → ℕ → List AttemptLog → A → Run A
  success attempt clock logs v =
      let d = duration o.timeout_ms (fn attempt) in
      record {
        outcome = returned v;
        calls = attempt;
        clock = clock + d;
        logs =
            logs
            ++ (record {
              event = LogEvent.attempt_success;
              attempt = attempt;
              duration_ms = d;
              error = none;
            }
                ∷ []);
      }

  abbrev failure_log : LogEvent → ℕ → Thrown → AttemptLog
  failure_log ev attempt e = record {
    event = ev;
    attempt = attempt;
    duration_ms = duration o.timeout_ms (fn attempt);
    error = some e;
  }

  -- the loop of `automate`; the first argument counts the attempts that follow this one
  unfoldable pub automate_from : ℕ → ℕ → ℕ → List ExhaustLog → List AttemptLog → Run A
  automate_from zero attempt clock exhaust_logs logs =
      let now = clock + duration o.timeout_ms (fn attempt) in
      elim (race_with_timeout o.timeout_ms (fn attempt)) [
        | value v ↦ success attempt clock logs v
        | thrown e ↦
            let all : List ExhaustLog =
              exhaust_logs ++ (record { attempt = attempt; error = e; timestamp = now } ∷ []) in
            record {
              outcome = exhausted_error attempt e all;
              calls = attempt;
              clock = now;
              logs = logs ++ (failure_log LogEvent.exhausted attempt e ∷ []);
            }
      ]
  automate_from (suc left) attempt clock exhaust_logs logs =
      let now = clock + duration o.timeout_ms (fn attempt) in
      elim (race_with_timeout o.timeout_ms (fn attempt)) [
        | value v ↦ success attempt clock logs v
        | thrown e ↦
            automate_from left (attempt + 1) (now + delay_after o attempt)
              (exhaust_logs ++ (record { attempt = attempt; error = e; timestamp = now } ∷ []))
              (logs ++ (failure_log LogEvent.attempt_failure attempt e ∷ []))
      ]

  -- `automate(id, fn, options)`, called when the clock shows `start`
  unfoldable pub automate : ℕ → Run A
  automate start = automate_from o.max_retries 1 start [] []
