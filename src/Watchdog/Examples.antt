-- ===== src/Watchdog/Examples.antt =====
-- Tests of packages/shared/src/automation/watchdog.ts: two failures, then a success.
use waylo_app.Base.{ℕ, zero, suc, ◌+◌, ◌*◌, ◌≤◌, ◌≡◌, refl}
use waylo_app.Watchdog.{
  Attempt, resolves, rejects, default_options, automate, automate_from, race_with_timeout,
  delay_after,
}
use waylo_app.Watchdog.Time.{backoff_total, automate_bounded}

abbrev flaky : ℕ → Attempt ℕ
flaky zero = rejects 5 1
flaky (suc zero) = rejects 5 1
flaky (suc (suc zero)) = resolves 40_000 7
flaky (suc (suc (suc n))) = resolves 10 8

abbrev broken : ℕ → Attempt ℕ
broken n = rejects 5 1

automate_bounded_example :
    (automate default_options flaky 0).clock
    ≤ 0 + (3 + 1) * 30_000 + backoff_total default_options 3 1
automate_bounded_example = automate_bounded default_options flaky 0

backoff_of_defaults : backoff_total default_options 3 1 ≡ 1_400
unfolding delay_after
backoff_of_defaults = refl

third_call : (automate default_options flaky 0).calls ≡ 3
unfolding automate automate_from race_with_timeout delay_after
third_call = refl
