-- ===== src/Workers/Reconciliation/Timeouts/Examples.antt =====
-- A mission that is stuck at the customs.
use waylo_app.Base.{ℕ, ◌≡◌, ◌↔◌, true, [], ◌∷◌, refl}
use waylo_app.Schema.Status.{MissionStatus, is_status}
use waylo_app.Watchdog.{Attempt}
use waylo_app.App.{World}
use waylo_app.Samples.{sample_world, undisturbed}
use waylo_app.Books.{BooksBalance}
use waylo_app.Books.Sample.{sample-BooksBalance}
use waylo_app.Workers.Reconciliation.{TimeoutRound, run_timeouts, check_invariants, stalled_customs}
use waylo_app.Workers.Reconciliation.Checks.{AllAccounted, check_invariants_iff}
use waylo_app.Workers.Reconciliation.Timeouts.{run_timeouts-BooksBalance}

abbrev locked_world : World
locked_world = sample_world MissionStatus.escrow_locked_customs

abbrev round : ℕ → TimeoutRound
round i = record { cancels = true; attempts = λ n. Attempt.rejects 0 0; between = undisturbed }

abbrev after : World
after = (run_timeouts (λ k. true) 0 round round locked_world).1

found : stalled_customs (λ k. true) locked_world.db locked_world.db.missions.keys ≡ (7, 77) ∷ []
unfolding stalled_customs is_status
found = refl

run_timeouts-BooksBalance_example : BooksBalance after.db × (check_invariants after.db ≡ [])
run_timeouts-BooksBalance_example =
    run_timeouts-BooksBalance (λ k. true) 0 round round locked_world (λ i db books. books)
      (λ i db books. books) (sample-BooksBalance MissionStatus.escrow_locked_customs)

check_invariants_iff_example :
    (check_invariants locked_world.db ≡ []) ↔ AllAccounted locked_world.db
check_invariants_iff_example = check_invariants_iff locked_world.db
