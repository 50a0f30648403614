-- ===== src/Escrow.antt =====
-- The capture of escrowed funds: src/services/escrow.service.ts, with its guard
-- src/services/escrow-capture.guard.ts and the alias `stripe-capture` of
-- packages/shared/src/automation/alias.ts.
pub mod Capture
mod Examples
use waylo_app.Base.{
  ℕ, zero, suc, ◌+◌, Bool, not, Option, some, List, [], ◌∷◌, ◌++◌, ltb, if◌then◌else◌,
}
use waylo_app.Schema.Status.{EscrowStatus, is_escrow_status}
use waylo_app.Schema.Rows.{Mission, Escrow}
use waylo_app.Money.{substitution_ceiling_cents, substitution_hard_cap_cents}
use waylo_app.Watchdog.{Attempt, WatchdogOptions, Outcome, returned, exhausted_error, automate}
use waylo_app.App.{
  Db, World, CaptureContext, StripeCall, capture_intent, AlertCode, Code, Fault, app_error,
  capture_error, watchdog_exhausted, Result, Action, Done, ◌>>=◌, ◌>>◌, pure, throw, read, or_throw,
  throw_if, catch, others, emit,
}

-- the configuration of the alias `stripe-capture`
abbrev pub stripe_capture_options : WatchdogOptions
stripe_capture_options = record {
  max_retries = 3;
  backoff_ms = 500;
  timeout_ms = 15_000;
  exponential_factor = 2;
}

-- `heldBudgetCents`
unfoldable pub held_budget_cents : Mission → ℕ
held_budget_cents m =
    if m.substitution_authorized then substitution_ceiling_cents m.budget_cents else m.budget_cents

-- `capturedAmountCents`: the amount that a capture asks for
unfoldable pub capture_amount_cents : Mission → ℕ
unfolding held_budget_cents
capture_amount_cents m = held_budget_cents m + m.commission_cents

abbrev pub repeat_call : ℕ → StripeCall → List StripeCall → List StripeCall
repeat_call zero c calls = calls
repeat_call (suc n) c calls = repeat_call n c (calls ++ (c ∷ []))

-- `runAlias('stripe-capture', …)`: every attempt sends the same call
unfoldable pub run_capture : (ℕ → Attempt Done) → (Db → Db) → StripeCall → Action (Outcome Done)
run_capture attempts between c w =
    let run = automate stripe_capture_options attempts 0 in
    (Result.ok run.outcome, record w { db = between w.db; calls = repeat_call run.calls c w.calls })

abbrev pub outcome_or_throw : Outcome Done → Action Done
outcome_or_throw (returned a) = pure tt
outcome_or_throw (exhausted_error n e xs) = throw watchdog_exhausted

-- `captureEscrowFunds(missionId, stripe, context)`. `attempts` is what Stripe does, `between` what
-- others commit in the meantime. An escrow without its mission cannot be: it is an unexpected error.
unfoldable pub capture_escrow_funds : (ℕ → Attempt Done) → (Db → Db) → ℕ → CaptureContext → Action ℕ
capture_escrow_funds attempts between id context = do
  escrow ←
      (read (λ db. db.escrows.row id) >>= λ o. or_throw o (capture_error Code.escrow_not_found))
  throw_if (not (is_escrow_status escrow.status EscrowStatus.held))
      (capture_error Code.escrow_not_held)
  mission ← (read (λ db. db.missions.row id) >>= λ o. or_throw o Fault.unexpected)
  throw_if (ltb (substitution_hard_cap_cents mission.budget_cents) (held_budget_cents mission))
      (capture_error Code.substitution_hard_cap_exceeded)
  let amount = capture_amount_cents mission
  outcome ←
      run_capture attempts between
        (capture_intent escrow.stripe_payment_intent_id amount id context)
  outcome_or_throw outcome
  pure amount

abbrev capture_failed_handler : Fault → Action ℕ
capture_failed_handler (app_error c n) = throw (app_error c n)
capture_failed_handler (capture_error c) = throw (capture_error c)
capture_failed_handler watchdog_exhausted =
    emit AlertCode.capture_failed >> throw (app_error Code.escrow_capture_failed 502)
capture_failed_handler (Fault.dispute_error c) = throw (Fault.dispute_error c)
capture_failed_handler (Fault.checkout_error c) = throw (Fault.checkout_error c)
capture_failed_handler Fault.webhook_abort = throw Fault.webhook_abort
capture_failed_handler Fault.unique_violation = throw Fault.unique_violation
capture_failed_handler Fault.concurrent_change = throw Fault.concurrent_change
capture_failed_handler Fault.unexpected = throw Fault.unexpected

-- `captureEscrowFundsGuarded`
unfoldable pub capture_escrow_funds_guarded :
    (ℕ → Attempt Done) → (Db → Db) → ℕ → CaptureContext → Action ℕ
unfolding capture_escrow_funds
capture_escrow_funds_guarded attempts between id context =
    catch (capture_escrow_funds attempts between id context) capture_failed_handler

-- The `try`/`catch` of every route around the guard: an EscrowCaptureError is ESCROW_NOT_HELD.
abbrev not_held_handler : Fault → Action ℕ
not_held_handler (app_error c n) = throw (app_error c n)
not_held_handler (capture_error c) = throw (app_error Code.escrow_not_held 400)
not_held_handler watchdog_exhausted = throw watchdog_exhausted
not_held_handler (Fault.dispute_error c) = throw (Fault.dispute_error c)
not_held_handler (Fault.checkout_error c) = throw (Fault.checkout_error c)
not_held_handler Fault.webhook_abort = throw Fault.webhook_abort
not_held_handler Fault.unique_violation = throw Fault.unique_violation
not_held_handler Fault.concurrent_change = throw Fault.concurrent_change
not_held_handler Fault.unexpected = throw Fault.unexpected

unfoldable pub capture_for_route : (ℕ → Attempt Done) → (Db → Db) → ℕ → CaptureContext → Action ℕ
unfolding capture_escrow_funds_guarded
capture_for_route attempts between id context =
    catch (capture_escrow_funds_guarded attempts between id context) not_held_handler
