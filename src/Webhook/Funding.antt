-- ===== src/Webhook/Funding.antt =====
-- `handleCheckoutCompleted` of src/stripe/webhook.route.ts.
use waylo_app.Base.{ℕ, not, Option, none, some, [], ◌==◌, if◌then◌else◌, is_some}
use waylo_app.Base.Table.{create, find_first}
use waylo_app.Schema.Status.{MissionStatus, EscrowStatus, is_status}
use waylo_app.Schema.Rows.{Mission}
use waylo_app.App.{
  Db, AlertCode, Fault, Result, Action, Done, ◌>>=◌, ◌>>◌, pure, read, others, update_mission,
}
use waylo_app.Webhook.Effects.{EffectOutcome, no_effect, handled_with, abort, abort_if}

-- `escrowTransaction.create`: held, nothing captured; the mission and the intent are unique
unfoldable pub create_escrow : (id intent limit : ℕ) → Action Done
create_escrow id intent limit w =
    if is_some (find_first (λ e. e.stripe_payment_intent_id == intent) w.db.escrows)
    then (Result.err Fault.unique_violation, w)
    else elim (create id
        (record {
          stripe_payment_intent_id = intent;
          captured_amount_cents = 0;
          status = EscrowStatus.held;
          spending_limit_cents = limit;
        })
        w.db.escrows) [
          | none ↦ (Result.err Fault.unique_violation, w)
          | some es ↦ (Result.ok tt, record w { db = record w.db { escrows = es } })
        ]

unfoldable pub fund_mission : (Db → Db) → (id intent : ℕ) → Option Mission → Action EffectOutcome
unfolding create_escrow
fund_mission between id intent none = pure no_effect
fund_mission between id intent (some m) = do
  others between
  count ←
      update_mission id (λ m. is_status m.status MissionStatus.created)
        (λ m. record m { status = MissionStatus.funded })
  abort_if (not (count == 1)) AlertCode.webhook_abort_non_recoverable
  create_escrow id intent m.budget_cents
  pure (handled_with [])

unfoldable pub checkout_with_intent : (Db → Db) → (id intent : ℕ) → Action EffectOutcome
unfolding fund_mission
checkout_with_intent between id intent = do
  existing ← read (λ db. db.escrows.row id)
  m ← read (λ db. db.missions.row id)
  if is_some existing then pure no_effect else fund_mission between id intent m

-- others commit between the reads and the conditional update
unfoldable pub handle_checkout_completed :
    (Db → Db) → (mission intent : Option ℕ) → Action EffectOutcome
unfolding checkout_with_intent
handle_checkout_completed between none intent = pure no_effect
handle_checkout_completed between (some id) none = abort
handle_checkout_completed between (some id) (some intent) = checkout_with_intent between id intent
