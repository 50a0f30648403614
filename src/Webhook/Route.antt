-- ===== src/Webhook/Route.antt =====
-- POST /api/stripe/webhook of src/stripe/webhook.route.ts: an event is applied once. The check of
-- the signature is Stripe's: an event that arrives here has passed it.
use waylo_app.Base.{ℕ, Bool, true, false, List, [], ◌∷◌, ◌++◌, elem, if◌then◌else◌}
use waylo_app.App.{
  Db, World, AlertCode, Fault, Result, ok, err, Action, Done, ◌>>=◌, ◌>>◌, pure, read, others,
  transaction_among,
}
use waylo_app.Webhook.Effects.{Event, EffectOutcome, no_effect}
use waylo_app.Webhook.CaptureEvent.{handle_capture}
use waylo_app.Webhook.Refund.{apply_refund, handle_payment_failed, backfill_issuing_log}
use waylo_app.Webhook.Funding.{handle_checkout_completed}

-- `applyBusinessEffect`
unfoldable pub apply_business_effect : (Db → Db) → ℕ → Event → Action EffectOutcome
unfolding handle_checkout_completed handle_capture handle_payment_failed apply_refund
    backfill_issuing_log
apply_business_effect between now (Event.checkout_completed mission intent) =
    handle_checkout_completed between mission intent
apply_business_effect between now (Event.intent_succeeded intent received orphan) =
    handle_capture between intent received orphan
apply_business_effect between now (Event.intent_failed intent) =
    handle_payment_failed between intent
apply_business_effect between now (Event.charge_refunded intent amount sub) =
    apply_refund between now intent amount sub
apply_business_effect between now (Event.issuing_created auth amount approved) =
    backfill_issuing_log auth amount approved
apply_business_effect between now Event.other = pure no_effect

pub record Processed : Type 0 where
  pub duplicate : Bool
  pub outcome : EffectOutcome

-- `processedStripeEvent.create`: `stripeEventId` is unique
unfoldable pub mark_processed : ℕ → Action Done
mark_processed event_id w =
    if elem event_id w.db.processed_events then (err Fault.unique_violation, w) else (
      ok tt,
      record w { db = record w.db { processed_events = event_id ∷ w.db.processed_events } },
    )

-- the body of the transaction; others commit `before` the event is marked, and `between`
unfoldable pub process_event :
    (before between : Db → Db) → (now event_id : ℕ) → Event → Action Processed
unfolding mark_processed apply_business_effect
process_event before between now event_id event = do
  seen ← read (λ db. elem event_id db.processed_events)
  others before
  if seen
      then pure (record { duplicate = true; outcome = no_effect })
      else (mark_processed event_id
          >> (apply_business_effect between now event >>= λ effect.
              pure (record { duplicate = false; outcome = effect })))

pub data Reply : Type 0 where
  received : (duplicate handled : Bool) → Reply  -- 200
  processing_failed : Reply  -- 500

abbrev pub emit_all : List AlertCode → List AlertCode → List AlertCode
emit_all alerts [] = alerts
emit_all alerts (a ∷ as_) = emit_all (alerts ++ (a ∷ [])) as_

abbrev pub is_abort : Fault → Bool
is_abort Fault.webhook_abort = true
is_abort _ = false

-- the answer, and the alerts after the transaction
abbrev pub answer : Result Processed × World → Reply × World
answer (ok p, w) = (
  Reply.received p.duplicate p.outcome.handled,
  record w { alerts = emit_all w.alerts p.outcome.deferred_alerts },
)
answer (err e, w) = (
  Reply.processing_failed,
  if is_abort e
      then w
      else record w { alerts = w.alerts ++ (AlertCode.webhook_processing_failed ∷ []) },
)

unfoldable pub webhook :
    (before between : Db → Db) → (now event_id : ℕ) → Event → World → Reply × World
unfolding process_event
webhook before between now event_id event w = answer (
    transaction_among (λ db. between (before db)) (process_event before between now event_id event)
      w)
