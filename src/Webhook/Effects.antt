-- ===== src/Webhook/Effects.antt =====
-- The events, and the outcome of an effect, of src/stripe/webhook.route.ts.
use waylo_app.Base.{ℕ, Bool, true, false, Option, List, []}
use waylo_app.App.{AlertCode, Fault, Action, Done, ◌>>◌, pure, emit, throw}

-- An event with the fields of its object that the handlers read. An amount that is not positive is 0.
pub data Event : Type 0 where
  -- metadata.missionId and payment_intent of a session
  checkout_completed : (mission intent : Option ℕ) → Event
  -- id, amount_received and metadata.missionId of a PaymentIntent
  intent_succeeded : (intent amount_received : ℕ) → Option ℕ → Event
  intent_failed : (intent : ℕ) → Event
  -- payment_intent, amount_refunded and metadata.substitutionRequestId of a charge
  charge_refunded : Option ℕ → (amount_refunded : ℕ) → Option ℕ → Event
  -- id, amount and approved of a card authorisation
  issuing_created : (authorization amount : ℕ) → Bool → Event
  other : Event

-- `notif:escrow-released:buyer` and `notif:escrow-released:traveler`
pub data NotificationAlias : Type 0 where
  released_buyer released_traveler : NotificationAlias

pub record DeferredNotification : Type 0 where
  pub alias : NotificationAlias
  pub mission_id : ℕ
  pub recipient_id : ℕ
  pub amount_cents : ℕ

pub record EffectOutcome : Type 0 where
  pub handled : Bool
  pub deferred_alerts : List AlertCode
  pub deferred_notifications : List DeferredNotification

abbrev pub no_effect : EffectOutcome
no_effect = record { handled = false; deferred_alerts = []; deferred_notifications = [] }

abbrev pub handled_with : List AlertCode → EffectOutcome
handled_with alerts = record {
  handled = true;
  deferred_alerts = alerts;
  deferred_notifications = [];
}

-- an alert that survives the rollback, then WebhookAbortError
abbrev pub abort_with {ℓ} : {A : Type ℓ} → AlertCode → Action A
abort_with alert = emit alert >> throw Fault.webhook_abort

abbrev pub abort {ℓ} : {A : Type ℓ} → Action A
abort = abort_with AlertCode.webhook_abort_non_recoverable

abbrev pub abort_if : Bool → AlertCode → Action Done
abort_if true alert = abort_with alert
abort_if false alert = pure tt
