-- ===== src/Webhook/CaptureEvent.antt =====
-- `handleCapture` of src/stripe/webhook.route.ts.
use waylo_app.Base.{ℕ, true, false, ◌&&◌, Option, none, some, [], ◌∷◌, leb, ◌==◌, if◌then◌else◌}
use waylo_app.Base.Table.{find_first}
use waylo_app.Schema.Status.{MissionStatus, EscrowStatus, LedgerType, is_escrow_status, is_verified}
use waylo_app.Schema.Rows.{User, Mission, Escrow}
use waylo_app.App.{
  Db, AlertCode, Fault, Action, ◌>>=◌, ◌>>◌, pure, read, or_throw, others, update_mission,
  update_escrow, add_ledger,
}
use waylo_app.Webhook.Effects.{EffectOutcome, no_effect, handled_with, abort}
use waylo_app.Webhook.Settle.{entry, release}

-- `escrow.mission.traveler`
abbrev pub traveler_of : Mission → Db → Option User
traveler_of m db = elim m.traveler_id [ none ↦ none | some t ↦ db.users t ]

-- the Connect account, if the traveler is verified
unfoldable pub destination_account : Option User → Option ℕ
destination_account none = none
destination_account (some u) = if is_verified u.kyc_status then u.stripe_account_id else none

-- steps 2 and 3, after the capture has been journalled
unfoldable pub pay_out : ℕ → Mission → Option ℕ → ℕ → Action EffectOutcome
unfolding release
pay_out id m none captured = do
  update_mission id (λ m. true) (λ m. record m { status = MissionStatus.awaiting_traveler_account })
  pure (handled_with (AlertCode.traveler_account_missing ∷ []))
pay_out id m (some account) captured = release id m account captured

-- step 1: the capture is journalled, whatever comes after
unfoldable pub record_capture : ℕ → ℕ → Action ℕ
record_capture id captured =
    update_escrow id
      (λ e. is_escrow_status e.status EscrowStatus.held && (e.captured_amount_cents == 0))
      (λ e. record e { captured_amount_cents = captured })

abbrev journal_capture : ℕ → Mission → Option ℕ → ℕ → Action EffectOutcome
journal_capture id m account captured =
    add_ledger (entry id LedgerType.capture captured) >> pay_out id m account captured

abbrev capture_once : ℕ → Mission → Option ℕ → ℕ → Escrow → Action EffectOutcome
capture_once id m account captured fresh = do
  count ← record_capture id captured
  if count == 1
      then journal_capture id m account captured
      else if fresh.captured_amount_cents == captured
      then pure no_effect
      else abort

-- the handler once the row is locked; `fresh` is the escrow as it is read under the lock
unfoldable pub capture_locked : ℕ → Mission → Option ℕ → ℕ → Escrow → Action EffectOutcome
unfolding record_capture pay_out
capture_locked id m account captured fresh =
    if is_escrow_status fresh.status EscrowStatus.released
    then pure no_effect
    else if leb captured 0
    then abort
    else capture_once id m account captured fresh

-- the lock: others commit before it is granted
unfoldable pub capture_found : (Db → Db) → ℕ → Option ℕ → Option (ℕ × Escrow) → Action EffectOutcome
unfolding capture_locked destination_account
capture_found between captured orphan none = pure (elim orphan [
  | none ↦ no_effect
  | some m ↦ record {
    handled = false;
    deferred_alerts = AlertCode.webhook_mission_not_found ∷ [];
    deferred_notifications = [];
  }
])
capture_found between captured orphan (some (id, e)) = do
  row ← read (λ db. db.missions.row id)
  m ← or_throw row Fault.unexpected
  traveler ← read (traveler_of m)
  others between
  locked ← read (λ db. db.escrows.row id)
  fresh ← or_throw locked Fault.unexpected
  capture_locked id m (destination_account traveler) captured fresh

unfoldable pub handle_capture :
    (Db → Db) → (intent amount_received : ℕ) → Option ℕ → Action EffectOutcome
unfolding capture_found
handle_capture between intent amount_received orphan = do
  found ← read (λ db. find_first (λ e. e.stripe_payment_intent_id == intent) db.escrows)
  capture_found between amount_received orphan found
