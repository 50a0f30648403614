-- ===== src/Missions/Admin.antt =====
-- The arbitrage of src/missions/routes/admin.route.ts.
pub mod Early
pub mod Disputing
mod Examples
use waylo_app.Base.{ℕ, Bool, true, false, not, ◌||◌, Option, none, some, if◌then◌else◌}
use waylo_app.Schema.Status.{MissionStatus, EscrowStatus, is_status, is_escrow_status}
use waylo_app.Schema.Rows.{User, Mission, Escrow, AuditAction, AuditEntry}
use waylo_app.Watchdog.{Attempt}
use waylo_app.App.{
  Db, AlertCode, CaptureContext, StripeCall, cancel_intent, Code, Fault, app_error, Action, Done,
  ◌>>=◌, ◌>>◌, pure, throw, read, or_throw, throw_if, others, emit, stripe_call, transaction, audit,
}
use waylo_app.Escrow.{capture_for_route}
use waylo_app.Missions.Transition.{move}

-- `isRequestAdmin`
unfoldable pub is_request_admin : ℕ → Db → Bool
is_request_admin user db = elim (db.users user) [ none ↦ false | some u ↦ u.is_admin ]

abbrev pub require_admin : ℕ → Action Done
require_admin user = do
  admin ← read (is_request_admin user)
  throw_if (not admin) (app_error Code.forbidden 403)

abbrev pub is_held : Option Escrow → Bool
is_held none = false
is_held (some e) = is_escrow_status e.status EscrowStatus.held

abbrev pub alarm_unless : Bool → Action Done
alarm_unless true = pure tt
alarm_unless false =
    emit AlertCode.escrow_invariant_violated >> throw (app_error Code.escrow_invariant_violated 500)

abbrev pub awaits_review : Mission → Bool
awaits_review m = is_status m.status MissionStatus.pending_customs_review

abbrev pub is_disputed : Mission → Bool
is_disputed m = is_status m.status MissionStatus.disputed

abbrev pub to_status : MissionStatus → Mission → Mission
to_status s m = record m { status = s }

abbrev pub audited : ℕ → AuditAction → ℕ → AuditEntry
audited user action id = record { admin_id = some user; action = action; mission_id = id }

-- the transaction after the capture: the escrow is read again
unfoldable pub commit_approval : (user id : ℕ) → Action Done
unfolding move
commit_approval user id = transaction (do
  fresh ← read (λ db. db.escrows.row id)
  alarm_unless (is_held fresh)
  move id awaits_review (to_status MissionStatus.validated)
      (app_error Code.mission_not_customs_review 400)
  audit (audited user AuditAction.customs_approve id))

-- POST /:id/customs-approve
unfoldable pub customs_approve : (ℕ → Attempt Done) → (Db → Db) → (user id : ℕ) → Action Done
customs_approve attempts between user id = do
  require_admin user
  amount ← capture_for_route attempts between id CaptureContext.customs
  commit_approval user id

abbrev pub to_rejected : Mission → Mission
to_rejected m = record m {
  status = MissionStatus.escrow_locked_customs;
  customs_receipt_url = none;
  customs_receipt_sha256 = none;
}

-- POST /:id/customs-reject
unfoldable pub customs_reject : (Db → Db) → (user id : ℕ) → Action Done
unfolding move
customs_reject between user id = do
  require_admin user
  others between
  transaction (
      move id awaits_review to_rejected (app_error Code.mission_not_customs_review 400)
      >> audit (audited user AuditAction.customs_reject id))
  emit AlertCode.customs_receipt_rejected

abbrev require_disputed : ℕ → Action Done
require_disputed id = do
  row ← read (λ db. db.missions.row id)
  throw_if (not (elim row [ none ↦ false | some m ↦ is_disputed m ]))
      (app_error Code.mission_not_disputed 400)

-- the transaction of both arbitrages
abbrev pub commit_resolution : (user id : ℕ) → MissionStatus → AuditAction → Action Done
commit_resolution user id s action = transaction (
    move id is_disputed (to_status s) (app_error Code.mission_not_disputed 400)
    >> audit (audited user action id))

-- POST /:id/admin/resolve-payout
unfoldable pub resolve_payout : (ℕ → Attempt Done) → (Db → Db) → (user id : ℕ) → Action Done
unfolding move
resolve_payout attempts between user id = do
  require_admin user
  require_disputed id
  amount ← capture_for_route attempts between id CaptureContext.payout
  commit_resolution user id MissionStatus.validated AuditAction.admin_resolve_payout

-- the escrow whose hold is cancelled
abbrev require_held : ℕ → Action Escrow
require_held id = do
  row ← read (λ db. db.escrows.row id)
  throw_if (not (is_held row)) (app_error Code.escrow_not_held 400)
  or_throw row Fault.unexpected

-- POST /:id/admin/resolve-refund; `available` is whether the client can cancel, and `cancels` whether
-- the call succeeds
unfoldable pub resolve_refund : (available cancels : Bool) → (Db → Db) → (user id : ℕ) → Action Done
unfolding move
resolve_refund available cancels between user id = do
  require_admin user
  require_disputed id
  escrow ← require_held id
  throw_if (not available) (app_error Code.refund_unavailable 500)
  stripe_call (cancel_intent escrow.stripe_payment_intent_id id)
  throw_if (not cancels) Fault.unexpected
  others between
  commit_resolution user id MissionStatus.cancelled AuditAction.admin_resolve_refund
