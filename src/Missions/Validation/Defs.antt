-- ===== src/Missions/Validation/Defs.antt =====
-- The handlers of src/missions/routes/validation.route.ts.
use waylo_app.Base.{ℕ, ◌+◌, Bool, false, not, ◌&&◌, ◌||◌, Option, none, some, ◌==◌, if◌then◌else◌}
use waylo_app.Schema.Status.{MissionStatus, is_status}
use waylo_app.Schema.Rows.{Mission}
use waylo_app.Watchdog.{Attempt}
use waylo_app.App.{
  Db, CaptureContext, Code, Fault, app_error, Action, Done, ◌>>=◌, ◌>>◌, pure, throw, read,
  throw_if, transaction, update_mission,
}
use waylo_app.Escrow.{capture_for_route}
use waylo_app.Missions.Access.{mission_of_buyer}

-- `expectedVersion !== undefined && expectedVersion !== mission.version`
abbrev pub version_differs : Option ℕ → ℕ → Bool
version_differs none v = false
version_differs (some e) v = not (e == v)

abbrev pub is_customs_locked : MissionStatus → Bool
is_customs_locked s =
    is_status s MissionStatus.escrow_locked_customs
    || is_status s MissionStatus.pending_customs_review

-- the `where` clause of the transition: the status, and the version if one is expected
abbrev pub awaits_validation : Option ℕ → Mission → Bool
awaits_validation expected m =
    is_status m.status MissionStatus.awaiting_validation && not (version_differs expected m.version)

abbrev pub to_validated : Mission → Mission
to_validated m = record m { status = MissionStatus.validated; version = m.version + 1 }

-- why the conditional update found no row
abbrev pub conflict : Option ℕ → Option Mission → Fault
conflict expected none = app_error Code.mission_not_awaiting_validation 400
conflict expected (some m) =
    if version_differs expected m.version
    then app_error Code.version_conflict 409
    else app_error Code.mission_not_awaiting_validation 400

-- the transaction that follows the capture
unfoldable pub commit_validation : ℕ → Option ℕ → Action Done
commit_validation id expected = transaction (do
  count ← update_mission id (awaits_validation expected) to_validated
  current ← read (λ db. db.missions.row id)
  if count == 1 then pure tt else throw (conflict expected current))

-- the handler; `attempts` is what Stripe does, `between` what others commit during the capture
unfoldable pub validate_with :
    CaptureContext → (ℕ → Attempt Done) → (Db → Db) → (user id : ℕ) → Option ℕ → Action Done
unfolding commit_validation
validate_with context attempts between user id expected = do
  mission ← mission_of_buyer id user
  throw_if (is_customs_locked mission.status) (app_error Code.customs_review_pending 409)
  throw_if (not (is_status mission.status MissionStatus.awaiting_validation))
      (app_error Code.mission_not_awaiting_validation 400)
  throw_if (version_differs expected mission.version) (app_error Code.version_conflict 409)
  amount ← capture_for_route attempts between id context
  commit_validation id expected

-- POST /:id/validate
unfoldable pub validate : (ℕ → Attempt Done) → (Db → Db) → (user id : ℕ) → Option ℕ → Action Done
unfolding validate_with
validate = validate_with CaptureContext.validate

-- POST /:id/confirm-receipt
unfoldable pub confirm_receipt :
    (ℕ → Attempt Done) → (Db → Db) → (user id : ℕ) → Option ℕ → Action Done
unfolding validate_with
confirm_receipt = validate_with CaptureContext.receipt
