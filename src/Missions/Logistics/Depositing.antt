-- ===== src/Missions/Logistics/Depositing.antt =====
-- `/customs-receipt`, `/dropoff-receipt` and `/drop-off` of src/missions/routes/logistics.route.ts.
use waylo_app.Base.{ℕ, Bool, not, Option, none, some, [], ◌∷◌, if◌then◌else◌, truthy, Text}
use waylo_app.Schema.Status.{MissionStatus, DropOffType, is_status, status_in}
use waylo_app.Schema.Rows.{Mission}
use waylo_app.App.{Db, Code, app_error, Action, Done, ◌>>=◌, ◌>>◌, throw_if, others}
use waylo_app.Missions.Access.{mission_of_traveler}
use waylo_app.Missions.Transition.{move}

abbrev pub is_locked_by_customs : Mission → Bool
is_locked_by_customs m = is_status m.status MissionStatus.escrow_locked_customs

abbrev pub to_reviewed : (url sha256 : Text) → Mission → Mission
to_reviewed url sha256 m = record m {
  status = MissionStatus.pending_customs_review;
  customs_receipt_url = some url;
  customs_receipt_sha256 = some sha256;
}

-- POST /:id/customs-receipt
unfoldable pub customs_receipt : (Db → Db) → (user id : ℕ) → (url sha256 : Text) → Action Done
unfolding move
customs_receipt between user id url sha256 = do
  mission ← mission_of_traveler id user
  throw_if (not (is_locked_by_customs mission)) (app_error Code.mission_not_customs_locked 400)
  others between
  move id is_locked_by_customs (to_reviewed url sha256)
      (app_error Code.mission_not_customs_locked 400)

-- DROPOFF_ALLOWED_STATUSES
abbrev pub allows_dropoff : Mission → Bool
allows_dropoff m = status_in m.status (MissionStatus.matched ∷ MissionStatus.validated ∷ [])

-- the seal is generated if the mission had none when it was read, and never overwritten otherwise
abbrev pub sealed_hash : Option Text → Text → Option Text → Option Text
sealed_hash read_hash hash stored = if truthy read_hash then stored else some hash

abbrev pub to_deposited : ℕ → Text → Option Text → Option Text → Text → Mission → Mission
to_deposited now url tracking read_hash hash m = record m {
  status = MissionStatus.deposited;
  dropoff_receipt_url = some url;
  dropoff_tracking_number = tracking;
  dropoff_at = some now;
  inner_qr_code_hash = sealed_hash read_hash hash m.inner_qr_code_hash;
}

-- POST /:id/dropoff-receipt; `hash` is the sha256 of a random code
unfoldable pub dropoff_receipt :
    (Db → Db) → (now user id : ℕ) → Text → Option Text → (hash : Text) → Action Done
unfolding move
dropoff_receipt between now user id url tracking hash = do
  mission ← mission_of_traveler id user
  throw_if (not (allows_dropoff mission)) (app_error Code.invalid_mission_state 400)
  others between
  move id allows_dropoff (to_deposited now url tracking mission.inner_qr_code_hash hash)
      (app_error Code.invalid_mission_state 400)

abbrev pub is_in_progress : Mission → Bool
is_in_progress m = is_status m.status MissionStatus.in_progress

-- an access code that is not given leaves the column as it is
abbrev pub to_dropped :
    ℕ → DropOffType → (carrier tracking : Text) → Option Text → Mission → Mission
to_dropped now type carrier tracking code m = record m {
  drop_off_type = some type;
  drop_off_carrier = some carrier;
  drop_off_tracking_id = some tracking;
  drop_off_access_code = elim code [ none ↦ m.drop_off_access_code | some c ↦ some c ];
  dropped_at = some now;
  status = MissionStatus.awaiting_validation;
}

-- POST /:id/drop-off
unfoldable pub drop_off :
    (Db → Db)
    → (now user id : ℕ) → DropOffType
    → (carrier tracking : Text) → Option Text
    → Action Done
unfolding move
drop_off between now user id type carrier tracking code = do
  mission ← mission_of_traveler id user
  throw_if (not (is_in_progress mission)) (app_error Code.mission_not_in_progress 400)
  others between
  move id is_in_progress (to_dropped now type carrier tracking code)
      (app_error Code.mission_not_in_progress 400)
