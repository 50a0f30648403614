-- ===== src/Missions/Logistics/Receiving.antt =====
-- `/receive` and `/confirm-collection` of src/missions/routes/logistics.route.ts, with the seal of
-- src/missions/qr-proof.ts and the thresholds of src/missions/customs.ts.
use waylo_app.Base.{
  ℕ, ◌*◌, Bool, true, false, not, ◌&&◌, Option, some, List, [], ltb, ◌==◌, if◌then◌else◌, get_or,
  Text, text_eq, truthy, length,
}
use waylo_app.Schema.Status.{MissionStatus, is_status}
use waylo_app.Schema.Rows.{Mission}
use waylo_app.Watchdog.{Attempt}
use waylo_app.App.{Db, CaptureContext, Code, app_error, Action, Done, ◌>>=◌, ◌>>◌, throw_if, others}
use waylo_app.Escrow.{capture_for_route}
use waylo_app.Missions.Access.{mission_of_buyer}
use waylo_app.Missions.Transition.{move}
use waylo_app.Missions.Customs.{get_customs_threshold}
use waylo_app.Missions.Logistics.Depositing.{is_in_progress}

-- node:crypto and Buffer: the sha256 of a text in hexadecimal, and the bytes of a hexadecimal text
pub record Crypto : Type 0 where
  pub sha256_hex : Text → Text
  pub from_hex : Text → List ℕ

-- `qrCodeMatches`
unfoldable pub qr_code_matches : Crypto → (raw stored_hash : Text) → Bool
qr_code_matches crypto raw stored_hash =
    let submitted = crypto.from_hex (crypto.sha256_hex raw) in
    let stored = crypto.from_hex stored_hash in
    if not (length stored == length submitted) then false else text_eq submitted stored

-- `verifyInnerSeal`
unfoldable pub verify_inner_seal : Crypto → Text → Option Text → Action Done
verify_inner_seal crypto raw stored = do
  throw_if (not (truthy stored)) (app_error Code.no_inner_seal 400)
  throw_if (not (qr_code_matches crypto raw (get_or stored [])))
      (app_error Code.invalid_qr_proof 400)

-- the value is above the threshold of the destination, and no receipt proves that taxes are paid
unfoldable pub needs_customs : Mission → Bool
needs_customs m =
    truthy m.destination_country
    && not (truthy m.customs_receipt_url)
    && ltb (get_customs_threshold (get_or m.destination_country []) * 100)
        (get_or m.purchase_amount_cents m.budget_cents)

abbrev pub to_locked : Mission → Mission
to_locked m = record m { status = MissionStatus.escrow_locked_customs }

abbrev pub to_received : Text → Mission → Mission
to_received signature m = record m {
  status = MissionStatus.validated;
  sale_signature = some signature;
}

-- the capture and the transition after it
unfoldable pub capture_and_receive :
    (ℕ → Attempt Done) → (Db → Db) → ℕ → (Mission → Text) → Mission → Action Done
unfolding move
capture_and_receive attempts between id sign mission = do
  amount ← capture_for_route attempts between id CaptureContext.receive
  move id is_in_progress (to_received (sign mission)) (app_error Code.mission_not_in_progress 400)

unfoldable pub lock_for_customs : (Db → Db) → ℕ → Action Done
unfolding move
lock_for_customs between id = do
  others between
  move id is_in_progress to_locked (app_error Code.mission_not_in_progress 400)

abbrev pub lock_or_capture : Bool → Action Done → Action Done → Action Done
lock_or_capture true lock take = lock
lock_or_capture false lock take = take

-- the checks on the mission of the buyer, and what follows them
unfoldable pub receive_found :
    (ℕ → Attempt Done)
    → (Db → Db)
    → Crypto
    → (id : ℕ) → Text
    → (Mission → Text)
    → Mission
    → Action Done
unfolding verify_inner_seal lock_for_customs capture_and_receive needs_customs
receive_found attempts between crypto id raw sign mission = do
  throw_if (not (is_in_progress mission)) (app_error Code.mission_not_in_progress 400)
  verify_inner_seal crypto raw mission.inner_qr_code_hash
  lock_or_capture (needs_customs mission) (lock_for_customs between id)
      (capture_and_receive attempts between id sign mission)

-- POST /:id/receive; `sign` is the signature of the certificate of sale, which is a sha256
unfoldable pub receive :
    (ℕ → Attempt Done) → (Db → Db) → Crypto → (user id : ℕ) → Text → (Mission → Text) → Action Done
receive attempts between crypto user id raw sign = do
  mission ← mission_of_buyer id user
  receive_found attempts between crypto id raw sign mission

abbrev pub is_deposited : Mission → Bool
is_deposited m = is_status m.status MissionStatus.deposited

abbrev pub to_collected : Mission → Mission
to_collected m = record m { status = MissionStatus.validated }

-- the checks on the mission of the buyer, the capture and the transition
unfoldable pub collection_found :
    (ℕ → Attempt Done) → (Db → Db) → Crypto → (id : ℕ) → Text → Mission → Action Done
unfolding verify_inner_seal move
collection_found attempts between crypto id raw mission = do
  throw_if (not (is_deposited mission)) (app_error Code.invalid_mission_state 400)
  verify_inner_seal crypto raw mission.inner_qr_code_hash
  amount ← capture_for_route attempts between id CaptureContext.collection
  move id is_deposited to_collected (app_error Code.invalid_mission_state 400)

-- POST /:id/confirm-collection
unfoldable pub confirm_collection :
    (ℕ → Attempt Done) → (Db → Db) → Crypto → (user id : ℕ) → Text → Action Done
confirm_collection attempts between crypto user id raw = do
  mission ← mission_of_buyer id user
  collection_found attempts between crypto id raw mission
