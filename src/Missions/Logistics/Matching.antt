-- ===== src/Missions/Logistics/Matching.antt =====
-- `/match`, `/accept`, `/start-travel` and `/ship` of src/missions/routes/logistics.route.ts.
use waylo_app.Base.{
  ℕ, ◌+◌, Bool, false, not, ◌&&◌, Option, none, some, ltb, ◌==◌, if◌then◌else◌, is_some, Text,
}
use waylo_app.Schema.Status.{MissionStatus, is_status}
use waylo_app.Schema.Rows.{User, Mission}
use waylo_app.App.{
  Db, Code, Fault, app_error, Action, Done, ◌>>=◌, ◌>>◌, read, or_throw, throw_if, others,
}
use waylo_app.Missions.Access.{mission_of_traveler, is_traveler}
use waylo_app.Missions.Transition.{move}

-- `travelerHasGuaranteeCard`
abbrev pub has_guarantee_card : Option User → Bool
has_guarantee_card none = false
has_guarantee_card (some u) = is_some u.stripe_payment_method_id

-- what a mission that is not FUNDED answers
abbrev pub not_matchable : MissionStatus → Fault
not_matchable s =
    if is_status s MissionStatus.created
    then app_error Code.mission_not_matchable 400
    else app_error Code.mission_already_matched 400

-- `status: FUNDED, travelerId: null`
abbrev pub is_open : Mission → Bool
is_open m = is_status m.status MissionStatus.funded && not (is_some m.traveler_id)

abbrev pub to_matched : ℕ → Mission → Mission
to_matched user m = record m { traveler_id = some user; status = MissionStatus.matched }

-- POST /:id/match and POST /:id/accept; others commit between the checks and the update
unfoldable pub match_mission : (Db → Db) → (user id : ℕ) → Action Done
unfolding move
match_mission between user id = do
  mission ←
      (read (λ db. db.missions.row id) >>= λ o. or_throw o (app_error Code.mission_not_found 404))
  throw_if (mission.buyer_id == user) (app_error Code.cannot_match_own_mission 400)
  throw_if (not (is_status mission.status MissionStatus.funded)) (not_matchable mission.status)
  card ← read (λ db. db.users user)
  throw_if (not (has_guarantee_card card)) (app_error Code.traveler_card_missing 400)
  others between
  move id is_open (to_matched user) (app_error Code.mission_already_matched 400)

-- `travelerId: req.user.sub, status: MATCHED`
abbrev pub is_matched_by : ℕ → Mission → Bool
is_matched_by user m = is_traveler m user && is_status m.status MissionStatus.matched

abbrev pub to_travelling : Mission → Mission
to_travelling m = record m { status = MissionStatus.in_progress }

-- POST /:id/start-travel
unfoldable pub start_travel : (Db → Db) → (user id : ℕ) → Action Done
unfolding move
start_travel between user id = do
  mission ← mission_of_traveler id user
  others between
  move id (is_matched_by user) to_travelling (app_error Code.mission_not_matched 400)

-- 72 hours after `now`
abbrev pub auto_refund_at : ℕ → ℕ
auto_refund_at now = now + 259_200_000

abbrev pub to_shipped : (now purchase : ℕ) → (tracking hash : Text) → Mission → Mission
to_shipped now purchase tracking hash m = record m {
  status = MissionStatus.in_progress;
  tracking_reference = some tracking;
  purchase_amount_cents = some purchase;
  inner_qr_code_hash = some hash;
  auto_refund_deadline = some (auto_refund_at now);
}

-- POST /:id/ship; `hash` is the sha256 of the random code of the seal
unfoldable pub ship : (Db → Db) → (now user id purchase : ℕ) → (tracking hash : Text) → Action Done
unfolding move
ship between now user id purchase tracking hash = do
  mission ← mission_of_traveler id user
  throw_if (not (is_status mission.status MissionStatus.matched))
      (app_error Code.mission_not_matched 400)
  throw_if (ltb mission.budget_cents purchase) (app_error Code.receipt_amount_exceeds_budget 400)
  others between
  move id (is_matched_by user) (to_shipped now purchase tracking hash)
      (app_error Code.mission_not_matched 400)
