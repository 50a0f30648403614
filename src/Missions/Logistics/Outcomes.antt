-- ===== src/Missions/Logistics/Outcomes.antt =====
-- What the routes of src/missions/routes/logistics.route.ts do on every branch.
use waylo_app.Base.{
  ℕ, ◌≡◌, ◌≢◌, ◌⊎◌, inl, inr, true, Option, none, some, ◌==◌, ltb, arith, Text, Option-cases,
  Bool-cases,
}
use waylo_app.Schema.Status.{MissionStatus, DropOffType, is_status}
use waylo_app.Schema.Rows.{Mission}
use waylo_app.App.{Db, World, Code, Fault, app_error, err}
use waylo_app.Missions.Access.{find_mission_for_traveler}
use waylo_app.Missions.Transition.{Outcome, move, move-Outcome}
use waylo_app.Missions.Logistics.Matching.{
  has_guarantee_card, is_open, to_matched, match_mission, is_matched_by, to_travelling,
  start_travel, to_shipped, ship, not_matchable,
}
use waylo_app.Missions.Logistics.Depositing.{
  is_locked_by_customs, to_reviewed, customs_receipt, allows_dropoff, to_deposited, dropoff_receipt,
  is_in_progress, to_dropped, drop_off,
}

-- The mission that a user may take: of another buyer, and funded, with a card as guarantee.
pub record MayMatch (db : Db) (user id : ℕ) (m : Mission) : Type 0 where
  pub row : db.missions.row id ≡ some m
  pub not_own : m.buyer_id ≢ user
  pub funded : is_status m.status MissionStatus.funded ≡ true
  pub card : has_guarantee_card (db.users user) ≡ true

module _ (between : Db → Db) (user id : ℕ) (w : World) where
  abbrev pub later : World
  later = record w { db = between w.db }

  match_guards :
      ((f : Fault) × (match_mission between user id w ≡ (err f, w)))
      ⊎ ((m : Mission) × MayMatch w.db user id m
          × (match_mission between user id w
              ≡ move id is_open
                  (to_matched user)
                  (app_error Code.mission_already_matched 400)
                  later))
  unfolding match_mission
  match_guards = elim (Option-cases (w.db.missions.row id)) [
    | inl gone ↦ inl (app_error Code.mission_not_found 404, ground arith)
    | inr (m, there) ↦ elim (Bool-cases (m.buyer_id == user)) [
      | inl own ↦ inl (app_error Code.cannot_match_own_mission 400, ground arith)
      | inr other ↦ elim (Bool-cases (is_status m.status MissionStatus.funded)) [
        | inr early ↦ inl (not_matchable m.status, ground arith)
        | inl funded ↦ elim (Bool-cases (has_guarantee_card (w.db.users user))) [
          | inr bare ↦ inl (app_error Code.traveler_card_missing 400, ground arith)
          | inl card ↦ inr (
            m,
            record { row = there; not_own = ground arith; funded = funded; card = card },
            ground arith,
          )
        ]
      ]
    ]
  ]

  -- A match is refused by its guards without effect; or the user may take the mission as it was read,
  -- and then either another request has taken it meanwhile and nothing is written, or the mission is
  -- still open, gets this traveler and becomes MATCHED, and nothing else changes.
  pub match_outcome :
      ((f : Fault) × (match_mission between user id w ≡ (err f, w)))
      ⊎ ((m : Mission) × MayMatch w.db user id m
          × Outcome id is_open (to_matched user) w later (match_mission between user id w))
  match_outcome = elim match_guards [
    | inl refused ↦ inl refused
    | inr (m, may, same) ↦ inr (
      m,
      may,
      move-Outcome id is_open (to_matched user) (app_error Code.mission_already_matched 400) w later
          same,
    )
  ]

  pub start_travel-Outcome :
      Outcome id (is_matched_by user) to_travelling w later (start_travel between user id w)
  unfolding start_travel
  start_travel-Outcome = elim (Option-cases (find_mission_for_traveler id user w.db)) [
    | inl hidden ↦ inl (app_error Code.mission_not_found 404, ground arith)
    | inr (m, found) ↦
        move-Outcome id (is_matched_by user) to_travelling (app_error Code.mission_not_matched 400)
          w later (ground (arith, found))
  ]

  pub ship-Outcome :
      (now purchase : ℕ) (tracking hash : Text)
      → Outcome id
          (is_matched_by user)
          (to_shipped now purchase tracking hash)
          w
          later
          (ship between now user id purchase tracking hash w)
  unfolding ship
  ship-Outcome now purchase tracking hash =
      elim (Option-cases (find_mission_for_traveler id user w.db)) [
        | inl hidden ↦ inl (app_error Code.mission_not_found 404, ground arith)
        | inr (m, found) ↦ elim (Bool-cases (is_status m.status MissionStatus.matched)) [
          | inr other ↦ inl (app_error Code.mission_not_matched 400, ground arith)
          | inl matched ↦ elim (Bool-cases (ltb m.budget_cents purchase)) [
            | inl over ↦ inl (app_error Code.receipt_amount_exceeds_budget 400, ground arith)
            | inr within ↦
                move-Outcome id (is_matched_by user) (to_shipped now purchase tracking hash)
                  (app_error Code.mission_not_matched 400) w later
                  (ground (arith, found, matched, within))
          ]
        ]
      ]

  pub customs_receipt-Outcome :
      (url sha256 : Text)
      → Outcome id is_locked_by_customs
          (to_reviewed url sha256)
          w
          later
          (customs_receipt between user id url sha256 w)
  unfolding customs_receipt
  customs_receipt-Outcome url sha256 =
      elim (Option-cases (find_mission_for_traveler id user w.db)) [
        | inl hidden ↦ inl (app_error Code.mission_not_found 404, ground arith)
        | inr (m, found) ↦ elim (Bool-cases (is_locked_by_customs m)) [
          | inr other ↦ inl (app_error Code.mission_not_customs_locked 400, ground arith)
          | inl locked ↦
              move-Outcome id is_locked_by_customs (to_reviewed url sha256)
                (app_error Code.mission_not_customs_locked 400) w later
                (ground (arith, found, locked))
        ]
      ]

  pub drop_off-Outcome :
      (now : ℕ) (type : DropOffType) (carrier tracking : Text) (code : Option Text)
      → Outcome id is_in_progress
          (to_dropped now type carrier tracking code)
          w
          later
          (drop_off between now user id type carrier tracking code w)
  unfolding drop_off
  drop_off-Outcome now type carrier tracking code =
      elim (Option-cases (find_mission_for_traveler id user w.db)) [
        | inl hidden ↦ inl (app_error Code.mission_not_found 404, ground arith)
        | inr (m, found) ↦ elim (Bool-cases (is_in_progress m)) [
          | inr other ↦ inl (app_error Code.mission_not_in_progress 400, ground arith)
          | inl travelling ↦
              move-Outcome id is_in_progress (to_dropped now type carrier tracking code)
                (app_error Code.mission_not_in_progress 400) w later
                (ground (arith, found, travelling))
        ]
      ]

  -- `read_hash` is the seal as it was read
  pub dropoff_receipt-Outcome :
      (now : ℕ) (url : Text) (tracking : Option Text) (hash : Text)
      → (read_hash : Option Text) × Outcome id allows_dropoff
          (to_deposited now url tracking read_hash hash)
          w
          later
          (dropoff_receipt between now user id url tracking hash w)
  unfolding dropoff_receipt
  dropoff_receipt-Outcome now url tracking hash =
      elim (Option-cases (find_mission_for_traveler id user w.db)) [
        | inl hidden ↦ (none, inl (app_error Code.mission_not_found 404, ground arith))
        | inr (m, found) ↦ (
          m.inner_qr_code_hash,
          elim (Bool-cases (allows_dropoff m)) [
            | inr other ↦ inl (app_error Code.invalid_mission_state 400, ground arith)
            | inl allowed ↦
                move-Outcome id allows_dropoff
                  (to_deposited now url tracking m.inner_qr_code_hash hash)
                  (app_error Code.invalid_mission_state 400) w later
                  (ground (arith, found, allowed))
          ],
        )
      ]
