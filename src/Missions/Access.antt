-- ===== src/Missions/Access.antt =====
-- Authorisation by resource: src/missions/mission-access.ts.
use waylo_app.Base.{ℕ, ◌≡◌, ◌≢◌, ◌⊎◌, Bool, false, Option, none, some, ◌==◌, if◌then◌else◌, arith}
use waylo_app.Schema.Rows.{Mission}
use waylo_app.App.{Db, Code, app_error, Action, ◌>>=◌, read, or_throw}

pub data MissionRelation : Type 0 where
  buyer traveler : MissionRelation

-- `mission.travelerId === userId`
abbrev pub is_traveler : Mission → ℕ → Bool
is_traveler m user = elim m.traveler_id [ none ↦ false | some t ↦ t == user ]

relation_of : Mission → ℕ → Option MissionRelation
relation_of m user =
    if m.buyer_id == user
    then some MissionRelation.buyer
    else if is_traveler m user
    then some MissionRelation.traveler
    else none

-- `findMissionForParticipant`
unfoldable pub find_mission_for_participant : ℕ → ℕ → Db → Option (Mission × MissionRelation)
unfolding relation_of
find_mission_for_participant id user db = elim (db.missions.row id) [
  | none ↦ none
  | some m ↦ elim (relation_of m user) [ none ↦ none | some r ↦ some (m, r) ]
]

only_buyer : Option (Mission × MissionRelation) → Option Mission
only_buyer none = none
only_buyer (some (m, MissionRelation.buyer)) = some m
only_buyer (some (m, MissionRelation.traveler)) = none

only_traveler : Option (Mission × MissionRelation) → Option Mission
only_traveler none = none
only_traveler (some (m, MissionRelation.buyer)) = none
only_traveler (some (m, MissionRelation.traveler)) = some m

-- `findMissionForBuyer`
unfoldable pub find_mission_for_buyer : ℕ → ℕ → Db → Option Mission
unfolding only_buyer find_mission_for_participant
find_mission_for_buyer id user db = only_buyer (find_mission_for_participant id user db)

-- `findMissionForTraveler`
unfoldable pub find_mission_for_traveler : ℕ → ℕ → Db → Option Mission
unfolding only_traveler find_mission_for_participant
find_mission_for_traveler id user db = only_traveler (find_mission_for_participant id user db)

-- The mission of a buyer, or the error 404 that hides it from all others.
abbrev pub mission_of_buyer : ℕ → ℕ → Action Mission
mission_of_buyer id user = do
  o ← read (find_mission_for_buyer id user)
  or_throw o (app_error Code.mission_not_found 404)

abbrev pub mission_of_traveler : ℕ → ℕ → Action Mission
mission_of_traveler id user = do
  o ← read (find_mission_for_traveler id user)
  or_throw o (app_error Code.mission_not_found 404)

module _ (id user : ℕ) (db : Db) {m : Mission} where
  -- Only the buyer finds the mission as its buyer, and finds the row of that identifier.
  pub find_mission_for_buyer_sound :
      find_mission_for_buyer id user db ≡ some m
      → (db.missions.row id ≡ some m) × (m.buyer_id ≡ user)
  unfolding find_mission_for_buyer
  find_mission_for_buyer_sound h = ground arith

  -- Only the assigned traveler finds the mission as its traveler.
  pub find_mission_for_traveler_sound :
      find_mission_for_traveler id user db ≡ some m
      → (db.missions.row id ≡ some m) × (m.traveler_id ≡ some user) × (m.buyer_id ≢ user)
  unfolding find_mission_for_traveler
  find_mission_for_traveler_sound h = ground arith

  pub find_mission_for_buyer_complete :
      db.missions.row id ≡ some m → m.buyer_id ≡ user → find_mission_for_buyer id user db ≡ some m
  unfolding find_mission_for_buyer
  find_mission_for_buyer_complete h b = ground arith

-- Only the buyer and the assigned traveler find the mission as participants.
pub find_mission_for_participant_sound :
    (id user : ℕ) (db : Db) {m : Mission} {r : MissionRelation}
    → find_mission_for_participant id user db ≡ some (m, r)
    → (db.missions.row id ≡ some m) × ((m.buyer_id ≡ user) ⊎ (m.traveler_id ≡ some user))
unfolding find_mission_for_participant
find_mission_for_participant_sound id user db h = ground arith
