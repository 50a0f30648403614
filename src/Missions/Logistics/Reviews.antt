-- ===== src/Missions/Logistics/Reviews.antt =====
-- `/reviews` of src/missions/routes/logistics.route.ts: an author reviews a mission once.
use waylo_app.Base.{
  ℕ, Bool, false, not, ◌&&◌, ◌||◌, Option, some, List, [], ◌∷◌, ◌==◌, if◌then◌else◌, Text,
}
use waylo_app.Schema.Status.{MissionStatus, is_status}
use waylo_app.Schema.Rows.{Mission, Review}
use waylo_app.App.{Code, Result, app_error, Action, Done, ◌>>=◌, ◌>>◌, throw_if, read, or_throw}
use waylo_app.Missions.Access.{MissionRelation, find_mission_for_participant}

-- `@@unique([missionId, authorId])`
abbrev pub has_reviewed : ℕ → ℕ → List Review → Bool
has_reviewed id author [] = false
has_reviewed id author (r ∷ rs) =
    ((r.mission_id == id) && (r.author_id == author)) || has_reviewed id author rs

-- who is reviewed: the buyer reviews the traveler, and the traveler the buyer
abbrev pub review_target : Mission → MissionRelation → Option ℕ
review_target m MissionRelation.buyer = m.traveler_id
review_target m MissionRelation.traveler = some m.buyer_id

abbrev pub is_terminal : Mission → Bool
is_terminal m =
    is_status m.status MissionStatus.released || is_status m.status MissionStatus.cancelled

-- `review.create`, where a unique violation is REVIEW_ALREADY_SUBMITTED
unfoldable pub create_review : (id author target rating : ℕ) → Option Text → Action Done
create_review id author target rating comment w =
    if has_reviewed id author w.db.reviews
    then (Result.err (app_error Code.review_already_submitted 409), w)
    else (
      Result.ok tt,
      record w {
        db = record w.db {
          reviews =
              record {
                mission_id = id;
                author_id = author;
                target_id = target;
                rating = rating;
                comment = comment;
              }
              ∷ w.db.reviews;
        };
      },
    )

-- POST /:id/reviews
unfoldable pub review : (user id rating : ℕ) → Option Text → Action Done
review user id rating comment = do
  found ← read (find_mission_for_participant id user)
  access ← or_throw found (app_error Code.mission_not_found 404)
  throw_if (not (is_terminal access.0)) (app_error Code.mission_not_terminal 400)
  target ← or_throw (review_target access.0 access.1) (app_error Code.no_traveler_assigned 400)
  create_review id user target rating comment
