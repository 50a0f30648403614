-- ===== src/Missions/Logistics/Rating.antt =====
-- How often `/reviews` of src/missions/routes/logistics.route.ts lets an author review a mission.
use waylo_app.Base.{ℕ, ◌≡◌, inl, inr, true, Option, Text, arith, Bool-cases, Option-cases}
use waylo_app.App.{World, Code, Fault, app_error, ok, err}
use waylo_app.Missions.Access.{find_mission_for_participant}
use waylo_app.Missions.Logistics.Reviews.{
  has_reviewed, review_target, is_terminal, create_review, review,
}

recorded :
    (user id rating : ℕ) (comment : Option Text) (w : World)
    → (review user id rating comment w).0 ≡ ok tt
    → has_reviewed id user ((review user id rating comment w).1.db.reviews) ≡ true
unfolding review create_review
recorded user id rating comment w done = ground (arith, done)

refused :
    (user id rating : ℕ) (comment : Option Text) (w : World)
    → has_reviewed id user w.db.reviews ≡ true
    → (f : Fault) × (review user id rating comment w ≡ (err f, w))
unfolding review create_review
refused user id rating comment w seen =
    elim (Option-cases (find_mission_for_participant id user w.db)) [
      | inl hidden ↦ (app_error Code.mission_not_found 404, ground (arith, hidden))
      | inr ((m, relation), found) ↦ elim (Bool-cases (is_terminal m)) [
        | inr early ↦ (app_error Code.mission_not_terminal 400, ground (arith, found, early))
        | inl over ↦ elim (Option-cases (review_target m relation)) [
          | inl alone ↦
              (app_error Code.no_traveler_assigned 400, ground (arith, found, over, alone))
          | inr (t, target) ↦ (
            app_error Code.review_already_submitted 409,
            ground (arith, found, over, target, seen),
          )
        ]
      ]
    ]

-- Once an author has reviewed a mission, every further review of it by the same author, whatever it
-- says, is refused without any effect.
review_once :
    (user id rating again : ℕ) (comment remark : Option Text) (w : World)
    → (review user id rating comment w).0 ≡ ok tt
    → let after = (review user id rating comment w).1 in
      (f : Fault) × (review user id again remark after ≡ (err f, after))
review_once user id rating again comment remark w done =
    refused user id again remark ((review user id rating comment w).1)
      (recorded user id rating comment w done)
