-- ===== src/Missions/Logistics/Collection.antt =====
-- What `/confirm-collection` of src/missions/routes/logistics.route.ts does on every branch.
use waylo_app.Base.{
  ℕ, refl, ◌≡◌, ◌∙◌, ap, ◌⊎◌, inl, inr, some, none, Text, arith, Option-cases, Bool-cases,
}
use waylo_app.Schema.Status.{MissionStatus, is_status_iff}
use waylo_app.Schema.Rows.{Mission, Escrow}
use waylo_app.Watchdog.{Attempt}
use waylo_app.App.{Db, World, CaptureContext, Code, Fault, Result, app_error, ok, err, Done}
use waylo_app.Escrow.Capture.{IsCapturable}
use waylo_app.Missions.Access.{find_mission_for_buyer, find_mission_for_buyer_sound}
use waylo_app.Missions.Capturing.{AfterCapture, capture_and_move, capture_and_move_cases}
use waylo_app.Missions.Logistics.Receiving.{
  Crypto, is_deposited, collection_found, confirm_collection, to_collected,
}
use waylo_app.Missions.Logistics.Reception.{HoldsSeal, seal_cases}

module _ (attempts : ℕ → Attempt Done) (between : Db → Db) (crypto : Crypto) (user id : ℕ)
    (raw : Text) (w : World) where
  abbrev pub lost_collection : Fault
  lost_collection = app_error Code.invalid_mission_state 400

  collection_hidden :
      find_mission_for_buyer id user w.db ≡ none
      → confirm_collection attempts between crypto user id raw w
        ≡ (err (app_error Code.mission_not_found 404), w)
  unfolding confirm_collection
  collection_hidden hidden = ground (arith, hidden)

  collection_visible :
      (m : Mission)
      → find_mission_for_buyer id user w.db ≡ some m
      → confirm_collection attempts between crypto user id raw w
        ≡ collection_found attempts between crypto id raw m w
  unfolding confirm_collection
  collection_visible m found = ground (arith, found)

  abbrev takes : Result Done × World → Result Done × World
  takes p = elim p.0 [
    | ok a ↦
        capture_and_move attempts between id CaptureContext.collection is_deposited to_collected
          lost_collection p.1
    | err e ↦ (err e, p.1)
  ]

  found_guarded :
      (m : Mission)
      → m.buyer_id ≡ user
      → w.db.missions.row id ≡ some m
      → ((f : Fault) × (collection_found attempts between crypto id raw m w ≡ (err f, w)))
        ⊎ (HoldsSeal crypto w.db user id raw MissionStatus.deposited m
            × (collection_found attempts between crypto id raw m w
                ≡ capture_and_move attempts between id CaptureContext.collection is_deposited
                    to_collected lost_collection w))
  unfolding collection_found
  found_guarded m own row = elim (Bool-cases (is_deposited m)) [
    | inr other ↦ inl (lost_collection, rw other refl)
    | inl there ↦ elim (seal_cases crypto raw m.inner_qr_code_hash w) [
      | inl (f, refused) ↦ inl (f, rw there (ap takes refused))
      | inr (sealed, matches, opens) ↦ inr (
        record {
          row = row;
          by_buyer = own;
          state = (is_status_iff m.status MissionStatus.deposited).0 there;
          sealed = sealed;
          matches = matches;
        },
        rw there (ap takes opens),
      )
    ]
  ]

  -- The confirmation of a collection is refused without any effect; or the user is the buyer of a
  -- deposited mission with a held escrow and holds the seal of its parcel. Then the capture fails and
  -- nothing is written; or it succeeds, and the mission becomes VALIDATED, unless it has left
  -- DEPOSITED meanwhile, which is an error that writes nothing.
  collection_outcome :
      ((f : Fault) × (confirm_collection attempts between crypto user id raw w ≡ (err f, w)))
      ⊎ ((m : Mission) × HoldsSeal crypto w.db user id raw MissionStatus.deposited m
          × ((e : Escrow) × (m' : Mission) × IsCapturable w.db id e m'
              × AfterCapture attempts between id CaptureContext.collection is_deposited to_collected
                  lost_collection w e m'
                  (confirm_collection attempts between crypto user id raw w)))
  collection_outcome = elim (Option-cases (find_mission_for_buyer id user w.db)) [
    | inl hidden ↦ inl (app_error Code.mission_not_found 404, collection_hidden hidden)
    | inr (m, found) ↦
        let sound = find_mission_for_buyer_sound id user w.db found in
        elim (found_guarded m sound.1 sound.0) [
          | inl (f, refused) ↦ inl (f, collection_visible m found ∙ refused)
          | inr (holds, past) ↦
              elim (capture_and_move_cases attempts between id CaptureContext.collection
                is_deposited to_collected lost_collection w (collection_visible m found ∙ past)) [
                  | inl refused ↦ inl refused
                  | inr (e, m', can, after) ↦ inr (m, holds, (e, m', can, after))
                ]
        ]
  ]
