-- ===== src/Missions/Logistics/Reception.antt =====
-- What `/receive` and `/confirm-collection` of src/missions/routes/logistics.route.ts ask for before
-- any money moves.
use waylo_app.Base.{
  ℕ, refl, ◌≡◌, ◌∙◌, ap, ◌⊎◌, inl, inr, true, false, Option, none, some, [], get_or, arith, Text,
  truthy, Option-cases, Bool-cases,
}
use waylo_app.Schema.Status.{MissionStatus, is_status_iff}
use waylo_app.Schema.Rows.{Mission, Escrow}
use waylo_app.Escrow.Capture.{IsCapturable}
use waylo_app.Missions.Transition.{Outcome, move-Outcome}
use waylo_app.Missions.Capturing.{AfterCapture, capture_and_move_cases}
use waylo_app.Watchdog.{Attempt}
use waylo_app.App.{Db, World, CaptureContext, Code, Fault, Result, app_error, ok, err, Done}
use waylo_app.Missions.Access.{find_mission_for_buyer, find_mission_for_buyer_sound}
use waylo_app.Missions.Logistics.Depositing.{is_in_progress}
use waylo_app.Missions.Logistics.Receiving.{
  Crypto, qr_code_matches, verify_inner_seal, needs_customs, lock_for_customs, lock_or_capture,
  capture_and_receive, receive_found, receive, to_locked, to_received,
}

-- The buyer holds the code that was sealed inside the parcel of the mission.
pub record HoldsSeal (crypto : Crypto) (db : Db) (user id : ℕ) (raw : Text) (s : MissionStatus)
    (m : Mission) : Type 0 where
  pub row : db.missions.row id ≡ some m
  pub by_buyer : m.buyer_id ≡ user
  pub state : m.status ≡ s
  pub sealed : truthy m.inner_qr_code_hash ≡ true
  pub matches : qr_code_matches crypto raw (get_or m.inner_qr_code_hash []) ≡ true

-- To split on the check of the seal.
pub seal_cases :
    (crypto : Crypto) (raw : Text) (stored : Option Text) (w : World)
    → ((f : Fault) × (verify_inner_seal crypto raw stored w ≡ (err f, w)))
      ⊎ ((truthy stored ≡ true)
          × (qr_code_matches crypto raw (get_or stored []) ≡ true)
          × (verify_inner_seal crypto raw stored w ≡ (ok tt, w)))
unfolding verify_inner_seal
seal_cases crypto raw stored w = elim (Bool-cases (truthy stored)) [
  | inr bare ↦ inl (app_error Code.no_inner_seal 400, rw bare refl)
  | inl sealed ↦ elim (Bool-cases (qr_code_matches crypto raw (get_or stored []))) [
    | inr wrong ↦ inl (app_error Code.invalid_qr_proof 400, rw (sealed, wrong) refl)
    | inl matches ↦ inr (sealed, matches, rw (sealed, matches) refl)
  ]
]

module _ (attempts : ℕ → Attempt Done) (between : Db → Db) (crypto : Crypto) (user id : ℕ)
    (raw : Text) (sign : Mission → Text) (w : World) where
  receive_hidden :
      find_mission_for_buyer id user w.db ≡ none
      → receive attempts between crypto user id raw sign w
        ≡ (err (app_error Code.mission_not_found 404), w)
  unfolding receive
  receive_hidden hidden = ground (arith, hidden)

  receive_visible :
      (m : Mission)
      → find_mission_for_buyer id user w.db ≡ some m
      → receive attempts between crypto user id raw sign w
        ≡ receive_found attempts between crypto id raw sign m w
  unfolding receive
  receive_visible m found = ground (arith, found)

  -- what follows the check of the seal
  abbrev continue : Mission → Result Done × World → Result Done × World
  continue m p = elim p.0 [
    | ok a ↦
        lock_or_capture (needs_customs m) (lock_for_customs between id)
          (capture_and_receive attempts between id sign m) p.1
    | err e ↦ (err e, p.1)
  ]

  found_guarded :
      (m : Mission)
      → ((f : Fault) × (receive_found attempts between crypto id raw sign m w ≡ (err f, w)))
        ⊎ ((is_in_progress m ≡ true)
            × (truthy m.inner_qr_code_hash ≡ true)
            × (qr_code_matches crypto raw (get_or m.inner_qr_code_hash []) ≡ true)
            × (receive_found attempts between crypto id raw sign m w
                ≡ lock_or_capture
                    (needs_customs m)
                    (lock_for_customs between id)
                    (capture_and_receive attempts between id sign m)
                    w))
  unfolding receive_found
  found_guarded m = elim (Bool-cases (is_in_progress m)) [
    | inr other ↦ inl (app_error Code.mission_not_in_progress 400, rw other refl)
    | inl travelling ↦ elim (seal_cases crypto raw m.inner_qr_code_hash w) [
      | inl (f, refused) ↦ inl (f, rw travelling (ap (continue m) refused))
      | inr (sealed, matches, opens) ↦
          inr (travelling, sealed, matches, rw travelling (ap (continue m) opens))
    ]
  ]

  -- A reception is refused without any effect; or the user is the buyer of a mission in progress and
  -- holds its seal, and then the mission is locked for customs without a capture where the declared
  -- value asks for it, and captured otherwise.
  pub receive_guarded :
      ((f : Fault) × (receive attempts between crypto user id raw sign w ≡ (err f, w)))
      ⊎ ((m : Mission) × HoldsSeal crypto w.db user id raw MissionStatus.in_progress m
          × (((needs_customs m ≡ true)
                × (receive attempts between crypto user id raw sign w
                    ≡ lock_for_customs between id w))
              ⊎ ((needs_customs m ≡ false)
                  × (receive attempts between crypto user id raw sign w
                      ≡ capture_and_receive attempts between id sign m w))))
  receive_guarded = elim (Option-cases (find_mission_for_buyer id user w.db)) [
    | inl hidden ↦ inl (app_error Code.mission_not_found 404, receive_hidden hidden)
    | inr (m, found) ↦ elim (found_guarded m) [
      | inl (f, refused) ↦ inl (f, receive_visible m found ∙ refused)
      | inr (travelling, sealed, matches, past) ↦
          let sound = find_mission_for_buyer_sound id user w.db found in
          let state = (is_status_iff m.status MissionStatus.in_progress).0 travelling in
          let whole = receive_visible m found ∙ past in
          let locks = lock_for_customs between id in
          let takes = capture_and_receive attempts between id sign m in
          inr (
            m,
            record {
              row = sound.0;
              by_buyer = sound.1;
              state = state;
              sealed = sealed;
              matches = matches;
            },
            elim (Bool-cases (needs_customs m)) [
              | inl lock ↦ inl (lock, whole ∙ ap (λ b. lock_or_capture b locks takes w) lock)
              | inr free ↦ inr (free, whole ∙ ap (λ b. lock_or_capture b locks takes w) free)
            ],
          )
    ]
  ]

  -- The same with what follows: the lock, or the capture and the transition to VALIDATED, either of
  -- which is lost to a request that has meanwhile taken the mission out of IN_PROGRESS.
  pub receive_outcome :
      let out = receive attempts between crypto user id raw sign w in
      ((f : Fault) × (out ≡ (err f, w)))
      ⊎ ((m : Mission) × HoldsSeal crypto w.db user id raw MissionStatus.in_progress m
          × (((needs_customs m ≡ true)
                × Outcome id is_in_progress to_locked w (record w { db = between w.db }) out)
              ⊎ ((needs_customs m ≡ false)
                  × ((e : Escrow) × (m' : Mission) × IsCapturable w.db id e m'
                      × AfterCapture attempts between id CaptureContext.receive is_in_progress
                          (to_received (sign m))
                          (app_error Code.mission_not_in_progress 400)
                          w
                          e
                          m'
                          out))))
  unfolding lock_for_customs capture_and_receive
  receive_outcome = elim receive_guarded [
    | inl refused ↦ inl refused
    | inr (m, holds, inl (lock, same)) ↦ inr (
      m,
      holds,
      inl (
        lock,
        move-Outcome id is_in_progress to_locked (app_error Code.mission_not_in_progress 400) w
            (record w { db = between w.db }) same,
      ),
    )
    | inr (m, holds, inr (free, same)) ↦
        elim (capture_and_move_cases attempts between id CaptureContext.receive is_in_progress
          (to_received (sign m)) (app_error Code.mission_not_in_progress 400) w same) [
            | inl refused ↦ inl refused
            | inr (e, m', can, after) ↦ inr (m, holds, inr (free, (e, m', can, after)))
          ]
  ]
