-- ===== src/Missions/Admin/Disputing.antt =====
-- POST /:id/dispute of src/missions/routes/admin.route.ts: the buyer disputes a deposited mission.
use waylo_app.Base.{
  ℕ, ◌≡◌, ◌≢◌, ◌⊎◌, inl, inr, refl, ap, ◌∙◌, arith, Bool, true, false, not, Option, none, some,
  Text, [], ◌∷◌, ◌++◌, Bool-cases, Option-cases,
}
use waylo_app.Base.Table.{row-put_self}
use waylo_app.Schema.Status.{MissionStatus, draft, is_status}
use waylo_app.Schema.Rows.{Mission, Dispute, AuditAction}
use waylo_app.App.{
  Db, World, AlertCode, Code, Fault, app_error, ok, err, Action, Done, ◌>>=◌, ◌>>◌, throw_if,
  others, emit, transaction, audit, >>=-ok, >>=-err,
}
use waylo_app.Missions.Access.{mission_of_buyer, find_mission_for_buyer}
use waylo_app.Missions.Transition.{move, moved, interrupted, move_cases}
use waylo_app.Missions.Admin.{audited}
use waylo_app.Disputes.{create_dispute_in_tx, open_dispute_in_tx}
use waylo_app.Disputes.InTx.{with_disputes, create_then_open}

abbrev pub awaits_collection : Mission → Bool
awaits_collection m = is_status m.status MissionStatus.deposited

abbrev pub to_disputed : ℕ → Option Text → Mission → Mission
to_disputed time reason m = record m {
  status = MissionStatus.disputed;
  dispute_reason = reason;
  disputed_at = some time;
}

-- the transaction: the mission, the dispute, and the audit entry
unfoldable pub commit_dispute : (time user id : ℕ) → Option Text → Action Done
unfolding create_dispute_in_tx open_dispute_in_tx
commit_dispute time user id reason = transaction (do
  move id awaits_collection (to_disputed time reason) (app_error Code.invalid_mission_state 400)
  create_dispute_in_tx id user reason
  open_dispute_in_tx time id
  audit (audited user AuditAction.dispute_opened id))

-- the handler
unfoldable pub dispute_mission : (Db → Db) → (time user id : ℕ) → Option Text → Action Done
unfolding commit_dispute
dispute_mission before time user id reason = do
  mission ← mission_of_buyer id user
  throw_if (not (awaits_collection mission)) (app_error Code.invalid_mission_state 400)
  others before
  commit_dispute time user id reason
  emit AlertCode.mission_disputed_by_buyer

-- What has become of a mission that is disputed: it is in DISPUTED, its dispute is there and no longer
-- a draft, its escrow has not been touched, and the alert is out.
pub record IsDisputed (time id : ℕ) (reason : Option Text) (db db' : Db) : Type 0 where
  pub mission : Mission
  pub was : (db.missions.row id ≡ some mission) × (awaits_collection mission ≡ true)
  pub becomes : db'.missions.row id ≡ some (to_disputed time reason mission)
  pub dispute : Dispute
  pub entered : (db'.disputes.row id ≡ some dispute) × (dispute.status ≢ draft)
  pub escrows : db'.escrows ≡ db.escrows
  pub ledger : db'.ledger ≡ db.ledger

module _ (time user id : ℕ) (reason : Option Text) where
  abbrev moving : Action Done
  moving =
      move id awaits_collection (to_disputed time reason) (app_error Code.invalid_mission_state 400)

  abbrev note_it : Action Done
  note_it = audit (audited user AuditAction.dispute_opened id)

  abbrev enter : Action Done
  enter = create_dispute_in_tx id user reason >> (open_dispute_in_tx time id >> note_it)

  -- The transaction is refused and changes nothing, or disputes the mission.
  commit_dispute_cases :
      (v : World)
      → ((f : Fault) × (commit_dispute time user id reason v ≡ (err f, v)))
        ⊎ ((w' : World) × (commit_dispute time user id reason v ≡ (ok tt, w'))
            × (w'.alerts ≡ v.alerts)
            × IsDisputed time id reason v.db w'.db)
  unfolding commit_dispute
  commit_dispute_cases v =
      elim (move_cases id awaits_collection (to_disputed time reason)
        (app_error Code.invalid_mission_state 400) v) [
          | inl lost ↦ inl (
            app_error Code.invalid_mission_state 400,
            ap (λ m. transaction (λ u. m) v) (>>=-err moving (λ x. enter) lost),
          )
          | inr (cur, there, passes, won) ↦
              let v1 = moved id (to_disputed time reason cur) v in
              let (d, t0, t, created, opens, row, not_draft) =
                create_then_open time user id reason v1 in
              inr (
                _,
                ap (λ m. transaction (λ u. m) v)
                    (>>=-ok moving (λ x. enter) {w = v} {w' = v1} won
                      ∙ >>=-ok (create_dispute_in_tx id user reason)
                          (λ x. open_dispute_in_tx time id >> note_it) {w = v1}
                          {w' = with_disputes t0 v1} created
                      ∙ >>=-ok (open_dispute_in_tx time id) (λ x. note_it) {w = with_disputes t0 v1}
                          {w' = with_disputes t v1} opens),
                refl,
                record {
                  mission = cur;
                  was = (there, passes);
                  becomes = row-put_self id (to_disputed time reason cur) v.db.missions;
                  dispute = d;
                  entered = (row, not_draft);
                  escrows = refl;
                  ledger = refl;
                },
              )
        ]

module _ (before : Db → Db) (time user id : ℕ) (reason : Option Text) (w : World) where
  abbrev alarm : Done → Action Done
  alarm x = emit AlertCode.mission_disputed_by_buyer

  dispute_hidden :
      find_mission_for_buyer id user w.db ≡ none
      → dispute_mission before time user id reason w
        ≡ (err (app_error Code.mission_not_found 404), w)
  unfolding dispute_mission
  dispute_hidden hidden = ground (arith, hidden)

  module _ (m : Mission) (found : find_mission_for_buyer id user w.db ≡ some m) where
    dispute_undeposited :
        awaits_collection m ≡ false
        → dispute_mission before time user id reason w
          ≡ (err (app_error Code.invalid_mission_state 400), w)
    unfolding dispute_mission
    dispute_undeposited no_ = ground (arith, found, no_)

    dispute_guarded :
        awaits_collection m ≡ true
        → dispute_mission before time user id reason w
          ≡ (commit_dispute time user id reason >> emit AlertCode.mission_disputed_by_buyer)
              (interrupted before w)
    unfolding dispute_mission
    dispute_guarded yes_ = ground (arith, found, yes_)

  -- A dispute of the buyer is refused, before or after others have committed, and then nothing is
  -- written; or the mission, which was deposited, is in DISPUTED, its dispute is there and not a draft,
  -- its escrow and the ledger are as they were, and the alert is out.
  pub dispute_mission_outcome :
      ((f : Fault) × ((dispute_mission before time user id reason w ≡ (err f, w))
          ⊎ (dispute_mission before time user id reason w ≡ (err f, interrupted before w))))
      ⊎ ((w' : World) × (dispute_mission before time user id reason w ≡ (ok tt, w'))
          × (w'.alerts ≡ w.alerts ++ (AlertCode.mission_disputed_by_buyer ∷ []))
          × IsDisputed time id reason (before w.db) w'.db)
  dispute_mission_outcome = elim (Option-cases (find_mission_for_buyer id user w.db)) [
    | inl hidden ↦ inl (app_error Code.mission_not_found 404, inl (dispute_hidden hidden))
    | inr (m, found) ↦ elim (Bool-cases (awaits_collection m)) [
      | inr no_ ↦
          inl (app_error Code.invalid_mission_state 400, inl (dispute_undeposited m found no_))
      | inl yes_ ↦ elim (commit_dispute_cases time user id reason (interrupted before w)) [
        | inl (f, refused) ↦ inl (
          f,
          inr (
              dispute_guarded m found yes_
              ∙ >>=-err (commit_dispute time user id reason) alarm refused),
        )
        | inr (w', done, quiet, is) ↦ inr (
          record w' { alerts = w'.alerts ++ (AlertCode.mission_disputed_by_buyer ∷ []) },
          dispute_guarded m found yes_ ∙ >>=-ok (commit_dispute time user id reason) alarm done,
          ap (λ a. a ++ (AlertCode.mission_disputed_by_buyer ∷ [])) quiet,
          is,
        )
      ]
    ]
  ]
