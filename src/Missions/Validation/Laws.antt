-- ===== src/Missions/Validation/Laws.antt =====
-- What a validation does, on every branch and whatever other requests commit meanwhile.
use waylo_app.Base.{
  ℕ, ◌≡◌, ◌⊎◌, inl, inr, ap, ◌∙◌, true, false, Option, some, arith, Option-cases, Bool-cases,
}
use mathlib.Core.Path.{subst}
use waylo_app.Base.Table.{put, same_row}
use waylo_app.Schema.Status.{MissionStatus, is_status, is_status_iff}
use waylo_app.Schema.Rows.{Mission, Escrow}
use waylo_app.Watchdog.{Attempt}
use waylo_app.App.{Db, World, CaptureContext, Code, Fault, app_error, ok, err, Result, Done}
use waylo_app.Escrow.{capture_amount_cents, capture_for_route}
use waylo_app.Escrow.Capture.{IsCapturable, after_calls, after_failure, capture_cases}
use waylo_app.Missions.Access.{
  find_mission_for_buyer, find_mission_for_buyer_sound, find_mission_for_buyer_complete,
}
use waylo_app.Missions.Validation.Defs.{
  version_differs, is_customs_locked, awaits_validation, to_validated, commit_validation,
  validate_with,
}

not_locked :
    (s : MissionStatus) → s ≡ MissionStatus.awaiting_validation → is_customs_locked s ≡ false
unfolding is_status
not_locked s h = ground arith

-- The mission that a request to validate may act on.
pub record MayValidate (db : Db) (user id : ℕ) (expected : Option ℕ) (m : Mission) : Type 0 where
  pub row : db.missions.row id ≡ some m
  pub by_buyer : m.buyer_id ≡ user
  pub awaits : m.status ≡ MissionStatus.awaiting_validation
  pub version_agrees : version_differs expected m.version ≡ false

module _ (context : CaptureContext) (attempts : ℕ → Attempt Done) (between : Db → Db) (user id : ℕ)
    (expected : Option ℕ) (w : World) where
  abbrev commit_world : World → Mission → World
  commit_world v cur = record v {
    db = record v.db { missions = put id (to_validated cur) v.db.missions };
  }

  commit_cases :
      (v : World)
      → ((f : Fault) × (commit_validation id expected v ≡ (err f, v)))
        ⊎ ((cur : Mission) × (v.db.missions.row id ≡ some cur)
            × (awaits_validation expected cur ≡ true)
            × (commit_validation id expected v ≡ (ok tt, commit_world v cur)))
  unfolding commit_validation
  commit_cases v = elim (Option-cases (v.db.missions.row id)) [
    | inl gone ↦ inl (app_error Code.mission_not_awaiting_validation 400, ground arith)
    | inr (cur, hc) ↦ elim (Bool-cases (awaits_validation expected cur)) [
      | inl still ↦ inr (cur, hc, still, ground arith)
      | inr lost ↦ elim (Bool-cases (version_differs expected cur.version)) [
        | inl newer ↦ inl (app_error Code.version_conflict 409, ground arith)
        | inr same ↦ inl (app_error Code.mission_not_awaiting_validation 400, ground arith)
      ]
    ]
  ]

  -- the guards that stand before the capture
  guard_cases :
      ((f : Fault) × (validate_with context attempts between user id expected w ≡ (err f, w)))
      ⊎ ((m : Mission) × MayValidate w.db user id expected m)
  unfolding validate_with
  guard_cases = elim (Option-cases (find_mission_for_buyer id user w.db)) [
    | inl hidden ↦ inl (app_error Code.mission_not_found 404, ground arith)
    | inr (m, hm) ↦ elim (Bool-cases (is_customs_locked m.status)) [
      | inl locked ↦ inl (app_error Code.customs_review_pending 409, ground arith)
      | inr open_ ↦ elim (Bool-cases (is_status m.status MissionStatus.awaiting_validation)) [
        | inr other ↦ inl (app_error Code.mission_not_awaiting_validation 400, ground arith)
        | inl awaits ↦ elim (Bool-cases (version_differs expected m.version)) [
          | inl stale ↦ inl (app_error Code.version_conflict 409, ground arith)
          | inr agrees ↦
              let found = find_mission_for_buyer_sound id user w.db hm in
              inr (
                m,
                record {
                  row = found.0;
                  by_buyer = found.1;
                  awaits = (is_status_iff m.status MissionStatus.awaiting_validation).0 awaits;
                  version_agrees = agrees;
                },
              )
        ]
      ]
    ]
  ]

  abbrev then_commit : Result ℕ × World → Result Done × World
  then_commit (ok amount, v) = commit_validation id expected v
  then_commit (err f, v) = (err f, v)

  past_guards :
      (m : Mission)
      → MayValidate w.db user id expected m
      → validate_with context attempts between user id expected w
        ≡ then_commit (capture_for_route attempts between id context w)
  unfolding validate_with
  past_guards m h = ground (
    arith,
    find_mission_for_buyer_complete id user w.db {m = m} h.row h.by_buyer,
    is_status_iff m.status MissionStatus.awaiting_validation,
    not_locked m.status h.awaits,
  )

  -- What the handler can end with, once the guards have passed and the escrow could be captured.
  abbrev pub CapturedOutcome : Escrow → Mission → Type 0
  CapturedOutcome e m =
      let out = validate_with context attempts between user id expected w in
      let after = after_calls attempts between id context w e m in
      (out ≡ (
        err (app_error Code.escrow_capture_failed 502),
        after_failure attempts between id context w e m,
      ))
      ⊎ ((f : Fault) × (out ≡ (err f, after)))
      ⊎ ((cur : Mission) × ((between w.db).missions.row id ≡ some cur)
          × (awaits_validation expected cur ≡ true)
          × (out ≡ (ok tt, commit_world after cur)))

  captured_outcome :
      (m : Mission) (e : Escrow)
      → MayValidate w.db user id expected m
      → (capture_for_route attempts between id context w ≡ (
        err (app_error Code.escrow_capture_failed 502),
        after_failure attempts between id context w e m,
      ))
        ⊎ (capture_for_route attempts between id context w
            ≡ (ok (capture_amount_cents m), after_calls attempts between id context w e m))
      → CapturedOutcome e m
  captured_outcome m e may (inl failed) = inl (past_guards m may ∙ ap then_commit failed)
  captured_outcome m e may (inr done) =
      elim (commit_cases (after_calls attempts between id context w e m)) [
        | inl (f, lost) ↦ inr (inl (f, past_guards m may ∙ ap then_commit done ∙ lost))
        | inr (cur, row, awaits, won) ↦
            inr (inr (cur, row, awaits, past_guards m may ∙ ap then_commit done ∙ won))
      ]

  -- Whatever Stripe does and whatever other requests commit during the capture: either the request
  -- is refused and the world is unchanged; or the mission was the user's own, awaiting validation
  -- at the expected version with a held escrow, and then either the capture has failed and nothing
  -- is written, or the capture has succeeded. In that case nothing is written if the mission has
  -- meanwhile left AWAITING_VALIDATION or the expected version; otherwise it becomes VALIDATED, its
  -- version grows by one, and nothing else changes.
  pub validate_outcome :
      ((f : Fault) × (validate_with context attempts between user id expected w ≡ (err f, w)))
      ⊎ ((m : Mission) × (e : Escrow) × MayValidate w.db user id expected m
          × IsCapturable w.db id e m
          × CapturedOutcome e m)
  validate_outcome = elim guard_cases [
    | inl refused ↦ inl refused
    | inr (m, may) ↦ elim (capture_cases attempts between id context w) [
      | inl (f, refused) ↦ inl (f, past_guards m may ∙ ap then_commit refused)
      | inr (e, m', can, result) ↦
          let may' =
            subst (MayValidate w.db user id expected)
              (same_row w.db.missions may.row can.mission_row) may in
          inr (m', e, may', can, captured_outcome m' e may' result)
    ]
  ]
