-- ===== src/Missions/Admin/Early.antt =====
-- The order of the steps of `/customs-approve` in src/missions/routes/admin.route.ts.
use waylo_app.Base.{ℕ, ◌≡◌, ◌∙◌, ap, inl, inr, true, false, not, some, arith, Bool-cases}
use waylo_app.Schema.Rows.{Mission, Escrow}
use waylo_app.Watchdog.{Attempt}
use waylo_app.App.{
  Db, World, CaptureContext, Code, Fault, Result, app_error, ok, err, Done, throw_if, ◌>>=◌, ◌>>◌,
}
use waylo_app.Escrow.{capture_for_route}
use waylo_app.Escrow.Capture.{IsCapturable, after_calls, capture_runs}
use waylo_app.Missions.Admin.{
  is_request_admin, is_held, awaits_review, commit_approval, customs_approve,
}

module _ (attempts : ℕ → Attempt Done) (between : Db → Db) (user id : ℕ) (w : World)
    (admin : is_request_admin user w.db ≡ true) where
  -- what follows the capture
  abbrev continue : Result ℕ × World → Result Done × World
  continue p = elim p.0 [ ok a ↦ commit_approval user id p.1 | err x ↦ (err x, p.1) ]

  past_admin :
      {p : Result ℕ × World}
      → capture_for_route attempts between id CaptureContext.customs w ≡ p
      → customs_approve attempts between user id w ≡ continue p
  unfolding customs_approve
  past_admin same =
      ap
        (λ b.
          (throw_if (not b) (app_error Code.forbidden 403)
              >> (capture_for_route attempts between id CaptureContext.customs >>= λ amount.
                  commit_approval user id))
            w)
        admin
      ∙ ap continue same

  early_lost :
      (v : World) (cur : Mission)
      → v.db.missions.row id ≡ some cur
      → awaits_review cur ≡ false
      → (f : Fault) × ((commit_approval user id v).0 ≡ err f)
        × ((commit_approval user id v).1.db ≡ v.db)
        × ((commit_approval user id v).1.calls ≡ v.calls)
  unfolding commit_approval
  early_lost v cur there other = elim (Bool-cases (is_held (v.db.escrows.row id))) [
    | inl held ↦ (
      app_error Code.mission_not_customs_review 400,
      ground (arith, held, there, other),
      ground (arith, held, there, other),
      ground (arith, held, there, other),
    )
    | inr left ↦ (
      app_error Code.escrow_invariant_violated 500,
      ground (arith, left),
      ground (arith, left),
      ground (arith, left),
    )
  ]

  -- An administrator who approves a mission that is not in PENDING_CUSTOMS_REVIEW, but whose escrow is
  -- held, is refused with an error that writes nothing; yet Stripe has been asked to capture the funds
  -- before, and has done so unless the error is that of a failed capture.
  pub customs_approve_early :
      (e : Escrow) (m cur : Mission)
      → IsCapturable w.db id e m
      → (between w.db).missions.row id ≡ some cur
      → awaits_review cur ≡ false
      → (f : Fault) × ((customs_approve attempts between user id w).0 ≡ err f)
        × ((customs_approve attempts between user id w).1.db ≡ between w.db)
        × ((customs_approve attempts between user id w).1.calls
            ≡ (after_calls attempts between id CaptureContext.customs w e m).calls)
  customs_approve_early e m cur can there other =
      elim ((capture_runs attempts between id CaptureContext.customs w e m can).1) [
        | inl failed ↦
            let same = past_admin failed in
            (
              app_error Code.escrow_capture_failed 502,
              ap (λ p. p.0) same,
              ap (λ p. p.1.db) same,
              ap (λ p. p.1.calls) same,
            )
        | inr done ↦
            let same = past_admin done in
            let (f, lost, db, calls) =
              early_lost (after_calls attempts between id CaptureContext.customs w e m) cur there
                other in
            (
              f,
              ap (λ p. p.0) same ∙ lost,
              ap (λ p. p.1.db) same ∙ db,
              ap (λ p. p.1.calls) same ∙ calls,
            )
      ]
