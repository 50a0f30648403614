-- ===== src/Missions/Capturing.antt =====
-- A capture and the conditional update after it, as the routes of src/missions/routes chain them.
use waylo_app.Base.{ℕ, ◌≡◌, ◌∙◌, ap, ◌⊎◌, inl, inr, Bool, true, some}
use waylo_app.Schema.Rows.{Mission, Escrow}
use waylo_app.Watchdog.{Attempt}
use waylo_app.App.{
  Db, World, CaptureContext, Code, Fault, Result, app_error, ok, err, Action, Done, ◌>>=◌,
}
use waylo_app.Escrow.{capture_for_route}
use waylo_app.Escrow.Capture.{IsCapturable, after_calls, after_failure, capture_cases}
use waylo_app.Missions.Transition.{move, moved, move_cases}

abbrev pub capture_and_move :
    (ℕ → Attempt Done)
    → (Db → Db)
    → ℕ
    → CaptureContext
    → (Mission → Bool)
    → (Mission → Mission)
    → Fault
    → Action Done
capture_and_move attempts between id context test f fault = do
  amount ← capture_for_route attempts between id context
  move id test f fault

module _ (attempts : ℕ → Attempt Done) (between : Db → Db) (id : ℕ) (c : CaptureContext)
    (test : Mission → Bool) (f : Mission → Mission) (fault : Fault) (w : World) where
  -- What is left once the escrow could be captured: the capture fails, or the update is lost to
  -- another request, or the mission that passes the test is changed, and nothing else.
  abbrev pub AfterCapture : Escrow → Mission → Result Done × World → Type 0
  AfterCapture e m result =
      (result ≡ (
        err (app_error Code.escrow_capture_failed 502),
        after_failure attempts between id c w e m,
      ))
      ⊎ (result ≡ (err fault, after_calls attempts between id c w e m))
      ⊎ ((cur : Mission) × ((between w.db).missions.row id ≡ some cur)
          × (test cur ≡ true)
          × (result ≡ (ok tt, moved id (f cur) (after_calls attempts between id c w e m))))

  abbrev then_move : Result ℕ × World → Result Done × World
  then_move p = elim p.0 [ ok a ↦ move id test f fault p.1 | err x ↦ (err x, p.1) ]

  pub capture_and_move_cases :
      {result : Result Done × World}
      → result ≡ capture_and_move attempts between id c test f fault w
      → ((x : Fault) × (result ≡ (err x, w)))
        ⊎ ((e : Escrow) × (m : Mission) × IsCapturable w.db id e m × AfterCapture e m result)
  capture_and_move_cases {result} same = elim (capture_cases attempts between id c w) [
    | inl (x, refused) ↦ inl (x, same ∙ ap then_move refused)
    | inr (e, m, can, inl failed) ↦ inr (e, m, can, inl (same ∙ ap then_move failed))
    | inr (e, m, can, inr done) ↦
        let whole = same ∙ ap then_move done in
        elim (move_cases id test f fault (after_calls attempts between id c w e m)) [
          | inl lost ↦ inr (e, m, can, inr (inl (whole ∙ lost)))
          | inr (cur, there, passes, won) ↦
              inr (e, m, can, inr (inr (cur, there, passes, whole ∙ won)))
        ]
  ]
