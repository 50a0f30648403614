-- ===== src/Escrow/Capture.antt =====
-- What a capture asks of Stripe, and when.
use waylo_app.Base.{
  ℕ, ◌≤◌, ◌≡◌, ◌∷◌, [], ◌++◌, ◌⊎◌, inl, inr, some, arith, Option-cases, Bool-cases,
}
use waylo_app.Schema.Status.{EscrowStatus, is_escrow_status, is_escrow_status_iff}
use waylo_app.Schema.Rows.{Mission, Escrow}
use waylo_app.Money.{substitution_hard_cap_cents}
use waylo_app.Money.Bounds.{ceiling-le-hard_cap}
use waylo_app.Watchdog.{Attempt, automate}
use waylo_app.Watchdog.Attempts.{automate-calls_bounded}
use waylo_app.App.{
  Db, World, CaptureContext, capture_intent, AlertCode, Code, Fault, app_error, ok, err, Done,
}
use waylo_app.Escrow.{
  stripe_capture_options, held_budget_cents, capture_amount_cents, repeat_call, run_capture,
  capture_for_route,
}

budget-le-hard_cap : (b : ℕ) → b ≤ substitution_hard_cap_cents b
unfolding substitution_hard_cap_cents
budget-le-hard_cap b = omega arith

-- The backstop at 150% never refuses: what is held is at most 120% of the budget.
held-le-hard_cap : (m : Mission) → held_budget_cents m ≤ substitution_hard_cap_cents m.budget_cents
unfolding held_budget_cents
held-le-hard_cap m =
    ground (arith, ceiling-le-hard_cap m.budget_cents, budget-le-hard_cap m.budget_cents)

-- The escrow of a mission that can be captured: held, and of a mission that exists.
pub record IsCapturable (db : Db) (id : ℕ) (e : Escrow) (m : Mission) : Type 0 where
  pub escrow_row : db.escrows.row id ≡ some e
  pub mission_row : db.missions.row id ≡ some m
  pub is_held : e.status ≡ EscrowStatus.held

module _ (attempts : ℕ → Attempt Done) (between : Db → Db) (id : ℕ) (c : CaptureContext)
    (w : World) where
  -- how often Stripe is called
  abbrev pub capture_calls : ℕ
  capture_calls = (automate stripe_capture_options attempts 0).calls

  -- the world after the calls of Stripe
  abbrev pub after_calls : Escrow → Mission → World
  after_calls e m = record w {
    db = between w.db;
    calls =
        repeat_call capture_calls
          (capture_intent e.stripe_payment_intent_id (capture_amount_cents m) id c) w.calls;
  }

  -- the same, with the alert of a capture that has failed
  abbrev pub after_failure : Escrow → Mission → World
  after_failure e m = record (after_calls e m) {
    alerts = w.alerts ++ (AlertCode.capture_failed ∷ []);
  }

  capture_calls_bounded : capture_calls ≤ 4
  capture_calls_bounded = automate-calls_bounded stripe_capture_options attempts 0

  capture_result :
      (e : Escrow) (m : Mission)
      → IsCapturable w.db id e m
      → (capture_for_route attempts between id c w
          ≡ (err (app_error Code.escrow_capture_failed 502), after_failure e m))
        ⊎ (capture_for_route attempts between id c w
            ≡ (ok (capture_amount_cents m), after_calls e m))
  unfolding capture_for_route run_capture
  capture_result e m h =
      ground (arith, held-le-hard_cap m, is_escrow_status_iff e.status EscrowStatus.held)

  -- To split on what a capture does.
  pub capture_cases :
      ((f : Fault) × (capture_for_route attempts between id c w ≡ (err f, w)))
      ⊎ ((e : Escrow) × (m : Mission) × IsCapturable w.db id e m
          × ((capture_for_route attempts between id c w
                ≡ (err (app_error Code.escrow_capture_failed 502), after_failure e m))
              ⊎ (capture_for_route attempts between id c w
                  ≡ (ok (capture_amount_cents m), after_calls e m))))
  unfolding capture_for_route
  capture_cases = elim (Option-cases (w.db.escrows.row id)) [
    | inl no_escrow ↦ inl (app_error Code.escrow_not_held 400, ground arith)
    | inr (e, he) ↦ elim (Bool-cases (is_escrow_status e.status EscrowStatus.held)) [
      | inr left ↦ inl (app_error Code.escrow_not_held 400, ground arith)
      | inl is_held ↦ elim (Option-cases (w.db.missions.row id)) [
        | inl no_mission ↦ inl (Fault.unexpected, ground arith)
        | inr (m, hm) ↦
            let h : IsCapturable w.db id e m = record {
              escrow_row = he;
              mission_row = hm;
              is_held = (is_escrow_status_iff e.status EscrowStatus.held).0 is_held;
            } in
            inr (e, m, h, capture_result e m h)
      ]
    ]
  ]

  -- The capture of a mission that has no held escrow throws and changes nothing: Stripe is not
  -- called, nothing is written and no alert is sent.
  capture_refused :
      ((e : Escrow) (m : Mission) → ¬ IsCapturable w.db id e m)
      → (f : Fault) × (capture_for_route attempts between id c w ≡ (err f, w))
  capture_refused h = elim capture_cases [
    | inl refused ↦ refused
    | inr (e, m, can, _) ↦ absurd (h e m can)
  ]

  -- Where the escrow is held, Stripe is called at most four times, each time with the amount and
  -- the key of this mission, and then either the amount is returned, or the alert CAPTURE_FAILED is
  -- sent and the error 502 thrown. The database is as others have left it.
  pub capture_runs :
      (e : Escrow) (m : Mission)
      → IsCapturable w.db id e m
      → (capture_calls ≤ 4)
        × ((capture_for_route attempts between id c w
              ≡ (err (app_error Code.escrow_capture_failed 502), after_failure e m))
            ⊎ (capture_for_route attempts between id c w
                ≡ (ok (capture_amount_cents m), after_calls e m)))
  capture_runs e m h = (capture_calls_bounded, capture_result e m h)
