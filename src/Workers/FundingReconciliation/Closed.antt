-- ===== src/Workers/FundingReconciliation/Closed.antt =====
-- After a rollback of src/workers/funding-reconciliation.ts: the routes of
-- src/missions/routes/funding.route.ts.
mod Examples
use waylo_app.Base.{
  ℕ, ◌≡◌, ◌⊎◌, refl, sym, ap, subst, ◌∙◌, inl, inr, arith, Bool, true, not, ◌&&◌, Option, none,
  some, Bool-cases,
}
use waylo_app.Base.Table.{holds, row-put_self}
use waylo_app.Schema.Rows.{Mission, Escrow}
use waylo_app.App.{
  Db, World, Fault, Result, err, Action, Done, ◌>>=◌, ◌>>◌, throw_if, app_error, Code, StripeCall,
  >>=-err,
}
use waylo_app.Escrow.{held_budget_cents, capture_amount_cents}
use waylo_app.Missions.Funding.{
  Authorization, capacity_guard, fundable_mission, reserve_and_hold, session_intent, fund_by_intent,
  fund_by_session,
}
use waylo_app.Missions.Funding.Routes.{fundable_cases}
use waylo_app.Workers.FundingReconciliation.{
  FundingRun, FundingOutcome, is_abandoned, is_funded, is_untouched, to_cancelled, to_created,
  reconcile_funding,
}
use waylo_app.Workers.FundingReconciliation.Rollback.{
  Outcome, released, rolled, reconcile_funding_outcome,
}

-- a mission that has an escrow in any state is refused
not_fundable :
    (id user : ℕ) (e : Escrow) (w : World)
    → w.db.escrows.row id ≡ some e
    → (f : Fault) × (fundable_mission id user w ≡ (err f, w))
not_fundable id user e w there = elim (fundable_cases (λ db. db) id w user) [
  | inl refused ↦ refused
  | inr (m, found, gone, ready, rest) ↦ ground (arith, there, gone)
]

-- both routes refuse the mission, and change nothing
abbrev pub IsClosed : ℕ → World → Type 0
IsClosed id w =
    (locked during : Db → Db) (user : ℕ) (declared : Authorization)
    → ((answer : Option ℕ)
        → (f : Fault) × (fund_by_intent locked during id user declared answer w ≡ (err f, w)))
      × ((available : Bool) (answer : Option (Option ℕ))
          → (f : Fault) × (fund_by_session locked during id user declared available answer w
              ≡ (err f, w)))

escrow_closes : (id : ℕ) (e : Escrow) (w : World) → w.db.escrows.row id ≡ some e → IsClosed id w
unfolding fund_by_intent fund_by_session
escrow_closes id e w there locked during user declared =
    let (f, h) = not_fundable id user e w there in
    (
      λ answer. (f, >>=-err (fundable_mission id user) (λ m. by_intent m answer) h),
      λ available answer.
          (f, >>=-err (fundable_mission id user) (λ m. by_session available m answer) h),
    )
  where
    by_intent : Mission → Option ℕ → Action Done
    by_intent m answer =
        capacity_guard locked id declared m
        >> reserve_and_hold during id (held_budget_cents m)
            (StripeCall.create_intent id (capture_amount_cents m)) answer

    by_session : Bool → Mission → Option (Option ℕ) → Action Done
    by_session available m answer =
        throw_if (not available) (app_error Code.checkout_unavailable 500)
        >> (capacity_guard locked id declared m
            >> reserve_and_hold during id (held_budget_cents m)
                (StripeCall.create_session id (capture_amount_cents m)) (session_intent answer))

-- After a round that has rolled an abandoned funding back, the mission is in CREATED, and every call of
-- the two routes that fund a mission is refused and changes nothing, whoever makes it: the escrow that
-- was cancelled is still the escrow of the mission.
reconcile_funding-IsClosed :
    (run : FundingRun) (id intent : ℕ) (e : Escrow) (m : Mission) (w : World)
    → holds is_abandoned (run.retrieve intent) ≡ true
    → (run.meanwhile id w.db).escrows.row id ≡ some e
    → is_untouched e ≡ true
    → (run.meanwhile id w.db).missions.row id ≡ some m
    → is_funded m ≡ true
    → let after = (reconcile_funding run id intent w).1 in
      (after.db.missions.row id ≡ some (to_created m)) × IsClosed id after
reconcile_funding-IsClosed run id intent e m w abandoned there held known funded =
    let u = record w { db = run.meanwhile id w.db } in
    elim (reconcile_funding_outcome run id intent w) [
      | Outcome.kept paid same ↦ ground (arith, abandoned, paid)
      | Outcome.overtaken abandoned_ late same ↦ ground (arith, late, there, held, known, funded)
      | Outcome.undone e_ m_ abandoned_ there_ held_ known_ funded_ same ↦
          let same_m : m_ ≡ m = cc in
          let after = rolled id e_ m_ u in
          let created : after.db.missions.row id ≡ some (to_created m_) =
            row-put_self id (to_created m_) u.db.missions in
          let cancelled : after.db.escrows.row id ≡ some (to_cancelled e_) =
            row-put_self id (to_cancelled e_) u.db.escrows in
          subst
            (λ (p : Result FundingOutcome × World).
              (p.1.db.missions.row id ≡ some (to_created m)) × IsClosed id p.1)
            (sym same)
            (
              created ∙ ap (λ x. some (to_created x)) same_m,
              escrow_closes id (to_cancelled e_) (released run intent after).1 cancelled,
            )
    ]
