-- ===== src/Workers/FundingReconciliation/Rollback.antt =====
-- One round of `runFundingReconciliationOnce` of src/workers/funding-reconciliation.ts.
mod Examples
use waylo_app.Base.{
  ℕ, ◌≡◌, ◌⊎◌, refl, sym, ap, subst, ◌∙◌, inl, inr, arith, Bool, true, false, ◌&&◌, Option, none,
  some, List, [], ◌∷◌, ◌++◌, if◌then◌else◌, Bool-cases, Option-cases,
}
use waylo_app.Base.Table.{put, holds}
use waylo_app.Schema.Rows.{Mission, Escrow}
use waylo_app.App.{World, StripeCall, AlertCode, Fault, Result, ok, err, ◌>>=◌, ◌>>◌, pure, catch}
use waylo_app.Workers.FundingReconciliation.{
  FundingRun, FundingOutcome, was_skipped, was_rolled_back, was_not_cancelled, is_abandoned,
  is_funded, is_untouched, is_rolled_back, to_cancelled, to_created, roll_back, release_intent,
  skip_concurrent, reconcile_funding,
}

-- the escrow is cancelled, and its mission is in CREATED
abbrev pub rolled : ℕ → Escrow → Mission → World → World
rolled id e m w = record w {
  db = record w.db {
    escrows = put id (to_cancelled e) w.db.escrows;
    missions = put id (to_created m) w.db.missions;
  };
}

-- Stripe has been asked to cancel the payment intent, and the alerts are sent
abbrev pub released : FundingRun → ℕ → World → Result FundingOutcome × World
released run intent w = (
  ok (if run.cancels intent then was_rolled_back else was_not_cancelled),
  record w {
    calls = w.calls ++ (StripeCall.cancel_abandoned intent ∷ []);
    alerts =
        (if run.cancels intent
          then w.alerts
          else w.alerts ++ (AlertCode.funding_recon_cancel_failed ∷ []))
        ++ (AlertCode.stale_funding_rolled_back ∷ []);
  },
)

release_intent_lem :
    (run : FundingRun) (intent : ℕ) (w : World)
    → release_intent run intent w ≡ released run intent w
unfolding release_intent
release_intent_lem run intent w = elim (Bool-cases (run.cancels intent)) [
  | inl works ↦ ground (arith, works)
  | inr fails ↦ ground (arith, fails)
]

roll_back_both :
    (id : ℕ) (e : Escrow) (m : Mission) (w : World)
    → w.db.escrows.row id ≡ some e
    → is_untouched e ≡ true
    → w.db.missions.row id ≡ some m
    → is_funded m ≡ true
    → roll_back id w ≡ (ok tt, rolled id e m w)
unfolding roll_back
roll_back_both id e m w there held known funded = ground (arith, there, held, known, funded)

roll_back_none :
    (id : ℕ) (w : World)
    → (holds is_untouched (w.db.escrows.row id) && holds is_funded (w.db.missions.row id)) ≡ false
    → roll_back id w ≡ (err Fault.concurrent_change, w)
unfolding roll_back
roll_back_none id w h = elim (Option-cases (w.db.escrows.row id)) [
  | inl gone ↦ ground (arith, gone)
  | inr (e, there) ↦ elim (Bool-cases (is_untouched e)) [
    | inr touched ↦ ground (arith, there, touched)
    | inl held ↦ elim (Option-cases (w.db.missions.row id)) [
      | inl unknown ↦ ground (arith, there, held, unknown)
      | inr (m, known) ↦
          let moved : is_funded m ≡ false = ground (arith, h, there, held, known) in
          ground (arith, there, held, known, moved)
    ]
  ]
]

-- What a round can end with; `u` is the world when Stripe has told the state of the payment intent.
pub data Outcome (run : FundingRun) (id intent : ℕ) (u : World) (r : Result FundingOutcome × World)
    : Type 0 where
  -- Stripe fails, or the buyer has paid or is about to
  kept :
      holds is_abandoned (run.retrieve intent) ≡ false
      → r ≡ (ok was_skipped, u)
      → Outcome run id intent u r
  -- the escrow or the mission has moved on
  overtaken :
      holds is_abandoned (run.retrieve intent) ≡ true
      → (holds is_untouched (u.db.escrows.row id) && holds is_funded (u.db.missions.row id)) ≡ false
      → r ≡ (ok was_skipped, u)
      → Outcome run id intent u r
  -- both are as they were
  undone :
      (e : Escrow) (m : Mission)
      → holds is_abandoned (run.retrieve intent) ≡ true
      → u.db.escrows.row id ≡ some e
      → is_untouched e ≡ true
      → u.db.missions.row id ≡ some m
      → is_funded m ≡ true
      → r ≡ released run intent (rolled id e m u)
      → Outcome run id intent u r

both_rows :
    (id : ℕ) (w : World)
    → (holds is_untouched (w.db.escrows.row id) && holds is_funded (w.db.missions.row id)) ≡ true
    → (e : Escrow) × (m : Mission) × (w.db.escrows.row id ≡ some e)
      × (is_untouched e ≡ true)
      × (w.db.missions.row id ≡ some m)
      × (is_funded m ≡ true)
both_rows id w h = elim (Option-cases (w.db.escrows.row id)) [
  | inl gone ↦ ground (arith, gone, h)
  | inr (e, there) ↦ elim (Option-cases (w.db.missions.row id)) [
    | inl unknown ↦ ground (arith, there, unknown, h)
    | inr (m, known) ↦
        (e, m, there, ground (arith, there, known, h), known, ground (arith, there, known, h))
  ]
]

module _ (run : FundingRun) (id intent : ℕ) (u : World) where
  abbrev after_catch : FundingOutcome → World → Result FundingOutcome × World
  after_catch outcome =
      if is_rolled_back outcome then release_intent run intent else pure was_skipped

  -- what follows when the rollback has ended in `x`
  abbrev after_rollback : Result (Unit {0}) × World → Result FundingOutcome × World
  after_rollback x =
      (catch ((λ (v : World). x) >> pure was_rolled_back) skip_concurrent >>= after_catch) u

  abbrev decided : Bool → Result FundingOutcome × World
  decided b =
      (if b
          then catch (roll_back id >> pure was_rolled_back) skip_concurrent >>= after_catch
          else pure was_skipped)
        u

  decided_outcome : Outcome run id intent u (decided (holds is_abandoned (run.retrieve intent)))
  decided_outcome = elim (Bool-cases (holds is_abandoned (run.retrieve intent))) [
    | inr paid ↦ Outcome.kept paid (ap decided paid)
    | inl abandoned ↦
        elim (Bool-cases
          (holds is_untouched (u.db.escrows.row id) && holds is_funded (u.db.missions.row id))) [
            | inr late ↦
                Outcome.overtaken abandoned late
                  (ap decided abandoned ∙ ap after_rollback (roll_back_none id u late))
            | inl both ↦
                let (e, m, there, held, known, funded) = both_rows id u both in
                Outcome.undone e m abandoned there held known funded (
                  ap decided abandoned
                  ∙ ap after_rollback (roll_back_both id e m u there held known funded)
                  ∙ release_intent_lem run intent (rolled id e m u))
          ]
  ]

-- A round of the reconciliation of abandoned fundings ends in one of three ways, whatever others commit
-- while Stripe answers. Where Stripe fails, or the payment intent is in any state but the two of a
-- payment that was never made, nothing is touched. Where the escrow is not held or has a capture by
-- then, or the mission is not funded any more, nothing is touched either, neither of the two. Else
-- both change together: the escrow is cancelled and the mission goes back to CREATED; then Stripe is
-- asked to cancel the payment intent, and an alert is sent, with one before it where Stripe fails.
pub reconcile_funding_outcome :
    (run : FundingRun) (id intent : ℕ) (w : World)
    → Outcome run id intent
        (record w { db = run.meanwhile id w.db })
        (reconcile_funding run id intent w)
unfolding reconcile_funding
reconcile_funding_outcome run id intent w =
    decided_outcome run id intent (record w { db = run.meanwhile id w.db })
