-- ===== src/Workers/FundingReconciliation/Recovery.antt =====
-- One round of `runOrphanFundingReconciliationOnce` of src/workers/funding-reconciliation.ts.
mod Examples
use waylo_app.Base.{
  ℕ, ◌≡◌, ◌⊎◌, refl, sym, ap, subst, ◌∙◌, inl, inr, arith, Bool, true, false, not, ◌&&◌, ◌||◌,
  Option, none, some, List, [], ◌∷◌, ◌++◌, if◌then◌else◌, is_some, ◌==◌, Bool-cases, Option-cases,
}
use waylo_app.Base.Table.{put, holds, find_first, Table}
use waylo_app.Schema.Rows.{Mission, Escrow}
use waylo_app.App.{World, AlertCode, Fault, Result, Action, ok, err, ◌>>=◌, ◌>>◌, pure, catch}
use waylo_app.Workers.FundingReconciliation.{
  FundingRun, IntentStatus, canceled, requires_payment_method, requires_confirmation,
  requires_capture, other_status, is_funded, to_created,
}
use waylo_app.Workers.FundingReconciliation.Orphans.{
  OrphanOutcome, was_skipped, was_rolled_back, was_recreated, find_live, recreated_escrow,
  recreate_escrow, settle_orphan, alert_orphan, reconcile_orphan,
}

-- the mission is funded and has no escrow
abbrev pub is_orphan : ℕ → World → Bool
is_orphan id w = holds is_funded (w.db.missions.row id) && not (is_some (w.db.escrows.row id))

-- an escrow has this payment intent already
abbrev pub is_taken : ℕ → World → Bool
is_taken intent w = is_some (find_first (λ e. e.stripe_payment_intent_id == intent) w.db.escrows)

abbrev pub recreated : ℕ → ℕ → Mission → World → World
recreated id intent m w = record w {
  db = record w.db {
    escrows = record {
      keys = w.db.escrows.keys ++ (id ∷ []);
      row = λ j. if j == id then some (recreated_escrow intent m) else w.db.escrows.row j;
    };
  };
  alerts = w.alerts ++ (AlertCode.orphan_funding_recovered ∷ []);
}

abbrev pub reopened : ℕ → Mission → World → World
reopened id m w = record w {
  db = record w.db { missions = put id (to_created m) w.db.missions };
  alerts = w.alerts ++ (AlertCode.stale_funding_rolled_back ∷ []);
}

abbrev pub is_canceled : IntentStatus → Bool
is_canceled canceled = true
is_canceled requires_payment_method = false
is_canceled requires_confirmation = false
is_canceled requires_capture = false
is_canceled other_status = false

abbrev pub all_canceled : List (ℕ × IntentStatus) → Bool
all_canceled [] = true
all_canceled ((intent, status) ∷ rest) = is_canceled status && all_canceled rest

find_live-all_canceled :
    (intents : List (ℕ × IntentStatus)) → find_live intents ≡ none → all_canceled intents ≡ true
unfolding find_live
find_live-all_canceled [] h = refl
find_live-all_canceled ((intent, status) ∷ rest) h = ground (arith, h, find_live-all_canceled rest)

-- What a round can end with; `u` is the world when Stripe has answered.
pub data Outcome (run : FundingRun) (id : ℕ) (u : World) (r : Result OrphanOutcome × World)
    : Type 0 where
  silent : run.search id ≡ none → r ≡ (ok was_skipped, u) → Outcome run id u r
  overtaken : is_orphan id u ≡ false → r ≡ (ok was_skipped, u) → Outcome run id u r
  reopens :
      (intents : List (ℕ × IntentStatus)) (m : Mission)
      → run.search id ≡ some intents
      → all_canceled intents ≡ true
      → is_orphan id u ≡ true
      → u.db.missions.row id ≡ some m
      → r ≡ (ok was_rolled_back, reopened id m u)
      → Outcome run id u r
  taken :
      (intents : List (ℕ × IntentStatus)) (intent : ℕ)
      → run.search id ≡ some intents
      → find_live intents ≡ some intent
      → is_taken intent u ≡ true
      → r ≡ (ok was_skipped, u)
      → Outcome run id u r
  recreates :
      (intents : List (ℕ × IntentStatus)) (intent : ℕ) (m : Mission)
      → run.search id ≡ some intents
      → find_live intents ≡ some intent
      → is_taken intent u ≡ false
      → is_orphan id u ≡ true
      → u.db.missions.row id ≡ some m
      → r ≡ (ok was_recreated, recreated id intent m u)
      → Outcome run id u r

-- the round after Stripe has answered
abbrev settled : ℕ → Option ℕ → World → Result OrphanOutcome × World
settled id found = catch (settle_orphan id found >>= alert_orphan) (λ e. pure was_skipped)

module _ (id : ℕ) (u : World) where
  settled-overtaken :
      (found : Option ℕ) → is_orphan id u ≡ false → settled id found u ≡ (ok was_skipped, u)
  unfolding settle_orphan
  settled-overtaken found h = elim (Option-cases (u.db.missions.row id)) [
    | inl unknown ↦ ground (arith, unknown)
    | inr (m, known) ↦ elim (Bool-cases (is_funded m)) [
      | inr moved ↦ ground (arith, known, moved)
      | inl funded ↦ ground (arith, known, funded, h)
    ]
  ]

  orphan_mission : is_orphan id u ≡ true → (m : Mission) × (u.db.missions.row id ≡ some m)
  orphan_mission orphan = elim (Option-cases (u.db.missions.row id)) [
    | inl unknown ↦ ground (arith, unknown, orphan)
    | inr (m, known) ↦ (m, known)
  ]

  settled-reopens :
      (m : Mission)
      → is_orphan id u ≡ true
      → u.db.missions.row id ≡ some m
      → settled id none u ≡ (ok was_rolled_back, reopened id m u)
  unfolding settle_orphan
  settled-reopens m orphan known =
      let funded : is_funded m ≡ true = ground (arith, orphan, known) in
      let alone : u.db.escrows.row id ≡ none = ground (arith, orphan, known) in
      ground (arith, known, funded, alone)

  settled-intent :
      (intent : ℕ) (m : Mission)
      → is_orphan id u ≡ true
      → u.db.missions.row id ≡ some m
      → settled id (some intent) u ≡ (
          if is_taken intent u
          then (ok was_skipped, u)
          else (ok was_recreated, recreated id intent m u))
  unfolding settle_orphan recreate_escrow
  settled-intent intent m orphan known =
      let funded : is_funded m ≡ true = ground (arith, orphan, known) in
      let alone : u.db.escrows.row id ≡ none = ground (arith, orphan, known) in
      elim (Bool-cases (is_taken intent u)) [
        | inl used ↦ ground (arith, known, funded, alone, used)
        | inr free ↦ ground (arith, known, funded, alone, free)
      ]

  -- the round after Stripe has found these payment intents
  found_outcome :
      (run : FundingRun) (intents : List (ℕ × IntentStatus))
      → run.search id ≡ some intents
      → Outcome run id u (settled id (find_live intents) u)
  found_outcome run intents answer = elim (Bool-cases (is_orphan id u)) [
    | inr late ↦ Outcome.overtaken late (settled-overtaken (find_live intents) late)
    | inl orphan ↦
        let (m, known) = orphan_mission orphan in
        elim (Option-cases (find_live intents)) [
          | inl gone ↦
              Outcome.reopens intents m answer (find_live-all_canceled intents gone) orphan known
                (ap (λ f. settled id f u) gone ∙ settled-reopens m orphan known)
          | inr (intent, live) ↦
              let ends = ap (λ f. settled id f u) live ∙ settled-intent intent m orphan known in
              elim (Bool-cases (is_taken intent u)) [
                | inl used ↦ Outcome.taken intents intent answer live used (
                    ends
                    ∙ ap
                        (λ b.
                          if b
                          then (ok was_skipped, u)
                          else (ok was_recreated, recreated id intent m u))
                        used)
                | inr free ↦ Outcome.recreates intents intent m answer live free orphan known (
                    ends
                    ∙ ap
                        (λ b.
                          if b
                          then (ok was_skipped, u)
                          else (ok was_recreated, recreated id intent m u))
                        free)
              ]
        ]
  ]

  -- the round from the answer of Stripe on
  abbrev answered : Option (List (ℕ × IntentStatus)) → Result OrphanOutcome × World
  answered x =
      (elim x as (λ o. Action OrphanOutcome) [
        | none ↦ pure was_skipped
        | some intents ↦ settled id (find_live intents)
      ])
        u

  answered_outcome : (run : FundingRun) → Outcome run id u (answered (run.search id))
  answered_outcome run = elim (Option-cases (run.search id)) [
    | inl mute ↦ Outcome.silent mute (ap answered mute)
    | inr (intents, answer) ↦
        subst (λ x. Outcome run id u (answered x)) (sym answer) (found_outcome run intents answer)
  ]

-- A round of the reconciliation of missions that are funded without an escrow ends in one of five
-- ways, whatever others commit while Stripe answers. Nothing changes where Stripe fails, where the
-- mission is not funded any more or has an escrow by then, or where another escrow has the payment
-- intent that was found. Where Stripe has no payment intent for the mission but canceled ones, the
-- mission goes back to CREATED. Else the escrow is there again, held and with nothing captured, for the
-- first payment intent that is not canceled. Either of these two sends its alert.
reconcile_orphan_outcome :
    (run : FundingRun) (id : ℕ) (w : World)
    → Outcome run id (record w { db = run.meanwhile id w.db }) (reconcile_orphan run id w)
unfolding reconcile_orphan
reconcile_orphan_outcome run id w =
    answered_outcome id (record w { db = run.meanwhile id w.db }) run
