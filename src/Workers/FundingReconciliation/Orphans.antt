-- ===== src/Workers/FundingReconciliation/Orphans.antt =====
-- `runOrphanFundingReconciliationOnce` of src/workers/funding-reconciliation.ts: missions that are funded
-- without an escrow.
use waylo_app.Base.{
  ℕ, ◌+◌, not, ◌&&◌, ◌||◌, Option, none, some, List, [], ◌∷◌, is_some, take, ◌==◌, if◌then◌else◌,
}
use waylo_app.Base.Table.{find_many, find_first, create}
use waylo_app.Schema.Status.{EscrowStatus}
use waylo_app.Schema.Rows.{Mission, Escrow}
use waylo_app.App.{
  Db, AlertCode, Fault, Action, ◌>>=◌, ◌>>◌, pure, or_throw, throw_if, read, modify, catch,
  transaction, emit, others, update_mission,
}
use waylo_app.Workers.FundingReconciliation.{
  FundingRun, IntentStatus, requires_payment_method, requires_confirmation, requires_capture,
  canceled, other_status, is_funded, to_created,
}

pub data OrphanOutcome : Type 0 where
  was_skipped was_rolled_back was_recreated : OrphanOutcome

-- `found.data.find(p => p.status !== 'canceled')`
unfoldable pub find_live : List (ℕ × IntentStatus) → Option ℕ
find_live [] = none
find_live ((intent, status) ∷ rest) =
    let later = find_live rest in
    elim status [
      | requires_payment_method ↦ some intent
      | requires_confirmation ↦ some intent
      | requires_capture ↦ some intent
      | canceled ↦ later
      | other_status ↦ some intent
    ]

abbrev pub recreated_escrow : ℕ → Mission → Escrow
recreated_escrow intent m = record {
  stripe_payment_intent_id = intent;
  captured_amount_cents = 0;
  status = EscrowStatus.held;
  spending_limit_cents = m.budget_cents;
}

-- `escrowTransaction.create`, whose mission and payment intent are both unique
unfoldable pub recreate_escrow : (id intent : ℕ) → Mission → Action OrphanOutcome
recreate_escrow id intent m = do
  db ← read (λ db. db)
  throw_if (is_some (find_first (λ e. e.stripe_payment_intent_id == intent) db.escrows))
      Fault.unique_violation
  escrows ← or_throw (create id (recreated_escrow intent m) db.escrows) Fault.unique_violation
  modify (λ d. record d { escrows = escrows })
  pure was_recreated

-- the transaction of an orphan: `none` is no payment intent
unfoldable pub settle_orphan : (id : ℕ) → Option ℕ → Action OrphanOutcome
unfolding recreate_escrow
settle_orphan id found = transaction (do
  db ← read (λ db. db)
  elim (db.missions.row id) [
    | none ↦ pure was_skipped
    | some m ↦
        if not (is_funded m) || is_some (db.escrows.row id) then pure was_skipped else elim found [
          | some intent ↦ recreate_escrow id intent m
          | none ↦ update_mission id is_funded to_created >> pure was_rolled_back
        ]
  ])

abbrev pub alert_orphan : OrphanOutcome → Action OrphanOutcome
alert_orphan was_recreated = emit AlertCode.orphan_funding_recovered >> pure was_recreated
alert_orphan was_rolled_back = emit AlertCode.stale_funding_rolled_back >> pure was_rolled_back
alert_orphan was_skipped = pure was_skipped

-- one round of the loop over the orphans
unfoldable pub reconcile_orphan : FundingRun → ℕ → Action OrphanOutcome
unfolding settle_orphan find_live
reconcile_orphan run id = do
  others (run.meanwhile id)
  elim (run.search id) [
    | none ↦ pure was_skipped
    | some intents ↦
        catch (settle_orphan id (find_live intents) >>= alert_orphan) (λ e. pure was_skipped)
  ]

pub record OrphanCounts : Type 0 where
  pub escrow_recreated : ℕ
  pub rolled_back : ℕ
  pub skipped : ℕ

abbrev pub count_orphan : OrphanOutcome → OrphanCounts → OrphanCounts
count_orphan was_skipped c = record c { skipped = c.skipped + 1 }
count_orphan was_rolled_back c = record c { rolled_back = c.rolled_back + 1 }
count_orphan was_recreated c = record c { escrow_recreated = c.escrow_recreated + 1 }

unfoldable pub reconcile_orphans : FundingRun → List ℕ → OrphanCounts → Action OrphanCounts
unfolding reconcile_orphan
reconcile_orphans run [] c = pure c
reconcile_orphans run (id ∷ ids) c =
    reconcile_orphan run id >>= λ outcome. reconcile_orphans run ids (count_orphan outcome c)

-- `escrow: { is: null }` and the age
unfoldable pub orphans_among : FundingRun → Db → List ℕ → List ℕ
orphans_among run db [] = []
orphans_among run db (id ∷ ids) =
    let rest = orphans_among run db ids in
    if run.is_stale id && not (is_some (db.escrows.row id)) then id ∷ rest else rest

-- `runOrphanFundingReconciliationOnce`
unfoldable pub run_orphan_funding_reconciliation_once :
    FundingRun → (limit : ℕ) → Action OrphanCounts
unfolding orphans_among reconcile_orphans
run_orphan_funding_reconciliation_once run limit = do
  orphans ← read (λ db. take limit (orphans_among run db (find_many is_funded db.missions)))
  reconcile_orphans run orphans (record { escrow_recreated = 0; rolled_back = 0; skipped = 0 })
