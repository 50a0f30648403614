-- ===== src/Workers/FundingReconciliation.antt =====
-- src/workers/funding-reconciliation.ts: fundings that the buyer has abandoned.
pub mod Orphans
pub mod Closed
pub mod Recovery
pub mod Rollback
use waylo_app.Base.{
  ℕ, ◌+◌, Bool, true, false, not, ◌&&◌, ◌||◌, Option, none, some, List, [], ◌∷◌, ◌++◌, is_some,
  take, ◌==◌, if◌then◌else◌,
}
use waylo_app.Base.Table.{Table, find_many, find_first, create, holds}
use waylo_app.Schema.Status.{MissionStatus, EscrowStatus, is_status, is_escrow_status}
use waylo_app.Schema.Rows.{Mission, Escrow}
use waylo_app.App.{
  Db, World, StripeCall, AlertCode, Fault, Result, Action, Done, ◌>>=◌, ◌>>◌, pure, throw, or_throw,
  throw_if, read, modify, catch, transaction, emit, stripe_call, others, update_mission,
  update_escrow,
}

abbrev pub default_batch_limit : ℕ
default_batch_limit = 100

-- The states of a payment intent that the code names, and all others.
pub data IntentStatus : Type 0 where
  requires_payment_method requires_confirmation requires_capture canceled other_status :
      IntentStatus

-- `ABANDONED_PI_STATUSES.has(status)`
abbrev pub is_abandoned : IntentStatus → Bool
is_abandoned requires_payment_method = true
is_abandoned requires_confirmation = true
is_abandoned requires_capture = false
is_abandoned canceled = false
is_abandoned other_status = false

-- What the ages of the rows decide, what Stripe answers, by payment intent and by mission, and what
-- others commit meanwhile.
pub record FundingRun : Type 0 where
  pub is_stale : ℕ → Bool
  pub retrieve : ℕ → Option IntentStatus
  pub cancels : ℕ → Bool
  pub search : ℕ → Option (List (ℕ × IntentStatus))
  pub meanwhile : ℕ → Db → Db

abbrev pub is_funded : Mission → Bool
is_funded m = is_status m.status MissionStatus.funded

-- `{ status: HELD, capturedAmountCents: 0 }`
abbrev pub is_untouched : Escrow → Bool
is_untouched e = is_escrow_status e.status EscrowStatus.held && (e.captured_amount_cents == 0)

abbrev pub to_cancelled : Escrow → Escrow
to_cancelled e = record e { status = EscrowStatus.cancelled }

abbrev pub to_created : Mission → Mission
to_created m = record m { status = MissionStatus.created }

-- the escrows among `ids` whose age and mission fit, with their payment intents
unfoldable pub stale_among : FundingRun → Db → List ℕ → List (ℕ × ℕ)
stale_among run db [] = []
stale_among run db (id ∷ ids) =
    let rest = stale_among run db ids in
    elim (db.escrows.row id) [
      | none ↦ rest
      | some e ↦
          if run.is_stale id && holds is_funded (db.missions.row id)
          then (id, e.stripe_payment_intent_id) ∷ rest
          else rest
    ]

unfoldable pub candidates : FundingRun → ℕ → Db → List (ℕ × ℕ)
unfolding stale_among
candidates run limit db = take limit (stale_among run db (find_many is_untouched db.escrows))

pub data FundingOutcome : Type 0 where
  was_skipped was_rolled_back was_not_cancelled : FundingOutcome

-- the transaction of the rollback: the escrow first, then the mission
unfoldable pub roll_back : ℕ → Action Done
roll_back id = transaction (do
  escrows ← update_escrow id is_untouched to_cancelled
  throw_if (not (escrows == 1)) Fault.concurrent_change
  missions ← update_mission id is_funded to_created
  throw_if (not (missions == 1)) Fault.concurrent_change)

-- the call of Stripe after the rollback, and the alerts
unfoldable pub release_intent : FundingRun → (intent : ℕ) → Action FundingOutcome
release_intent run intent =
    stripe_call (StripeCall.cancel_abandoned intent)
    >> (if run.cancels intent
        then emit AlertCode.stale_funding_rolled_back >> pure was_rolled_back
        else emit AlertCode.funding_recon_cancel_failed
          >> (emit AlertCode.stale_funding_rolled_back >> pure was_not_cancelled))

-- the `catch` around the rollback
abbrev pub skip_concurrent : Fault → Action FundingOutcome
skip_concurrent e = elim e [ Fault.concurrent_change ↦ pure was_skipped | other ↦ throw other ]

abbrev pub is_rolled_back : FundingOutcome → Bool
is_rolled_back was_skipped = false
is_rolled_back was_rolled_back = true
is_rolled_back was_not_cancelled = true

-- one round of the loop; others commit while Stripe answers
unfoldable pub reconcile_funding : FundingRun → (id intent : ℕ) → Action FundingOutcome
unfolding roll_back release_intent
reconcile_funding run id intent = do
  others (run.meanwhile id)
  if holds is_abandoned (run.retrieve intent)
      then (catch (roll_back id >> pure was_rolled_back) skip_concurrent >>= λ outcome.
          if is_rolled_back outcome then release_intent run intent else pure was_skipped)
      else pure was_skipped

pub record FundingCounts : Type 0 where
  pub rolled_back : ℕ
  pub cancel_failed : ℕ
  pub skipped : ℕ

abbrev pub count_funding : FundingOutcome → FundingCounts → FundingCounts
count_funding was_skipped c = record c { skipped = c.skipped + 1 }
count_funding was_rolled_back c = record c { rolled_back = c.rolled_back + 1 }
count_funding was_not_cancelled c = record c {
  rolled_back = c.rolled_back + 1;
  cancel_failed = c.cancel_failed + 1;
}

unfoldable pub reconcile_all : FundingRun → List (ℕ × ℕ) → FundingCounts → Action FundingCounts
unfolding reconcile_funding
reconcile_all run [] c = pure c
reconcile_all run ((id, intent) ∷ rest) c =
    reconcile_funding run id intent >>= λ outcome. reconcile_all run rest (count_funding outcome c)

-- `runFundingReconciliationOnce`
unfoldable pub run_funding_reconciliation_once : FundingRun → (limit : ℕ) → Action FundingCounts
unfolding candidates reconcile_all
run_funding_reconciliation_once run limit = do
  rows ← read (candidates run limit)
  reconcile_all run rows (record { rolled_back = 0; cancel_failed = 0; skipped = 0 })
