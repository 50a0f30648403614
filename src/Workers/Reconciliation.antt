-- ===== src/Workers/Reconciliation.antt =====
-- src/workers/reconciliation.ts: the checks of the ledger against escrows and transfers, and the two
-- timeouts.
pub mod Checks
pub mod Timeouts
use waylo_app.Base.{
  ℕ, suc, ◌+◌, Bool, true, false, not, ◌&&◌, ◌||◌, Option, none, some, List, [], ◌∷◌, ◌++◌, ltb,
  ◌==◌, if◌then◌else◌,
}
use waylo_app.Schema.Status.{
  MissionStatus, EscrowStatus, LedgerType, TransferStatus, is_status, is_escrow_status,
  is_ledger_type,
}
use waylo_app.Schema.Rows.{Mission, Escrow, LedgerEntry, TransferOutbox}
use waylo_app.Watchdog.{Attempt}
use waylo_app.App.{
  Db, World, AlertCode, CaptureContext, StripeCall, Fault, Result, Action, Done, ◌>>=◌, ◌>>◌, pure,
  read, throw_if, catch, transaction, emit, stripe_call, others, update_mission, add_ledger,
}
use waylo_app.Escrow.{capture_escrow_funds}
use waylo_app.Webhook.{sum_of, entry}

-- `outflow`: Σ(PAYOUT + COMMISSION + REFUND + BUYER_WALLET_CREDIT)
unfoldable pub outflow_of : List LedgerEntry → ℕ → ℕ
outflow_of l id =
    sum_of l id LedgerType.payout
    + sum_of l id LedgerType.commission
    + sum_of l id LedgerType.refund
    + sum_of l id LedgerType.buyer_wallet_credit

abbrev alert_if : Bool → AlertCode → List AlertCode
alert_if true a = a ∷ []
alert_if false a = []

-- SETTLED_STATUSES
unfoldable pub is_settled_escrow : EscrowStatus → Bool
is_settled_escrow s =
    is_escrow_status s EscrowStatus.released || is_escrow_status s EscrowStatus.refunded

-- the tests A, B and C on one escrow
unfoldable pub check_escrow : List LedgerEntry → ℕ → Escrow → List AlertCode
unfolding outflow_of is_settled_escrow
check_escrow l id e =
    let captured = sum_of l id LedgerType.capture in
    let outflow = outflow_of l id in
    alert_if (not (captured == e.captured_amount_cents)) AlertCode.ledger_invariant_broken
    ++ alert_if (ltb captured outflow) AlertCode.ledger_invariant_broken
    ++ alert_if (is_settled_escrow e.status && not (outflow == captured))
        AlertCode.ledger_invariant_broken

check_rows : List LedgerEntry → (ℕ → Option Escrow) → List ℕ → List AlertCode
check_rows l row [] = []
check_rows l row (k ∷ ks) =
    elim (row k) [ none ↦ [] | some e ↦ check_escrow l k e ] ++ check_rows l row ks

-- 1. the accounting invariants of all escrows
unfoldable pub check_invariants : Db → List AlertCode
unfolding check_rows check_escrow
check_invariants db = check_rows db.ledger db.escrows.row db.escrows.keys

unfoldable pub is_settled_transfer : TransferStatus → Bool
is_settled_transfer TransferStatus.settled = true
is_settled_transfer _ = false

-- `settledByEscrow.get(escrowId) ?? 0`; an escrow has one transfer
unfoldable pub settled_cents : Db → ℕ → ℕ
settled_cents db id = elim (db.transfers.row id) [
  | none ↦ 0
  | some o ↦ if is_settled_transfer o.status then o.amount_cents else 0
]

-- the payouts whose grace has passed; `old` says it of the i-th entry of the ledger
unfoldable pub check_payouts : Db → (ℕ → Bool) → ℕ → List LedgerEntry → List AlertCode
unfolding settled_cents
check_payouts db old i [] = []
check_payouts db old i (x ∷ xs) =
    alert_if
      (is_ledger_type x.type LedgerType.payout
        && ltb (settled_cents db x.escrow_id) x.amount_cents
        && old i)
      AlertCode.payout_not_settled
    ++ check_payouts db old (suc i) xs

-- `payoutEscrowIds.has(escrowId)`
unfoldable pub has_payout : List LedgerEntry → ℕ → Bool
has_payout [] id = false
has_payout (x ∷ xs) id =
    (is_ledger_type x.type LedgerType.payout && (x.escrow_id == id)) || has_payout xs id

check_orphans : Db → List ℕ → List AlertCode
check_orphans db [] = []
check_orphans db (k ∷ ks) =
    elim (db.transfers.row k) [
      | none ↦ []
      | some o ↦
          alert_if (is_settled_transfer o.status && not (has_payout db.ledger k))
            AlertCode.orphan_transfer
    ]
    ++ check_orphans db ks

-- 2. the payouts of the ledger against the transfers
unfoldable pub check_transfers : Db → (ℕ → Bool) → List AlertCode
unfolding check_payouts check_orphans
check_transfers db old = check_payouts db old 0 db.ledger ++ check_orphans db db.transfers.keys

abbrev pub is_locked_mission : Mission → Bool
is_locked_mission m = is_status m.status MissionStatus.escrow_locked_customs

abbrev pub to_refunded : Mission → Mission
to_refunded m = record m { status = MissionStatus.refunded }

-- What one iteration of a timeout meets: whether Stripe cancels, what Stripe does for a capture, and
-- what others commit meanwhile.
pub record TimeoutRound : Type 0 where
  pub cancels : Bool
  pub attempts : ℕ → Attempt Done
  pub between : Db → Db

-- 6. the customs timeout of a mission whose escrow has the given intent
unfoldable pub customs_timeout : TimeoutRound → (id intent : ℕ) → Action Done
customs_timeout round id intent = do
  stripe_call (StripeCall.refund_customs intent id)
  others round.between
  if round.cancels
      then (transaction (
          update_mission id is_locked_mission to_refunded
          >> add_ledger (entry id LedgerType.refund 0)))
      else emit AlertCode.customs_timeout_refund_failed

-- the missions that the query has found, with their intents
unfoldable pub customs_timeouts : (ℕ → TimeoutRound) → List (ℕ × ℕ) → Action Done
unfolding customs_timeout
customs_timeouts rounds [] = pure tt
customs_timeouts rounds ((id, intent) ∷ rest) =
    customs_timeout (rounds 0) id intent >> customs_timeouts (λ i. rounds (suc i)) rest

-- the query, where `stalled` says which missions were last written more than 7 days ago
unfoldable pub stalled_customs : (ℕ → Bool) → Db → List ℕ → List (ℕ × ℕ)
stalled_customs stalled db [] = []
stalled_customs stalled db (k ∷ ks) =
    let rest = stalled_customs stalled db ks in
    elim (db.missions.row k) [
      | none ↦ rest
      | some m ↦
          if is_locked_mission m && stalled k
          then elim (db.escrows.row k) [
            | none ↦ rest
            | some e ↦ (k, e.stripe_payment_intent_id) ∷ rest
          ]
          else rest
    ]

abbrev pub is_uncollected : Mission → Bool
is_uncollected m = is_status m.status MissionStatus.deposited

abbrev pub to_auto_validated : Mission → Mission
to_auto_validated m = record m { status = MissionStatus.validated }

-- `captureEscrowFunds` in its `try`: whether it has succeeded
unfoldable pub capture_or_alert : TimeoutRound → ℕ → Action Bool
unfolding capture_escrow_funds
capture_or_alert round id =
    catch (capture_escrow_funds round.attempts round.between id CaptureContext.timeout >> pure true)
      (λ e. emit AlertCode.collection_timeout_capture_failed >> pure false)

-- 7. the collection timeout of a mission whose escrow was held when the query was made
unfoldable pub collection_timeout : TimeoutRound → ℕ → Action Done
unfolding capture_or_alert
collection_timeout round id = do
  captured ← capture_or_alert round id
  if captured then (update_mission id is_uncollected to_auto_validated >> pure tt) else pure tt

unfoldable pub collection_timeouts : (ℕ → TimeoutRound) → List ℕ → Action Done
unfolding collection_timeout
collection_timeouts rounds [] = pure tt
collection_timeouts rounds (id ∷ rest) =
    collection_timeout (rounds 0) id >> collection_timeouts (λ i. rounds (suc i)) rest

abbrev dropped_before : ℕ → Mission → Bool
dropped_before cutoff m = elim m.dropoff_at [ none ↦ false | some t ↦ ltb t cutoff ]

abbrev is_held_row : Option Escrow → Bool
is_held_row none = false
is_held_row (some e) = is_escrow_status e.status EscrowStatus.held

-- the query, and the test on the escrow that it has read
unfoldable pub stalled_collection : ℕ → Db → List ℕ → List ℕ
stalled_collection cutoff db [] = []
stalled_collection cutoff db (k ∷ ks) =
    let rest = stalled_collection cutoff db ks in
    elim (db.missions.row k) [
      | none ↦ rest
      | some m ↦
          if is_uncollected m && dropped_before cutoff m && is_held_row (db.escrows.row k)
          then k ∷ rest
          else rest
    ]

-- Steps 6 and 7 of `runReconciliation`, where there is a client of Stripe.
unfoldable pub run_timeouts : (ℕ → Bool) → ℕ → (ℕ → TimeoutRound) → (ℕ → TimeoutRound) → Action Done
unfolding customs_timeouts collection_timeouts stalled_customs stalled_collection
run_timeouts stalled cutoff rounds rounds' = do
  customs ← read (λ db. stalled_customs stalled db db.missions.keys)
  customs_timeouts rounds customs
  deposited ← read (λ db. stalled_collection cutoff db db.missions.keys)
  collection_timeouts rounds' deposited
