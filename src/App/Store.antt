-- ===== src/App/Store.antt =====
-- The tables of prisma/schema.prisma, and what the program has sent to the outside.
use waylo_app.Base.{ℕ, Option, List}
use waylo_app.Base.Table.{Table}
use waylo_app.Schema.Rows.{
  User, Mission, Escrow, LedgerEntry, TransferOutbox, WalletTransaction, Receipt,
  SubstitutionRequest, IssuingAuthorizationLog, Review, Dispute, AuditEntry, PenaltyDebitOutbox,
  BuyerCompensationOutbox, Penalty, OutboxEvent,
}

pub record Db : Type 0 where
  pub users : ℕ → Option User
  pub missions : Table Mission
  pub escrows : Table Escrow
  pub ledger : List LedgerEntry
  pub transfers : Table TransferOutbox
  pub wallets : ℕ → Option ℕ  -- the balance of each user's wallet, in cents
  pub wallet_transactions : Table WalletTransaction
  pub receipts : Table Receipt
  pub substitutions : Table SubstitutionRequest
  pub issuing_logs : Table IssuingAuthorizationLog
  pub reviews : List Review
  pub disputes : Table Dispute
  pub audit_log : List AuditEntry
  pub penalty_debits : Table PenaltyDebitOutbox
  pub buyer_compensations : Table BuyerCompensationOutbox
  pub penalties : Table Penalty
  pub outbox_events : Table OutboxEvent
  pub processed_events : List ℕ

-- The codes of src/alerts.ts that the modelled code emits.
pub data AlertCode : Type 0 where
  capture_failed escrow_invariant_violated customs_receipt_rejected : AlertCode
  mission_disputed_by_buyer webhook_abort_non_recoverable webhook_processing_failed : AlertCode
  traveler_account_missing customs_lock_captured webhook_mission_not_found : AlertCode
  receipt_integrity_violation transfer_abandoned penalty_debit_abandoned : AlertCode
  ledger_invariant_broken payout_not_settled orphan_transfer : AlertCode
  stale_funding_rolled_back funding_recon_cancel_failed orphan_funding_recovered : AlertCode
  dispute_penalty_stuck_pending dispute_penalty_account_suspended : AlertCode
  customs_timeout_refund_failed collection_timeout_capture_failed : AlertCode

-- `CaptureContext` of src/services/escrow.service.ts
pub data CaptureContext : Type 0 where
  validate receipt receive collection customs payout timeout : CaptureContext

-- A call of Stripe with its amount and the parts of its idempotency key.
pub data StripeCall : Type 0 where
  -- paymentIntents.create, key `fund_<missionId>`
  create_intent : (mission amount : ℕ) → StripeCall
  -- checkout.sessions.create, key `checkout_<missionId>`
  create_session : (mission amount : ℕ) → StripeCall
  -- paymentIntents.capture, key `waylo:<missionId>:cap:<context>:v1`
  capture_intent : (intent amount mission : ℕ) → CaptureContext → StripeCall
  -- paymentIntents.cancel, key `admin_refund_<missionId>`
  cancel_intent : (intent mission : ℕ) → StripeCall
  -- paymentIntents.cancel, key `refund_customs_<missionId>`
  refund_customs : (intent mission : ℕ) → StripeCall
  -- transfers.create, key `transfer_marchand_<missionId>`
  make_transfer : (mission amount account : ℕ) → StripeCall
  -- paymentIntents.create off session, key `penalty_debit_<id>`, one row for each mission
  debit_penalty : (mission amount method : ℕ) → StripeCall
  -- paymentIntents.create off session, key `dispute_penalty_<id>`, one row for each mission
  charge_penalty : (mission amount method : ℕ) → StripeCall
  -- paymentIntents.cancel, key `dispute_refund_<missionId>`
  dispute_refund : (intent mission : ℕ) → StripeCall
  -- paymentIntents.cancel of a funding that was abandoned, without a key
  cancel_abandoned : (intent : ℕ) → StripeCall
  -- paymentIntents.cancel, key `penalty_release_<missionId>`
  release_hold : (intent mission : ℕ) → StripeCall

pub record World : Type 0 where
  pub db : Db
  pub alerts : List AlertCode
  pub calls : List StripeCall
