-- ===== src/Schema/Rows.antt =====
-- The rows of the tables of prisma/schema.prisma. A text is the list of its character codes.
use waylo_app.Base.{ℕ, Bool, Option, Text}
use waylo_app.Schema.Status.{
  MissionStatus, EscrowStatus, DisputeStatus, LedgerType, TransferStatus, KycStatus,
  DeliveryProofStatus, DropOffType, SubstitutionStatus, OutboxStatus, OutboxEventType,
  PenaltyStatus, AccountStatus,
}

pub record User : Type 0 where
  pub is_admin : Bool
  pub kyc_status : KycStatus
  pub stripe_account_id : Option ℕ
  pub stripe_payment_method_id : Option ℕ
  pub stripe_customer_id : Option ℕ
  pub account_status : AccountStatus

pub record Mission : Type 0 where
  pub buyer_id : ℕ
  pub traveler_id : Option ℕ
  pub status : MissionStatus
  pub target_product : Text
  pub budget_cents : ℕ
  pub commission_cents : ℕ
  pub substitution_authorized : Bool
  pub origin : Text
  pub destination : Text
  pub tracking_reference : Option Text
  pub purchase_amount_cents : Option ℕ
  pub destination_country : Option Text
  pub customs_receipt_url : Option Text
  pub customs_receipt_sha256 : Option Text
  pub sale_signature : Option Text
  pub dropoff_receipt_url : Option Text
  pub dropoff_tracking_number : Option Text
  pub dropoff_at : Option ℕ
  pub drop_off_type : Option DropOffType
  pub drop_off_carrier : Option Text
  pub drop_off_tracking_id : Option Text
  pub drop_off_access_code : Option Text
  pub dropped_at : Option ℕ
  pub dispute_reason : Option Text
  pub disputed_at : Option ℕ
  pub dispute_opened_at : Option ℕ
  pub dispute_deadline : Option ℕ
  pub auto_refund_deadline : Option ℕ
  pub delivery_proof_status : DeliveryProofStatus
  pub inner_qr_code_hash : Option Text
  pub version : ℕ
  pub expires_at : ℕ
  pub created_at : ℕ

-- The row of a mission's escrow: `missionId` is unique, and names the row.
pub record Escrow : Type 0 where
  pub stripe_payment_intent_id : ℕ
  pub captured_amount_cents : ℕ
  pub status : EscrowStatus
  pub spending_limit_cents : ℕ

pub record LedgerEntry : Type 0 where
  pub escrow_id : ℕ  -- the mission that names the escrow
  pub type : LedgerType
  pub amount_cents : ℕ

-- `idempotencyKey` is `transfer_marchand_<missionId>`, so the mission names the row.
pub record TransferOutbox : Type 0 where
  pub destination_account_id : ℕ
  pub amount_cents : ℕ
  pub status : TransferStatus
  pub attempts : ℕ
  pub stripe_transfer_id : Option ℕ

-- `missionId` is unique.
pub record WalletTransaction : Type 0 where
  pub user_id : ℕ  -- the owner of the wallet
  pub amount_cents : ℕ

pub record Receipt : Type 0 where
  pub total_ttc_cents : ℕ
  pub receipt_url : Option Text
  pub sha256_server : Text
  pub sealed_at : ℕ

pub record SubstitutionRequest : Type 0 where
  pub mission_id : ℕ
  pub proposed_product : Text
  pub proposed_price_cents : ℕ
  pub status : SubstitutionStatus
  pub resolved_at : Option ℕ

-- `stripeAuthorizationId` is unique, and names the row.
pub record IssuingAuthorizationLog : Type 0 where
  pub mission_id : Option ℕ
  pub requested_amount_cents : ℕ
  pub approved : Bool  -- `decision`
  pub is_backfill : Bool  -- `reason` is BACKFILL_FROM_ASYNC_EVENT

pub record Review : Type 0 where
  pub mission_id : ℕ
  pub author_id : ℕ
  pub target_id : ℕ
  pub rating : ℕ
  pub comment : Option Text

pub record Dispute : Type 0 where
  pub opened_by_id : ℕ
  pub status : DisputeStatus
  pub reason : Option Text
  pub resolution : Option Text
  pub opened_at : Option ℕ
  pub escalated_at : Option ℕ
  pub resolved_at : Option ℕ
  pub closed_at : Option ℕ

pub data AuditAction : Type 0 where
  customs_approve customs_reject dispute_opened admin_resolve_refund : AuditAction
  admin_resolve_payout admin_arbitrate_fraud mission_delivery_proof_updated : AuditAction
  instruction_penalty_charged instruction_penalty_failed account_suspended : AuditAction

pub record AuditEntry : Type 0 where
  pub admin_id : Option ℕ  -- none where the actor is the system
  pub action : AuditAction
  pub mission_id : ℕ

-- `missionId` is unique.
pub record PenaltyDebitOutbox : Type 0 where
  pub user_id : ℕ
  pub amount_cents : ℕ
  pub status : TransferStatus
  pub attempts : ℕ
  pub stripe_payment_intent_id : Option ℕ

-- `idempotencyKey` is `buyer_compensation_<missionId>`, so the mission names the row.
pub record BuyerCompensationOutbox : Type 0 where
  pub buyer_id : ℕ
  pub amount_cents : ℕ
  pub status : OutboxStatus
  pub attempts : ℕ

-- `missionId` is unique.
pub record Penalty : Type 0 where
  pub user_id : ℕ
  pub amount_cents : ℕ
  pub status : PenaltyStatus
  pub attempts : ℕ
  pub stripe_payment_intent_id : Option ℕ

pub record OutboxEvent : Type 0 where
  pub mission_id : ℕ
  pub type : OutboxEventType
  pub status : OutboxStatus
  pub attempts : ℕ
