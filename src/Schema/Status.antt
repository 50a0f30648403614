-- ===== src/Schema/Status.antt =====
-- The enums of prisma/schema.prisma, with the equality tests that TypeScript writes `===`.
use waylo_app.Base.{ℕ, ◌≡◌, ◌↔◌, Bool, true, List, [], ◌∷◌, false, ◌||◌, arith, ◌==◌}

pub data MissionStatus : Type 0 where
  created funded matched in_progress escrow_locked_customs : MissionStatus
  pending_customs_review awaiting_validation validated deposited : MissionStatus
  disputed in_dispute disputed_fraud awaiting_traveler_account : MissionStatus
  released refunded cancelled expired : MissionStatus
  awaiting_confirmation completed_by_buyer notification_failed : MissionStatus

pub data EscrowStatus : Type 0 where
  held released refunded partially_refunded cancelled : EscrowStatus

pub data DisputeStatus : Type 0 where
  draft open_ escalated resolved closed : DisputeStatus

pub data LedgerType : Type 0 where
  capture payout commission refund : LedgerType
  buyer_wallet_credit fraud_penalty_collected buyer_refund_compensation : LedgerType

pub data TransferStatus : Type 0 where
  pending submitted settled failed abandoned : TransferStatus

pub data OutboxEventType : Type 0 where
  ready_for_payout ready_for_refund : OutboxEventType

pub data PenaltyStatus : Type 0 where
  pending paid failed : PenaltyStatus

pub data AccountStatus : Type 0 where
  active suspended : AccountStatus

pub data OutboxStatus : Type 0 where
  pending settled failed : OutboxStatus

pub data KycStatus : Type 0 where
  pending verified rejected : KycStatus

pub data DeliveryProofStatus : Type 0 where
  pending validated rejected : DeliveryProofStatus

pub data SubstitutionStatus : Type 0 where
  pending approved rejected item_skipped : SubstitutionStatus

pub data DropOffType : Type 0 where
  locker relay postal : DropOffType

abbrev mission_status_code : MissionStatus → ℕ
mission_status_code MissionStatus.created = 0
mission_status_code MissionStatus.funded = 1
mission_status_code MissionStatus.matched = 2
mission_status_code MissionStatus.in_progress = 3
mission_status_code MissionStatus.escrow_locked_customs = 4
mission_status_code MissionStatus.pending_customs_review = 5
mission_status_code MissionStatus.awaiting_validation = 6
mission_status_code MissionStatus.validated = 7
mission_status_code MissionStatus.deposited = 8
mission_status_code MissionStatus.disputed = 9
mission_status_code MissionStatus.in_dispute = 10
mission_status_code MissionStatus.disputed_fraud = 11
mission_status_code MissionStatus.awaiting_traveler_account = 12
mission_status_code MissionStatus.released = 13
mission_status_code MissionStatus.refunded = 14
mission_status_code MissionStatus.cancelled = 15
mission_status_code MissionStatus.expired = 16
mission_status_code MissionStatus.awaiting_confirmation = 17
mission_status_code MissionStatus.completed_by_buyer = 18
mission_status_code MissionStatus.notification_failed = 19

abbrev escrow_status_code : EscrowStatus → ℕ
escrow_status_code EscrowStatus.held = 0
escrow_status_code EscrowStatus.released = 1
escrow_status_code EscrowStatus.refunded = 2
escrow_status_code EscrowStatus.partially_refunded = 3
escrow_status_code EscrowStatus.cancelled = 4

abbrev dispute_status_code : DisputeStatus → ℕ
dispute_status_code DisputeStatus.draft = 0
dispute_status_code DisputeStatus.open_ = 1
dispute_status_code DisputeStatus.escalated = 2
dispute_status_code DisputeStatus.resolved = 3
dispute_status_code DisputeStatus.closed = 4

-- `mission.status === MissionStatus.X`. It stays shut in proofs, which use `is_status_iff`.
unfoldable pub is_status : MissionStatus → MissionStatus → Bool
is_status s t = mission_status_code s == mission_status_code t

unfoldable pub is_escrow_status : EscrowStatus → EscrowStatus → Bool
is_escrow_status s t = escrow_status_code s == escrow_status_code t

unfoldable pub is_dispute_status : DisputeStatus → DisputeStatus → Bool
is_dispute_status s t = dispute_status_code s == dispute_status_code t

unfoldable pub is_verified : KycStatus → Bool
is_verified KycStatus.verified = true
is_verified _ = false

unfoldable pub is_pending_substitution : SubstitutionStatus → Bool
is_pending_substitution SubstitutionStatus.pending = true
is_pending_substitution _ = false

abbrev pub ledger_type_code : LedgerType → ℕ
ledger_type_code LedgerType.capture = 0
ledger_type_code LedgerType.payout = 1
ledger_type_code LedgerType.commission = 2
ledger_type_code LedgerType.refund = 3
ledger_type_code LedgerType.buyer_wallet_credit = 4
ledger_type_code LedgerType.fraud_penalty_collected = 5
ledger_type_code LedgerType.buyer_refund_compensation = 6

abbrev pub is_ledger_type : LedgerType → LedgerType → Bool
is_ledger_type s t = ledger_type_code s == ledger_type_code t

-- `list.includes(status)`, and `status: { in: list }` in a where clause
abbrev pub status_in : MissionStatus → List MissionStatus → Bool
status_in s [] = false
status_in s (t ∷ ts) = is_status s t || status_in s ts

-- The equality tests decide equality.
pub is_status_iff : (s t : MissionStatus) → (is_status s t ≡ true) ↔ (s ≡ t)
unfolding is_status
is_status_iff s t = ground arith

pub is_escrow_status_iff : (s t : EscrowStatus) → (is_escrow_status s t ≡ true) ↔ (s ≡ t)
unfolding is_escrow_status
is_escrow_status_iff s t = ground arith

pub is_dispute_status_iff : (s t : DisputeStatus) → (is_dispute_status s t ≡ true) ↔ (s ≡ t)
unfolding is_dispute_status
is_dispute_status_iff s t = ground arith
