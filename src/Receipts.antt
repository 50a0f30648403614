-- ===== src/Receipts.antt =====
-- The check of a receipt before an escrow is released: src/services/receiptReconciliation.ts and
-- src/services/disputeGuard.ts. A violation opens a dispute.
pub mod Guard
use waylo_app.Base.{
  ℕ, ◌+◌, Bool, true, false, not, Option, none, some, List, [], ◌∷◌, ◌++◌, Text, ◌==◌,
  if◌then◌else◌,
}
use waylo_app.Schema.Status.{EscrowStatus, is_escrow_status}
use waylo_app.App.{AlertCode, Action, Done, ◌>>=◌, ◌>>◌, pure, emit}
use waylo_app.Disputes.{create_dispute_in_tx, open_dispute_in_tx}

-- `Receipt` and `Order` of src/types/receipt.ts, as far as they are compared
pub record ReceiptItem : Type 0 where
  pub price : ℕ  -- the total of the line, in cents

pub record ExtractedReceipt : Type 0 where
  pub order_id : ℕ
  pub total_amount : ℕ
  pub currency : ℕ
  pub items : List ReceiptItem

pub record Order : Type 0 where
  pub id : ℕ
  pub currency : ℕ

pub data IntegrityViolationReason : Type 0 where
  order_mismatch currency_mismatch total_mismatch : IntegrityViolationReason
  manipulation_detected : IntegrityViolationReason

-- `items.reduce((sum, item) => sum + item.price, sum)`
unfoldable pub items_total : ℕ → List ReceiptItem → ℕ
items_total sum [] = sum
items_total sum (item ∷ items) = items_total (sum + item.price) items

-- `verifyReceiptIntegrity`: the reason of the violation that it throws, if it throws
unfoldable pub verify_receipt_integrity : ExtractedReceipt → Order → Option IntegrityViolationReason
unfolding items_total
verify_receipt_integrity receipt order =
    if not (receipt.order_id == order.id)
    then some IntegrityViolationReason.order_mismatch
    else if not (receipt.currency == order.currency)
    then some IntegrityViolationReason.currency_mismatch
    else if not (items_total 0 receipt.items == receipt.total_amount)
    then some IntegrityViolationReason.total_mismatch
    else none

-- `reconcileExtractedReceipt`. `detect` is `detectPromptInjection`, whatever it finds.
unfoldable pub reconcile_extracted_receipt :
    (Text → Bool) → Text → ExtractedReceipt → Order → Option IntegrityViolationReason
unfolding verify_receipt_integrity
reconcile_extracted_receipt detect ocr_text receipt order =
    if detect ocr_text
    then some IntegrityViolationReason.manipulation_detected
    else verify_receipt_integrity receipt order

pub record ReceiptGuardInput : Type 0 where
  pub mission_id : ℕ
  pub actor_id : ℕ
  pub receipt : ExtractedReceipt
  pub order : Order
  pub escrow_status : EscrowStatus
  pub ocr_text : Option Text
  pub reason : Option Text

pub data ReceiptGuardResult : Type 0 where
  release_allowed : ReceiptGuardResult
  frozen : IntegrityViolationReason → ReceiptGuardResult
  not_guardable : EscrowStatus → ReceiptGuardResult

-- the body of the `try`
unfoldable pub violation_of : (Text → Bool) → ReceiptGuardInput → Option IntegrityViolationReason
unfolding reconcile_extracted_receipt verify_receipt_integrity
violation_of detect input = elim input.ocr_text [
  | none ↦ verify_receipt_integrity input.receipt input.order
  | some t ↦ reconcile_extracted_receipt detect t input.receipt input.order
]

-- 'receipt_integrity:'
abbrev reason_prefix : Text
reason_prefix =
    114 ∷ 101 ∷ 99 ∷ 101 ∷ 105 ∷ 112 ∷ 116 ∷ 95 ∷ 105 ∷ 110 ∷ 116 ∷ 101 ∷ 103 ∷ 114 ∷ 105 ∷ 116
    ∷ 121 ∷ 58 ∷ []

-- the code of a reason
abbrev reason_code : IntegrityViolationReason → Text
reason_code IntegrityViolationReason.order_mismatch =
    79 ∷ 82 ∷ 68 ∷ 69 ∷ 82 ∷ 95 ∷ 77 ∷ 73 ∷ 83 ∷ 77 ∷ 65 ∷ 84 ∷ 67 ∷ 72 ∷ []
reason_code IntegrityViolationReason.currency_mismatch =
    67 ∷ 85 ∷ 82 ∷ 82 ∷ 69 ∷ 78 ∷ 67 ∷ 89 ∷ 95 ∷ 77 ∷ 73 ∷ 83 ∷ 77 ∷ 65 ∷ 84 ∷ 67 ∷ 72 ∷ []
reason_code IntegrityViolationReason.total_mismatch =
    84 ∷ 79 ∷ 84 ∷ 65 ∷ 76 ∷ 95 ∷ 77 ∷ 73 ∷ 83 ∷ 77 ∷ 65 ∷ 84 ∷ 67 ∷ 72 ∷ []
reason_code IntegrityViolationReason.manipulation_detected =
    77 ∷ 65 ∷ 78 ∷ 73 ∷ 80 ∷ 85 ∷ 76 ∷ 65 ∷ 84 ∷ 73 ∷ 79 ∷ 78 ∷ 95 ∷ 68 ∷ 69 ∷ 84 ∷ 69 ∷ 67 ∷ 84
    ∷ 69 ∷ 68 ∷ []

-- `input.reason ?? `receipt_integrity:${err.reason}``
abbrev pub dispute_reason_of : Option Text → IntegrityViolationReason → Text
dispute_reason_of none r = reason_prefix ++ reason_code r
dispute_reason_of (some t) r = t

-- the `catch`: the mission is frozen by a dispute
unfoldable pub freeze :
    (time : ℕ) → ReceiptGuardInput → IntegrityViolationReason → Action ReceiptGuardResult
unfolding create_dispute_in_tx open_dispute_in_tx
freeze time input r = do
  create_dispute_in_tx input.mission_id input.actor_id (some (dispute_reason_of input.reason r))
  open_dispute_in_tx time input.mission_id
  emit AlertCode.receipt_integrity_violation
  pure (frozen r)

abbrev pub decide :
    (time : ℕ) → ReceiptGuardInput → Option IntegrityViolationReason → Action ReceiptGuardResult
decide time input none = pure release_allowed
decide time input (some r) = freeze time input r

-- `guardReceiptForRelease`
unfoldable pub guard_receipt_for_release :
    (Text → Bool) → (time : ℕ) → ReceiptGuardInput → Action ReceiptGuardResult
unfolding violation_of freeze
guard_receipt_for_release detect time input =
    if not (is_escrow_status input.escrow_status EscrowStatus.held)
    then pure (not_guardable input.escrow_status)
    else decide time input (violation_of detect input)
