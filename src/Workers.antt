-- ===== src/Workers.antt =====
-- The workers of src/workers. Outbox holds what those share that empty an outbox.
pub mod Outbox
pub mod Transfer
pub mod Ghosts
pub mod Compensation
pub mod Batch
pub mod DisputePenalty
pub mod DisputeRefund
pub mod FundingReconciliation
pub mod Penalty
pub mod Reconciliation
