-- ===== src/Books.antt =====
-- The invariants A, B and C that src/workers/reconciliation.ts states of every escrow and its ledger,
-- and what the events of Stripe do to them.
mod Defs
pub mod Ledger
pub mod Settling
unfoldable pub use Defs.*
pub mod Capturing
pub mod Frame
pub mod CaptureKeeps
pub mod Refunding
pub mod Others
pub mod Kept
mod Markers
mod Once
pub mod Sample
mod Examples
