-- ===== src/Missions/Validation.antt =====
-- src/missions/routes/validation.route.ts: the buyer validates the delivery, and the escrow is
-- captured. `/validate` and `/confirm-receipt` differ in their capture context alone.
mod Defs
pub mod Laws
unfoldable pub use Defs.*
mod Examples
