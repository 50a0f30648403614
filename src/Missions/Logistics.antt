-- ===== src/Missions/Logistics.antt =====
-- src/missions/routes/logistics.route.ts: the routes of the traveler and the buyer on the way of a
-- mission from its funding to its validation.
mod Matching
mod Depositing
mod Receiving
mod Receipts
mod Reviews
pub mod Rating
pub mod Sealing
pub mod Outcomes
pub mod Reception
pub mod Collection
pub mod Steps
pub mod Exclusive
mod Examples
unfoldable pub use Matching.*
unfoldable pub use Depositing.*
unfoldable pub use Receiving.*
unfoldable pub use Receipts.*
unfoldable pub use Reviews.*
