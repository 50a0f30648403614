-- ===== src/Missions.antt =====
-- The routes of src/missions/routes, each as an action on the world.
pub mod Access
pub mod Validation
mod Customs
pub mod Transition
pub mod Capturing
pub mod Logistics
pub mod Admin
pub mod Funding
