-- ===== src/Webhook.antt =====
-- The asynchronous events of Stripe: src/stripe/webhook.route.ts.
mod Effects
mod Settle
mod CaptureEvent
mod Refund
pub mod Funding
mod Route
pub use Effects.*
unfoldable pub use Settle.*
unfoldable pub use CaptureEvent.*
unfoldable pub use Refund.*
unfoldable pub use Funding.*
unfoldable pub use Route.*
