-- ===== src/App.antt =====
-- What a handler works on: the database, the alerts and the calls of Stripe, in an exception
-- monad. A handler that throws keeps what it has done before, except inside a transaction. While a
-- handler waits for the database or for Stripe, other requests may commit: `others` is that.
pub mod Store
pub mod Monad
pub mod Keeps
pub use Store.*
pub use Monad.*
