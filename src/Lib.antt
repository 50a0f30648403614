-- ===== src/Lib.antt =====
-- Verification library of the Waylo back end.
--
-- Waylo escrows the money of a buyer while a traveler brings the product of a mission. This library
-- models the part of the back end that moves this money, and states what keeps it safe.
--
-- The parts and their files:
-- - Base: numbers, tests, texts, and tables with a unique key (what Prisma's `findUnique`,
--   `create`, `updateMany` and `findMany` do).
-- - Schema: the enums and rows of prisma/schema.prisma. A row is named by its unique key: an
--   escrow, a transfer and a wallet transaction by the mission they belong to. Amounts are cents,
--   and times milliseconds, as natural numbers; strings that are only compared are numbers.
-- - App: the database, the alerts of src/alerts.ts and the calls of Stripe, in a monad with state
--   and exceptions. A transaction that throws rolls the database back and keeps alerts and calls.
--   App.Keeps is what a request leaves as it was or moves along an order.
-- - Money: the ceilings of src/missions/mission-common.ts and src/checkout/wallet-validation.ts.
--   The capacity check of these two files is in Missions/Funding.
-- - Watchdog: `automate` of packages/shared/src/automation/watchdog.ts. `fn` is a parameter, a
--   function from the number of the call to what it does. The loop counts the attempts that are
--   left, which is at most maxRetries + 1, so it needs no fuel.
-- - Cleanup: `CleanupScheduler` of packages/shared/src/automation/cleanup.ts, with the intervals of
--   the runtime. A tick has two halves, before and after its `await`, with anything between them.
-- - Escrow: `captureEscrowFunds` of src/services/escrow.service.ts, its guard
--   src/services/escrow-capture.guard.ts, and the alias `stripe-capture`. Stripe is the parameter
--   of Watchdog: each attempt may succeed, fail or time out.
-- - Jit: the decision on a card authorisation in src/services/stripe/jit-handler.service.ts.
-- - Missions: src/missions/mission-access.ts, and routes of src/missions/routes. Transition and
--   Capturing hold what the routes share: the conditional update of a mission, and a capture before
--   it. Validation is validation.route.ts. Logistics is logistics.route.ts, with
--   src/missions/qr-proof.ts and, in Customs, src/missions/customs.ts; sha256 and the decoding of
--   hexadecimal are the parameter Crypto, and random codes arrive as their hash. Admin is
--   admin.route.ts, with the opening of a dispute in Disputing. Funding is funding.route.ts, with
--   the check of the buyer's capacity. The rate limits before the routes are left out.
-- - Disputes: src/services/dispute.service.ts.
-- - Webhook: the events of Stripe in src/stripe/webhook.route.ts.
-- - Images: the removal of metadata from JPEG and PNG in src/services/inputGuard.ts, on bytes as
--   natural numbers. Its loops have fuel, and the length of the buffer is enough.
-- - Auth: the codes of src/auth/auth.service.ts, and src/rate-limit.ts. Random codes and sha256 are
--   parameters.
-- - Receipts: src/services/receiptReconciliation.ts and src/services/disputeGuard.ts. What
--   `detectPromptInjection` of src/services/inputGuard.ts finds in a text is a parameter.
-- - Workers: Outbox is what the outbox workers share, on rows of their own. Transfer is
--   src/workers/transfer-worker.ts, with `requeueFailedTransfer` of the administrators. Penalty is
--   src/workers/penalty.worker.ts. Compensation is src/workers/buyer-compensation.worker.ts. Ghosts
--   is `expireGhostMissions` of src/workers/mission-lifecycle.ts: its loop has fuel, and one more
--   than the ghosts there are is enough. Reconciliation has checks 1 and 2 and the timeouts 6 and 7
--   of src/workers/reconciliation.ts. Batch is src/workers/outbox-claim.ts. DisputePenalty is
--   src/workers/disputePenaltyWorker.ts and src/workers/reaper.worker.ts. DisputeRefund is
--   src/workers/disputeResolutionWorker.ts, with `triggerAutoRefundWatchdog` of
--   src/services/disputeResolution.service.ts. FundingReconciliation is
--   src/workers/funding-reconciliation.ts. A round of a worker carries what the clock and the ages
--   and locks of the rows decide, and what the database and Stripe answer.
-- - Books: the invariants of src/workers/reconciliation.ts over the ledger, and the events.
-- - Samples: a small database for the tests.
--
-- Requests run beside each other. Where the source waits (for Stripe, or for a row lock), the model
-- applies a parameter, named `before`, `between`, `during`, `meanwhile` or `locked`, to the
-- database: whatever other requests commit in the meantime. Theorems hold for every such function,
-- or say what they ask of it.
--
-- Not modelled: HTTP, JSON schemas, and of the authentication the routes, passwords, tokens and
-- cookies; notifications, monitoring and logging; the check of Stripe's signature; the text of
-- alerts and of log messages; the front end; the other workers of src/workers (the outbox of
-- receipts, the maintenance); checks 3 to 5 of the reconciliation; the catalogue of missions, their
-- creation, and the accounts of users; the extraction of receipts and the patterns of
-- src/services/inputGuard.ts. The idempotency keys of Stripe are the constructors of StripeCall
-- with their arguments. A handler's last read of the row that it returns is left out, since it
-- writes nothing.
pub mod Base
pub mod Schema
pub mod App
pub mod Receipts
pub mod Auth
pub mod Images
pub mod Samples
pub mod Money
pub mod Missions
pub mod Webhook
pub mod Books
pub mod Cleanup
pub mod Disputes
pub mod Escrow
pub mod Jit
pub mod Watchdog
pub mod Workers
