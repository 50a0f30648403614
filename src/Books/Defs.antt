-- ===== src/Books/Defs.antt =====
-- The invariants of the header of src/workers/reconciliation.ts.
use waylo_app.Base.{ℕ, ◌+◌, ◌≤◌, ◌<◌, ◌≡◌, ◌≢◌, List, Option, none, some}
use waylo_app.Schema.Status.{EscrowStatus, LedgerType}
use waylo_app.Schema.Rows.{Escrow, LedgerEntry}
use waylo_app.App.{Db}
use waylo_app.Webhook.{sum_of}

-- what has left an escrow towards the traveler, the platform and the buyer's wallet
unfoldable pub paid_out : List LedgerEntry → ℕ → ℕ
paid_out l id =
    sum_of l id LedgerType.payout
    + sum_of l id LedgerType.commission
    + sum_of l id LedgerType.buyer_wallet_credit

-- Σ(PAYOUT + COMMISSION + REFUND + BUYER_WALLET_CREDIT)
abbrev pub outflow : List LedgerEntry → ℕ → ℕ
outflow l id = paid_out l id + sum_of l id LedgerType.refund

-- A, B and C; and, beyond them, an escrow that is not released has paid nothing out.
pub record IsBalanced (l : List LedgerEntry) (id : ℕ) (e : Escrow) : Type 0 where
  pub captured : sum_of l id LedgerType.capture ≡ e.captured_amount_cents
  pub within : outflow l id ≤ e.captured_amount_cents
  pub released : e.status ≡ EscrowStatus.released → outflow l id ≡ e.captured_amount_cents
  pub refunded : e.status ≡ EscrowStatus.refunded → outflow l id ≡ e.captured_amount_cents
  pub unpaid : e.status ≢ EscrowStatus.released → paid_out l id ≡ 0

-- No entry is journalled for an escrow that does not exist.
abbrev pub IsUnledgered : List LedgerEntry → ℕ → Type 0
IsUnledgered l id =
    (sum_of l id LedgerType.capture ≡ 0) × (sum_of l id LedgerType.refund ≡ 0) × (paid_out l id ≡ 0)

abbrev pub IsBalancedRow : List LedgerEntry → ℕ → Option Escrow → Type 0
IsBalancedRow l id none = IsUnledgered l id
IsBalancedRow l id (some e) = IsBalanced l id e

-- The books of a database: every escrow is balanced.
abbrev pub BooksBalance : Db → Type 0
BooksBalance db = (id : ℕ) → IsBalancedRow db.ledger id (db.escrows.row id)

-- A capture that has been journalled is never changed again, and no escrow is deleted.
abbrev pub KeepsCaptures : Db → Db → Type 0
KeepsCaptures before after =
    (id : ℕ) (e e' : Escrow)
    → before.escrows.row id ≡ some e
    → after.escrows.row id ≡ some e'
    → 0 < e.captured_amount_cents
    → e'.captured_amount_cents ≡ e.captured_amount_cents
