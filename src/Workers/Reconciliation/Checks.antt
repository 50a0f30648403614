-- ===== src/Workers/Reconciliation/Checks.antt =====
-- When the first check of src/workers/reconciliation.ts is silent.
use waylo_app.Base.{
  ℕ, ◌≤◌, ◌≡◌, ◌↔◌, ◌⊎◌, ◌+◌, ◌&&◌, inl, inr, refl, arith, Bool, true, false, if◌then◌else◌, Option,
  none, some, List, [], ◌∷◌, elem, ◌==◌, Option-cases, Bool-cases,
}
use mathlib.Core.Path.{sym, subst}
use mathlib.Core.List.{append-eq-nil_iff}
use waylo_app.Base.Totals.{==-refl}
use waylo_app.Schema.Status.{
  LedgerType, released, refunded, is_escrow_status, is_escrow_status_iff, is_ledger_type,
}
use waylo_app.Schema.Rows.{Escrow, LedgerEntry}
use waylo_app.App.{Db, AlertCode}
use waylo_app.Webhook.{sum_of}
use waylo_app.Books.{paid_out, IsBalanced, IsBalancedRow, BooksBalance}
use waylo_app.Workers.Reconciliation.{outflow_of, check_escrow, check_rows, check_invariants}

-- The entries by which money leaves an escrow: to the traveler, to the platform, back to the buyer's
-- card, and to the buyer's wallet. The two of an arbitrage of fraud are paid from elsewhere.
abbrev pub leaves_escrow : LedgerType → Bool
leaves_escrow LedgerType.capture = false
leaves_escrow LedgerType.payout = true
leaves_escrow LedgerType.commission = true
leaves_escrow LedgerType.refund = true
leaves_escrow LedgerType.buyer_wallet_credit = true
leaves_escrow LedgerType.fraud_penalty_collected = false
leaves_escrow LedgerType.buyer_refund_compensation = false

-- all that has left the escrow, entry by entry
unfoldable pub spent : List LedgerEntry → ℕ → ℕ
spent [] id = 0
spent (x ∷ l) id =
    let rest = spent l id in
    if (x.escrow_id == id) && leaves_escrow x.type then x.amount_cents + rest else rest

outflow_entry :
    (t : LedgerType) (here : Bool) (a p c r b : ℕ)
    → (if here && is_ledger_type t LedgerType.payout then a else 0)
        + p
        + ((if here && is_ledger_type t LedgerType.commission then a else 0) + c)
        + ((if here && is_ledger_type t LedgerType.refund then a else 0) + r)
        + ((if here && is_ledger_type t LedgerType.buyer_wallet_credit then a else 0) + b)
      ≡ (if here && leaves_escrow t then a + (p + c + r + b) else p + c + r + b)
outflow_entry LedgerType.capture here a p c r b = ground arith
outflow_entry LedgerType.payout here a p c r b = ground arith
outflow_entry LedgerType.commission here a p c r b = ground arith
outflow_entry LedgerType.refund here a p c r b = ground arith
outflow_entry LedgerType.buyer_wallet_credit here a p c r b = ground arith
outflow_entry LedgerType.fraud_penalty_collected here a p c r b = ground arith
outflow_entry LedgerType.buyer_refund_compensation here a p c r b = ground arith

outflow_of-spent : (l : List LedgerEntry) (id : ℕ) → outflow_of l id ≡ spent l id
unfolding outflow_of spent sum_of
outflow_of-spent [] id = refl
outflow_of-spent (x ∷ l) id = rw (sym (outflow_of-spent l id)) (
    outflow_entry x.type (x.escrow_id == id) x.amount_cents (sum_of l id LedgerType.payout)
      (sum_of l id LedgerType.commission) (sum_of l id LedgerType.refund)
      (sum_of l id LedgerType.buyer_wallet_credit))

-- A, B and C of the header of src/workers/reconciliation.ts, for one escrow.
pub record IsAccounted (l : List LedgerEntry) (id : ℕ) (e : Escrow) : Type 0 where
  pub a : sum_of l id LedgerType.capture ≡ e.captured_amount_cents
  pub b : spent l id ≤ sum_of l id LedgerType.capture
  pub c :
      (e.status ≡ released) ⊎ (e.status ≡ refunded) → spent l id ≡ sum_of l id LedgerType.capture

silent :
    (l : List LedgerEntry) (id : ℕ) (e : Escrow) → check_escrow l id e ≡ [] → IsAccounted l id e
unfolding check_escrow is_escrow_status
silent l id e h = ground (arith, h, outflow_of-spent l id, is_escrow_status_iff e.status released)

accounted :
    (l : List LedgerEntry) (id : ℕ) (e : Escrow) → IsAccounted l id e → check_escrow l id e ≡ []
unfolding check_escrow is_escrow_status
accounted l id e h = ground (arith, h.a, h.b, h.c, outflow_of-spent l id)

-- Every escrow of the database that is in the table satisfies A, B and C.
abbrev pub AllAccounted : Db → Type 0
AllAccounted db =
    (k : ℕ) (e : Escrow)
    → elem k db.escrows.keys ≡ true
    → db.escrows.row k ≡ some e
    → IsAccounted db.ledger k e

module _ (l : List LedgerEntry) (row : ℕ → Option Escrow) where
  row_silent :
      (k j : ℕ) (e : Escrow)
      → k ≡ j
      → row k ≡ some e
      → elim (row j) as (λ r. List AlertCode) [ none ↦ [] | some x ↦ check_escrow l j x ] ≡ []
      → check_escrow l k e ≡ []
  row_silent k j e same there first = ground (arith, same, there, first)

  silent_row :
      (j : ℕ)
      → ((e : Escrow) → row j ≡ some e → check_escrow l j e ≡ [])
      → elim (row j) as (λ r. List AlertCode) [ none ↦ [] | some x ↦ check_escrow l j x ] ≡ []
  silent_row j h = elim (Option-cases (row j)) [
    | inl gone ↦ ground (arith, gone)
    | inr (e, there) ↦ ground (arith, there, h e there)
  ]

  rows_silent :
      (ks : List ℕ)
      → check_rows l row ks ≡ []
      → (k : ℕ) (e : Escrow) → elem k ks ≡ true
      → row k ≡ some e
      → check_escrow l k e ≡ []
  unfolding check_rows
  rows_silent [] h k e among there = ground arith
  rows_silent (j ∷ ks) h k e among there =
      let (first, rest) = append-eq-nil_iff.0 h in
      elim (Bool-cases (k == j)) [
        | inl same ↦ row_silent k j e (ground (arith, same)) there first
        | inr other ↦ rows_silent ks rest k e (ground (arith, among, other)) there
      ]

  silent_rows :
      (ks : List ℕ)
      → ((k : ℕ) (e : Escrow) → elem k ks ≡ true → row k ≡ some e → check_escrow l k e ≡ [])
      → check_rows l row ks ≡ []
  unfolding check_rows
  silent_rows [] h = refl
  silent_rows (j ∷ ks) h = append-eq-nil_iff.1 (
    silent_row j (λ e there. h j e (rw (==-refl j) refl) there),
    silent_rows ks (λ k e among there. h k e (ground (arith, among)) there),
  )

-- The first check of the reconciliation raises no alert exactly where every escrow satisfies the
-- invariants: its captures are what is recorded on it, no more leaves it than was captured, and all of
-- it has left where it is released or refunded.
pub check_invariants_iff : (db : Db) → (check_invariants db ≡ []) ↔ AllAccounted db
unfolding check_invariants
check_invariants_iff db = (
  λ h k e among there.
      silent db.ledger k e (rows_silent db.ledger db.escrows.row db.escrows.keys h k e among there),
  λ all.
      silent_rows db.ledger db.escrows.row db.escrows.keys
        (λ k e among there. accounted db.ledger k e (all k e among there)),
)

balanced-IsAccounted :
    (l : List LedgerEntry) (id : ℕ) (e : Escrow) → IsBalanced l id e → IsAccounted l id e
unfolding outflow_of paid_out
balanced-IsAccounted l id e b = record {
  a = b.captured;
  b = omega (arith, b.within, b.captured, outflow_of-spent l id);
  c = λ h. elim h [
    | inl is ↦ omega (arith, b.released is, b.captured, outflow_of-spent l id)
    | inr is ↦ omega (arith, b.refunded is, b.captured, outflow_of-spent l id)
  ];
}

-- Where the books balance, as the webhook keeps them, the first check raises no alert.
pub balanced_books_silent : (db : Db) → BooksBalance db → check_invariants db ≡ []
balanced_books_silent db books = (check_invariants_iff db).1 (λ k e among there.
    balanced-IsAccounted db.ledger k e (subst (IsBalancedRow db.ledger k) there (books k)))
