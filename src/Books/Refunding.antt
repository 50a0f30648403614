-- ===== src/Books/Refunding.antt =====
-- `applyRefund` of src/stripe/webhook.route.ts and the balance of the books.
use waylo_app.Base.{
  ℕ, ◌-◌, ◌≤◌, ◌≡◌, ◌∙◌, ◌≢◌, Option, none, some, List, [], ◌∷◌, ◌++◌, ◌==◌, leb, if◌then◌else◌,
  arith, inl, inr, Bool-cases, Option-cases, refl,
}
use mathlib.Core.Path.{sym, subst, ap}
use waylo_app.Base.Table.{find_first, find_first_sound}
use waylo_app.Schema.Status.{EscrowStatus, LedgerType, is_escrow_status_iff}
use waylo_app.Schema.Rows.{Escrow, LedgerEntry}
use waylo_app.App.{Db, World, ok}
use waylo_app.Webhook.{sum_of, entry, EffectOutcome, refund_delta, refund_found, apply_refund}
use waylo_app.Books.Defs.{paid_out, IsBalanced, BooksBalance, KeepsCaptures}
use waylo_app.Books.Ledger.{sum_of-append}
use waylo_app.Books.Frame.{if_same, rebalance, sum_of-append_other}

-- an escrow of which `total` cents are refunded
abbrev refunded_escrow : (captured total : ℕ) → Escrow → Escrow
refunded_escrow captured total e = record e {
  status = if leb captured total then EscrowStatus.refunded else EscrowStatus.partially_refunded;
}

refund_delta_writes :
    (now id captured total so_far : ℕ) (sub : Option ℕ) (w : World) {e : Escrow} {x : EffectOutcome}
    → w.db.escrows.row id ≡ some e
    → (refund_delta now id captured total so_far sub w).0 ≡ ok x
    → let v = (refund_delta now id captured total so_far sub w).1 in
      (so_far ≤ total)
      × (total ≤ captured)
      × (v.db.ledger ≡ w.db.ledger ++ (entry id LedgerType.refund (total - so_far) ∷ []))
      × (e.status ≢ EscrowStatus.released)
      × ((n : ℕ)
          → v.db.escrows.row n
            ≡ (if n == id then some (refunded_escrow captured total e) else w.db.escrows.row n))
unfolding refund_delta
refund_delta_writes now id captured total so_far none w {e} {x} there done = ground (
  arith,
  there,
  done,
  is_escrow_status_iff e.status EscrowStatus.held,
  is_escrow_status_iff e.status EscrowStatus.partially_refunded,
)
refund_delta_writes now id captured total so_far (some s) w {e} {x} there done = ground (
  arith,
  there,
  done,
  is_escrow_status_iff e.status EscrowStatus.held,
  is_escrow_status_iff e.status EscrowStatus.partially_refunded,
)

refund_delta_found :
    (now id captured total so_far : ℕ) (sub : Option ℕ) (w : World) {x : EffectOutcome}
    → w.db.escrows.row id ≡ none
    → (refund_delta now id captured total so_far sub w).0 ≢ ok x
unfolding refund_delta
refund_delta_found now id captured total so_far sub w gone done = ground (arith, gone, done)

-- A refund of the difference to the total balances the escrow again.
refund-IsBalanced :
    (l : List LedgerEntry) (id captured total : ℕ) (e : Escrow)
    → IsBalanced l id e
    → e.status ≢ EscrowStatus.released
    → e.captured_amount_cents ≡ captured
    → sum_of l id LedgerType.refund ≤ total
    → total ≤ captured
    → IsBalanced
        (l ++ (entry id LedgerType.refund (total - sum_of l id LedgerType.refund) ∷ []))
        id
        (refunded_escrow captured total e)
unfolding paid_out
refund-IsBalanced l id captured total e b open_ same grows covered = record {
  captured = simp sum_of-append (ground (arith, b.captured));
  within = simp sum_of-append (ground (arith, b.unpaid open_));
  released = ground arith;
  refunded = simp sum_of-append (ground (arith, b.unpaid open_));
  unpaid = λ h. simp sum_of-append (ground (arith, b.unpaid open_));
}

refund_delta_keeps :
    (now id captured total : ℕ) (sub : Option ℕ) (w : World) {x : EffectOutcome}
    → BooksBalance w.db
    → ((e : Escrow) → w.db.escrows.row id ≡ some e → e.captured_amount_cents ≡ captured)
    → (refund_delta now id captured total (sum_of w.db.ledger id LedgerType.refund) sub w).0 ≡ ok x
    → BooksBalance
        ((refund_delta now id captured total (sum_of w.db.ledger id LedgerType.refund) sub w).1.db)
refund_delta_keeps now id captured total sub w {x} books same done =
    elim (Option-cases (w.db.escrows.row id)) [
      | inl gone ↦ absurd (
          refund_delta_found now id captured total (sum_of w.db.ledger id LedgerType.refund) sub w
            {x = x} gone done)
      | inr (e, there) ↦
          let so_far = sum_of w.db.ledger id LedgerType.refund in
          let (grows, covered, ledger, open_, rows) =
            refund_delta_writes now id captured total so_far sub w {e = e} {x = x} there done in
          rebalance w.db ((refund_delta now id captured total so_far sub w).1.db) id books
            (λ n other. ground (arith, rows n))
            (λ n t other.
              rw ledger
                (sum_of-append_other w.db.ledger id (total - so_far) LedgerType.refund n t other))
            (rw (ledger, rows id, if_same id)
              (refund-IsBalanced w.db.ledger id captured total e (rw there at (books id)) open_
                (same e there) grows covered))
    ]

refund_found_keeps :
    (between : Db → Db) (now total : ℕ) (sub : Option ℕ) (hit : Option (ℕ × Escrow)) (w : World)
    {x : EffectOutcome}
    → ((id : ℕ) (e : Escrow) → hit ≡ some (id, e) → w.db.escrows.row id ≡ some e)
    → BooksBalance w.db
    → BooksBalance (between w.db)
    → KeepsCaptures w.db (between w.db)
    → (refund_found between now total sub hit w).0 ≡ ok x
    → BooksBalance ((refund_found between now total sub hit w).1.db)
unfolding refund_found
refund_found_keeps between now total sub none w sound books later keeps done = books
refund_found_keeps between now total sub (some (id, e)) w {x} sound books later keeps done =
    let start = record w { db = between w.db } in
    let so_far = sum_of (between w.db).ledger id LedgerType.refund in
    elim (Bool-cases (leb e.captured_amount_cents 0)) [
      | inl never ↦ absurd (ground (arith, never, done))
      | inr paid ↦ elim (Bool-cases (total == so_far)) [
        | inl again ↦
            let same : (refund_found between now total sub (some (id, e)) w).1.db ≡ between w.db =
              ground (arith, paid, again) in
            subst BooksBalance (sym same) later
        | inr more ↦
            let same : refund_found between now total sub (some (id, e)) w
                ≡ refund_delta now id e.captured_amount_cents total so_far sub start =
              ground (arith, paid, more) in
            subst (λ r. BooksBalance (r.1.db)) (sym same)
              (refund_delta_keeps now id e.captured_amount_cents total sub start {x = x} later
                (λ e' now_there. keeps id e e' (sound id e refl) now_there (ground (arith, paid)))
                (sym (ap (λ r. r.0) same) ∙ done))
      ]
    ]

pub apply_refund_keeps :
    (between : Db → Db) (now : ℕ) (intent : Option ℕ) (total : ℕ) (sub : Option ℕ) (w : World)
    {x : EffectOutcome}
    → BooksBalance w.db
    → BooksBalance (between w.db)
    → KeepsCaptures w.db (between w.db)
    → (apply_refund between now intent total sub w).0 ≡ ok x
    → BooksBalance ((apply_refund between now intent total sub w).1.db)
unfolding apply_refund
apply_refund_keeps between now none total sub w books later keeps done = books
apply_refund_keeps between now (some intent) total sub w {x} books later keeps done =
    let test = λ (e : Escrow). e.stripe_payment_intent_id == intent in
    refund_found_keeps between now total sub (find_first test w.db.escrows) w {x = x}
      (λ id e hit. (find_first_sound test w.db.escrows hit).0) books later keeps done
