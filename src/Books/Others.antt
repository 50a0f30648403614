-- ===== src/Books/Others.antt =====
-- `handlePaymentFailed`, `handleCheckoutCompleted` and `backfillIssuingLog` of
-- src/stripe/webhook.route.ts and the balance of the books.
use waylo_app.Base.{
  ℕ, ◌≡◌, ◌∙◌, Bool, Option, none, some, List, ◌==◌, if◌then◌else◌, arith, ◌⊎◌, inl, inr,
  Option-cases, refl,
}
use mathlib.Core.Path.{sym, subst, ap}
use waylo_app.Base.Table.{find_first}
use waylo_app.Schema.Status.{EscrowStatus, is_escrow_status_iff}
use waylo_app.Schema.Rows.{Mission, Escrow, LedgerEntry}
use waylo_app.App.{Db, World, ok}
use waylo_app.Webhook.{
  EffectOutcome, create_escrow, fund_mission, checkout_with_intent, handle_checkout_completed,
  failed_found, handle_payment_failed, backfill_issuing_log,
}
use waylo_app.Books.Defs.{IsBalanced, IsBalancedRow, BooksBalance}
use waylo_app.Books.Frame.{if_same, rebalance}

-- Issuing logs are no books.
pub backfill_issuing_log_keeps :
    (auth amount : ℕ) (approved : Bool) (w : World)
    → BooksBalance w.db
    → BooksBalance ((backfill_issuing_log auth amount approved w).1.db)
unfolding backfill_issuing_log
backfill_issuing_log_keeps auth amount approved w books =
    let same : ((backfill_issuing_log auth amount approved w).1.db.ledger ≡ w.db.ledger)
        × ((backfill_issuing_log auth amount approved w).1.db.escrows ≡ w.db.escrows) =
      ground arith in
    λ n. rw (same.0, same.1) (books n)

failed_found_writes :
    (id : ℕ) (e0 e : Escrow) (w : World) {x : EffectOutcome}
    → w.db.escrows.row id ≡ some e
    → (failed_found (some (id, e0)) w).0 ≡ ok x
    → let v = (failed_found (some (id, e0)) w).1 in
      (v.db.ledger ≡ w.db.ledger)
      × ((v.db.escrows ≡ w.db.escrows)
          ⊎ ((e.status ≡ EscrowStatus.held)
              × (e.captured_amount_cents ≡ 0)
              × ((n : ℕ)
                  → v.db.escrows.row n ≡ (
                      if n == id
                      then some (record e { status = EscrowStatus.cancelled })
                      else w.db.escrows.row n))))
unfolding failed_found
failed_found_writes id e0 e w {x} there done =
    ground (arith, there, done, is_escrow_status_iff e.status EscrowStatus.held)

failed_found_gone :
    (id : ℕ) (e0 : Escrow) (w : World)
    → w.db.escrows.row id ≡ none
    → let v = (failed_found (some (id, e0)) w).1 in
      (v.db.ledger ≡ w.db.ledger) × (v.db.escrows ≡ w.db.escrows)
unfolding failed_found
failed_found_gone id e0 w gone = ground (arith, gone)

-- An escrow of which nothing was captured stays balanced when it is cancelled.
cancelled-IsBalanced :
    (l : List LedgerEntry) (id : ℕ) (e : Escrow)
    → IsBalanced l id e
    → e.status ≡ EscrowStatus.held
    → IsBalanced l id (record e { status = EscrowStatus.cancelled })
cancelled-IsBalanced l id e b held = record {
  captured = b.captured;
  within = b.within;
  released = ground arith;
  refunded = ground arith;
  unpaid = λ h. b.unpaid (ground arith);
}

failed_found_keeps :
    (hit : Option (ℕ × Escrow)) (w : World) {x : EffectOutcome}
    → BooksBalance w.db
    → (failed_found hit w).0 ≡ ok x
    → BooksBalance ((failed_found hit w).1.db)
unfolding failed_found
failed_found_keeps none w books done = books
failed_found_keeps (some (id, e0)) w {x} books done =
    let v = (failed_found (some (id, e0)) w).1 in
    elim (Option-cases (w.db.escrows.row id)) [
      | inl gone ↦
          let (ledger, escrows) = failed_found_gone id e0 w gone in
          λ n. rw (ledger, escrows) (books n)
      | inr (e, there) ↦
          let (ledger, change) = failed_found_writes id e0 e w {x = x} there done in
          elim change [
            | inl escrows ↦ λ n. rw (ledger, escrows) (books n)
            | inr (held, empty, rows) ↦
                rebalance w.db (v.db) id books (λ n other. ground (arith, rows n))
                  (λ n t other. rw ledger refl)
                  (rw (ledger, rows id, if_same id)
                    (cancelled-IsBalanced w.db.ledger id e (rw there at (books id)) held))
          ]
    ]

pub handle_payment_failed_keeps :
    (between : Db → Db) (intent : ℕ) (w : World) {x : EffectOutcome}
    → BooksBalance (between w.db)
    → (handle_payment_failed between intent w).0 ≡ ok x
    → BooksBalance ((handle_payment_failed between intent w).1.db)
unfolding handle_payment_failed
handle_payment_failed_keeps between intent w {x} later done =
    failed_found_keeps (find_first (λ e. e.stripe_payment_intent_id == intent) w.db.escrows)
      (record w { db = between w.db }) {x = x} later done

fund_mission_writes :
    (between : Db → Db) (id intent : ℕ) (m : Mission) (w : World) {x : EffectOutcome}
    → (fund_mission between id intent (some m) w).0 ≡ ok x
    → let v = (fund_mission between id intent (some m) w).1 in
      (v.db.ledger ≡ (between w.db).ledger)
      × ((between w.db).escrows.row id ≡ none)
      × ((n : ℕ)
          → v.db.escrows.row n ≡ (
              if n == id
              then some (record {
                stripe_payment_intent_id = intent;
                captured_amount_cents = 0;
                status = EscrowStatus.held;
                spending_limit_cents = m.budget_cents;
              })
              else (between w.db).escrows.row n))
unfolding fund_mission create_escrow
fund_mission_writes between id intent m w {x} done = ground (arith, done)

-- A new escrow is balanced: nothing was journalled for it.
new-IsBalanced :
    (l : List LedgerEntry) (id : ℕ) (e : Escrow)
    → IsBalancedRow l id none
    → e.captured_amount_cents ≡ 0
    → e.status ≡ EscrowStatus.held
    → IsBalanced l id e
new-IsBalanced l id e b empty held = record {
  captured = ground (arith, b.0);
  within = ground (arith, b.1, b.2);
  released = ground arith;
  refunded = ground arith;
  unpaid = λ h. b.2;
}

fund_mission_keeps :
    (between : Db → Db) (id intent : ℕ) (row : Option Mission) (w : World) {x : EffectOutcome}
    → BooksBalance w.db
    → BooksBalance (between w.db)
    → (fund_mission between id intent row w).0 ≡ ok x
    → BooksBalance ((fund_mission between id intent row w).1.db)
unfolding fund_mission
fund_mission_keeps between id intent none w books later done = books
fund_mission_keeps between id intent (some m) w {x} books later done =
    let (ledger, free, rows) = fund_mission_writes between id intent m w {x = x} done in
    rebalance (between w.db) ((fund_mission between id intent (some m) w).1.db) id later
      (λ n other. ground (arith, rows n)) (λ n t other. rw ledger refl)
      (rw (ledger, rows id, if_same id)
        (new-IsBalanced (between w.db).ledger id _ (rw free at (later id)) refl refl))

pub handle_checkout_completed_keeps :
    (between : Db → Db) (mission intent : Option ℕ) (w : World) {x : EffectOutcome}
    → BooksBalance w.db
    → BooksBalance (between w.db)
    → (handle_checkout_completed between mission intent w).0 ≡ ok x
    → BooksBalance ((handle_checkout_completed between mission intent w).1.db)
unfolding handle_checkout_completed checkout_with_intent
handle_checkout_completed_keeps between none intent w books later done = books
handle_checkout_completed_keeps between (some id) none w books later done = books
handle_checkout_completed_keeps between (some id) (some intent) w {x} books later done =
    elim (Option-cases (w.db.escrows.row id)) [
      | inl free ↦
          let same : handle_checkout_completed between (some id) (some intent) w
              ≡ fund_mission between id intent (w.db.missions.row id) w =
            ground (arith, free) in
          subst (λ r. BooksBalance (r.1.db)) (sym same)
            (fund_mission_keeps between id intent (w.db.missions.row id) w {x = x} books later
              (sym (ap (λ r. r.0) same) ∙ done))
      | inr (e, taken) ↦
          let same : (handle_checkout_completed between (some id) (some intent) w).1 ≡ w =
            ground (arith, taken) in
          subst (λ v. BooksBalance (v.db)) (sym same) books
    ]
