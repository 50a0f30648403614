-- ===== src/Books/CaptureKeeps.antt =====
-- `handleCapture` of src/stripe/webhook.route.ts and the balance of the books.
use waylo_app.Base.{
  ℕ, ◌+◌, ◌≤◌, ◌≡◌, ◌∙◌, Option, none, some, List, [], ◌∷◌, ◌++◌, ◌==◌, if◌then◌else◌, arith, inl,
  inr, Option-cases,
}
use mathlib.Core.Path.{sym, subst, ap}
use waylo_app.Base.Table.{find_first}
use waylo_app.Schema.Status.{EscrowStatus, LedgerType}
use waylo_app.Schema.Rows.{Mission, Escrow, LedgerEntry}
use waylo_app.App.{Db, World, ok}
use waylo_app.Webhook.{
  sum_of, entry, EffectOutcome, capture_locked, capture_found, handle_capture, traveler_of,
  destination_account,
}
use waylo_app.Books.Defs.{paid_out, outflow, IsBalanced, BooksBalance}
use waylo_app.Books.Ledger.{sum_of-append}
use waylo_app.Books.Frame.{if_same, rebalance, sum_of-append_other}
use waylo_app.Books.Settling.{settled_ledger, settled_ledger_sums, settled_other}
use waylo_app.Books.Capturing.{Captured, Settled, capture_locked_writes}

-- A journalled capture changes the sum of captures only.
fresh_sums :
    (l : List LedgerEntry) (id captured n : ℕ)
    → let l' = l ++ (entry id LedgerType.capture captured ∷ []) in
      (paid_out l' n ≡ paid_out l n)
      × (sum_of l' n LedgerType.refund ≡ sum_of l n LedgerType.refund)
      × (sum_of l' n LedgerType.capture
          ≡ sum_of l n LedgerType.capture + (if id == n then captured else 0))
unfolding paid_out
fresh_sums l id captured n = simp sum_of-append (ground arith)

-- A journalled capture of an escrow that had none balances it.
captured-IsBalanced :
    (l : List LedgerEntry) (id captured : ℕ) (e : Escrow)
    → IsBalanced l id e
    → e.status ≡ EscrowStatus.held
    → e.captured_amount_cents ≡ 0
    → IsBalanced
        (l ++ (entry id LedgerType.capture captured ∷ []))
        id
        (record e { captured_amount_cents = captured })
unfolding paid_out
captured-IsBalanced l id captured e b held fresh = record {
  captured = simp sum_of-append (ground (arith, b.captured));
  within = simp sum_of-append (ground (arith, b.within));
  released = ground arith;
  refunded = ground arith;
  unpaid = λ h. simp sum_of-append (ground (arith, b.unpaid h));
}

-- Once a fresh escrow is settled, exactly the capture has left it.
settled_outflow :
    (l : List LedgerEntry) (id : ℕ) (m : Mission) (captured : ℕ)
    → outflow l id ≡ 0
    → m.commission_cents ≤ captured
    → let l' = settled_ledger (l ++ (entry id LedgerType.capture captured ∷ [])) id m captured in
      (paid_out l' id ≡ captured)
      × (sum_of l' id LedgerType.refund ≡ 0)
      × (sum_of l' id LedgerType.capture ≡ sum_of l id LedgerType.capture + captured)
settled_outflow l id m captured empty covered = ground (
  arith,
  empty,
  fresh_sums l id captured id,
  settled_ledger_sums (l ++ (entry id LedgerType.capture captured ∷ [])) id m captured id covered,
)

settled-IsBalanced :
    (l : List LedgerEntry) (id : ℕ) (m : Mission) (captured : ℕ) (e : Escrow)
    → IsBalanced l id e
    → e.status ≡ EscrowStatus.held
    → e.captured_amount_cents ≡ 0
    → m.commission_cents ≤ captured
    → IsBalanced
        (settled_ledger (l ++ (entry id LedgerType.capture captured ∷ [])) id m captured)
        id
        (record e { status = EscrowStatus.released; captured_amount_cents = captured })
settled-IsBalanced l id m captured e b held fresh covered =
    let empty : outflow l id ≡ 0 = ground (arith, b.within) in
    let (paid, refunds, captures) = settled_outflow l id m captured empty covered in
    record {
      captured = ground (arith, captures, b.captured);
      within = ground (arith, paid, refunds);
      released = λ h. omega (arith, paid, refunds);
      refunded = ground arith;
      unpaid = λ h. ground arith;
    }

Captured-keeps :
    (id captured : ℕ) (e : Escrow) (db db' : Db)
    → BooksBalance db
    → IsBalanced db.ledger id e
    → e.status ≡ EscrowStatus.held
    → e.captured_amount_cents ≡ 0
    → Captured id captured e db db'
    → BooksBalance db'
Captured-keeps id captured e db db' books own held fresh (ledger, rows) =
    rebalance db db' id books (λ n other. ground (arith, rows n))
      (λ n t other.
        rw ledger (sum_of-append_other db.ledger id captured LedgerType.capture n t other))
      (rw (ledger, rows id, if_same id)
        (captured-IsBalanced db.ledger id captured e own held fresh))

Settled-keeps :
    (id : ℕ) (m : Mission) (captured : ℕ) (e : Escrow) (db db' : Db)
    → BooksBalance db
    → IsBalanced db.ledger id e
    → e.status ≡ EscrowStatus.held
    → e.captured_amount_cents ≡ 0
    → Settled id m captured e db db'
    → BooksBalance db'
Settled-keeps id m captured e db db' books own held fresh (covered, ledger, rows) =
    rebalance db db' id books (λ n other. ground (arith, rows n))
      (λ n t other. rw ledger (
        (settled_other (db.ledger ++ (entry id LedgerType.capture captured ∷ [])) id m captured n t
          other)
        ∙ sum_of-append_other db.ledger id captured LedgerType.capture n t other))
      (rw (ledger, rows id, if_same id)
        (settled-IsBalanced db.ledger id m captured e own held fresh covered))

-- under the lock
capture_locked_keeps :
    (id : ℕ) (m : Mission) (account : Option ℕ) (captured : ℕ) (e : Escrow) (w : World)
    {x : EffectOutcome}
    → BooksBalance w.db
    → w.db.escrows.row id ≡ some e
    → (capture_locked id m account captured e w).0 ≡ ok x
    → BooksBalance ((capture_locked id m account captured e w).1.db)
capture_locked_keeps id m account captured e w {x} books found done =
    elim (capture_locked_writes id m account captured e w {x = x} found done) [
      | inl same ↦ subst BooksBalance (sym same) books
      | inr (held, fresh, inl c) ↦
          Captured-keeps id captured e w.db ((capture_locked id m account captured e w).1.db) books
            (rw found at (books id)) held fresh c
      | inr (held, fresh, inr c) ↦
          Settled-keeps id m captured e w.db ((capture_locked id m account captured e w).1.db) books
            (rw found at (books id)) held fresh c
    ]

capture_found_keeps :
    (between : Db → Db) (captured : ℕ) (orphan : Option ℕ) (hit : Option (ℕ × Escrow)) (w : World)
    {x : EffectOutcome}
    → BooksBalance w.db
    → BooksBalance (between w.db)
    → (capture_found between captured orphan hit w).0 ≡ ok x
    → BooksBalance ((capture_found between captured orphan hit w).1.db)
unfolding capture_found
capture_found_keeps between captured orphan none w books later done = books
capture_found_keeps between captured orphan (some (id, e)) w {x} books later done =
    elim (Option-cases (w.db.missions.row id)) [
      | inl gone ↦ absurd (ground (arith, gone, done))
      | inr (m, there) ↦ elim (Option-cases ((between w.db).escrows.row id)) [
        | inl gone ↦ absurd (ground (arith, there, gone, done))
        | inr (fresh, locked) ↦
            let start = record w { db = between w.db } in
            let account = destination_account (traveler_of m w.db) in
            let same : capture_found between captured orphan (some (id, e)) w
                ≡ capture_locked id m account captured fresh start =
              ground (arith, there, locked) in
            subst (λ r. BooksBalance (r.1.db)) (sym same)
              (capture_locked_keeps id m account captured fresh start {x = x} later locked
                (sym (ap (λ r. r.0) same) ∙ done))
      ]
    ]

pub handle_capture_keeps :
    (between : Db → Db) (intent received : ℕ) (orphan : Option ℕ) (w : World) {x : EffectOutcome}
    → BooksBalance w.db
    → BooksBalance (between w.db)
    → (handle_capture between intent received orphan w).0 ≡ ok x
    → BooksBalance ((handle_capture between intent received orphan w).1.db)
unfolding handle_capture
handle_capture_keeps between intent received orphan w {x} books later done =
    capture_found_keeps between received orphan
      (find_first (λ e. e.stripe_payment_intent_id == intent) w.db.escrows) w {x = x} books later
      done
