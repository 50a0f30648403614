-- ===== src/Workers/Reconciliation/Timeouts.antt =====
-- The two timeouts of src/workers/reconciliation.ts keep the books balanced.
mod Examples
use waylo_app.Base.{
  ℕ, suc, ◌≡◌, refl, arith, Bool, Option, List, [], ◌∷◌, ◌++◌, not, ltb, ◌==◌, ◌&&◌, if◌then◌else◌,
}
use waylo_app.Base.Table.{Table}
use waylo_app.Schema.Status.{LedgerType, EscrowStatus, is_escrow_status}
use waylo_app.Schema.Rows.{Mission, Escrow, LedgerEntry}
use waylo_app.Watchdog.{Attempt, Outcome, returned, exhausted_error}
use waylo_app.App.{
  Db, World, AlertCode, StripeCall, CaptureContext, Code, Fault, capture_error, watchdog_exhausted,
  Action, Done, ◌>>=◌, ◌>>◌, pure, throw, read, or_throw, add_ledger, emit,
}
use waylo_app.App.Keeps.{
  Order, Keeps, pure-Keeps, throw-Keeps, read-Keeps, or_throw-Keeps, throw_if-Keeps, if-Keeps,
  others-Keeps, modify-Keeps, emit-Keeps, stripe_call-Keeps, update_mission-Keeps,
  transaction-Keeps, catch-Keeps, bind-Keeps,
}
use waylo_app.Money.{substitution_hard_cap_cents}
use waylo_app.Escrow.{
  held_budget_cents, capture_escrow_funds, run_capture, outcome_or_throw, capture_amount_cents,
}
use waylo_app.Webhook.{sum_of, entry}
use waylo_app.Books.{BooksBalance}
use waylo_app.Books.Ledger.{sum_of-append}
use waylo_app.Books.Frame.{same_sums}
use waylo_app.Workers.Reconciliation.{
  TimeoutRound, customs_timeout, customs_timeouts, is_locked_mission, to_refunded, is_uncollected,
  to_auto_validated, capture_or_alert, collection_timeout, collection_timeouts, stalled_customs,
  stalled_collection, run_timeouts, check_invariants,
}
use waylo_app.Workers.Reconciliation.Checks.{balanced_books_silent}

-- Balanced books stay balanced.
abbrev pub KeepsBalance : Db → Db → Type 0
KeepsBalance db db' = BooksBalance db → BooksBalance db'

balance : Order KeepsBalance
balance = record { here = λ db b. b; along = λ a b c p q h. q (p h) }

-- An entry of nothing changes no sum.
nothing_refunded :
    (db : Db) (id : ℕ)
    → KeepsBalance db (record db { ledger = db.ledger ++ (entry id LedgerType.refund 0 ∷ []) })
nothing_refunded db id books n =
    same_sums db.ledger (db.ledger ++ (entry id LedgerType.refund 0 ∷ [])) n (db.escrows.row n)
      (λ t. ground (arith, sum_of-append db.ledger id 0 LedgerType.refund n t)) (books n)

refund-Keeps : (id : ℕ) → Keeps KeepsBalance (add_ledger (entry id LedgerType.refund 0))
refund-Keeps id = record { keeps = λ w. nothing_refunded w.db id }

missions_free : (db : Db) (t : Table Mission) → KeepsBalance db (record db { missions = t })
missions_free db t books = books

module _ (round : TimeoutRound) (polite : (db : Db) → KeepsBalance db (round.between db)) where
  customs_timeout-Keeps : (id intent : ℕ) → Keeps KeepsBalance (customs_timeout round id intent)
  unfolding customs_timeout
  customs_timeout-Keeps id intent =
      bind-Keeps balance (stripe_call-Keeps balance (StripeCall.refund_customs intent id)) (λ _.
        bind-Keeps balance (others-Keeps balance round.between polite) (λ _.
          if-Keeps balance round.cancels
            (transaction-Keeps balance (
              bind-Keeps balance
                (update_mission-Keeps balance id is_locked_mission to_refunded missions_free)
                (λ _. refund-Keeps id)))
            (emit-Keeps balance AlertCode.customs_timeout_refund_failed)))

  run_capture-Keeps :
      (c : StripeCall) → Keeps KeepsBalance (run_capture round.attempts round.between c)
  unfolding run_capture
  run_capture-Keeps c = record { keeps = λ w. polite w.db }

  outcome-Keeps : (x : Outcome Done) → Keeps KeepsBalance (outcome_or_throw x)
  outcome-Keeps (returned a) = pure-Keeps balance tt
  outcome-Keeps (exhausted_error n e xs) = throw-Keeps balance watchdog_exhausted

  capture-Keeps :
      (id : ℕ) (c : CaptureContext)
      → Keeps KeepsBalance (capture_escrow_funds round.attempts round.between id c)
  unfolding capture_escrow_funds
  capture-Keeps id c =
      bind-Keeps balance
        (bind-Keeps balance (read-Keeps balance (λ db. db.escrows.row id))
          (λ o. or_throw-Keeps balance o (capture_error Code.escrow_not_found)))
        (λ e.
          bind-Keeps balance
            (throw_if-Keeps balance (not (is_escrow_status e.status EscrowStatus.held))
              (capture_error Code.escrow_not_held))
            (λ _.
              bind-Keeps balance
                (bind-Keeps balance (read-Keeps balance (λ db. db.missions.row id))
                  (λ o. or_throw-Keeps balance o Fault.unexpected))
                (λ m.
                  bind-Keeps balance
                    (throw_if-Keeps balance
                      (ltb (substitution_hard_cap_cents m.budget_cents) (held_budget_cents m))
                      (capture_error Code.substitution_hard_cap_exceeded))
                    (λ _. bind-Keeps balance (run_capture-Keeps _) (λ x.
                      bind-Keeps balance (outcome-Keeps x)
                        (λ _. pure-Keeps balance (capture_amount_cents m)))))))

  collection_timeout-Keeps : (id : ℕ) → Keeps KeepsBalance (collection_timeout round id)
  unfolding collection_timeout capture_or_alert
  collection_timeout-Keeps id =
      bind-Keeps balance
        (catch-Keeps balance
          (bind-Keeps balance (capture-Keeps id CaptureContext.timeout)
            (λ _. pure-Keeps balance Bool.true))
          (λ e.
            bind-Keeps balance (emit-Keeps balance AlertCode.collection_timeout_capture_failed)
              (λ _. pure-Keeps balance Bool.false)))
        (λ b.
          if-Keeps balance b
            (bind-Keeps balance
              (update_mission-Keeps balance id is_uncollected to_auto_validated missions_free)
              (λ _. pure-Keeps balance tt))
            (pure-Keeps balance tt))

customs_timeouts-Keeps :
    (rounds : ℕ → TimeoutRound) (found : List (ℕ × ℕ))
    → ((i : ℕ) (db : Db) → KeepsBalance db ((rounds i).between db))
    → Keeps KeepsBalance (customs_timeouts rounds found)
unfolding customs_timeouts
customs_timeouts-Keeps rounds [] polite = pure-Keeps balance tt
customs_timeouts-Keeps rounds ((id, intent) ∷ rest) polite =
    bind-Keeps balance (customs_timeout-Keeps (rounds 0) (polite 0) id intent)
      (λ _. customs_timeouts-Keeps (λ i. rounds (suc i)) rest (λ i. polite (suc i)))

collection_timeouts-Keeps :
    (rounds : ℕ → TimeoutRound) (found : List ℕ)
    → ((i : ℕ) (db : Db) → KeepsBalance db ((rounds i).between db))
    → Keeps KeepsBalance (collection_timeouts rounds found)
unfolding collection_timeouts
collection_timeouts-Keeps rounds [] polite = pure-Keeps balance tt
collection_timeouts-Keeps rounds (id ∷ rest) polite =
    bind-Keeps balance (collection_timeout-Keeps (rounds 0) (polite 0) id)
      (λ _. collection_timeouts-Keeps (λ i. rounds (suc i)) rest (λ i. polite (suc i)))

-- The two timeouts keep the books balanced, whatever they find and whatever Stripe answers, if what
-- others commit meanwhile does; and then the first check of the next run raises no alert.
pub run_timeouts-BooksBalance :
    (stalled : ℕ → Bool) (cutoff : ℕ) (rounds rounds' : ℕ → TimeoutRound) (w : World)
    → ((i : ℕ) (db : Db) → KeepsBalance db ((rounds i).between db))
    → ((i : ℕ) (db : Db) → KeepsBalance db ((rounds' i).between db))
    → BooksBalance w.db
    → BooksBalance (run_timeouts stalled cutoff rounds rounds' w).1.db
      × (check_invariants (run_timeouts stalled cutoff rounds rounds' w).1.db ≡ [])
unfolding run_timeouts
run_timeouts-BooksBalance stalled cutoff rounds rounds' w polite polite' books =
    let kept =
      (bind-Keeps balance (read-Keeps balance (λ db. stalled_customs stalled db db.missions.keys))
          (λ customs. bind-Keeps balance (customs_timeouts-Keeps rounds customs polite) (λ _.
            bind-Keeps balance
              (read-Keeps balance (λ db. stalled_collection cutoff db db.missions.keys))
              (λ deposited. collection_timeouts-Keeps rounds' deposited polite')))).keeps
        w books in
    (kept, balanced_books_silent _ kept)
