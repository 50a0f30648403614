-- ===== src/Workers/Penalty/Attempts.antt =====
-- One attempt to collect a penalty in src/workers/penalty.worker.ts.
mod Examples
use waylo_app.Base.{
  ℕ, ◌+◌, ◌≡◌, ◌⊎◌, inl, inr, refl, ap, ◌∙◌, arith, Bool, true, false, not, ◌&&◌, Option, none,
  some, List, [], ◌∷◌, ◌++◌, leb, if◌then◌else◌, Bool-cases, Option-cases,
}
use waylo_app.Base.Table.{put, update_where}
use waylo_app.Schema.Status.{TransferStatus, EscrowStatus, is_escrow_status}
use waylo_app.Schema.Rows.{PenaltyDebitOutbox, Escrow}
use waylo_app.App.{
  Db, World, StripeCall, debit_penalty, release_hold, AlertCode, penalty_debit_abandoned, Fault,
  Result, ok, err,
}
use waylo_app.Workers.Outbox.{Round, failure_status}
use waylo_app.Workers.Penalty.{
  PenaltyRound, ClaimedPenalty, penalty_outbox, attempt, collect, record_failure, hold_of,
}

-- what a failure makes of the row `r`, with its alert if it is the last one that is allowed
abbrev pub refused :
    ℕ → ℕ → ClaimedPenalty → PenaltyDebitOutbox → World → Result TransferStatus × World
refused max id claimed r w = (
  ok (failure_status max claimed.attempts),
  record w {
    db = record w.db {
      penalty_debits =
          put id (penalty_outbox.refuse (failure_status max claimed.attempts) r)
            w.db.penalty_debits;
    };
    alerts =
        if leb max (claimed.attempts + 1)
        then w.alerts ++ (penalty_debit_abandoned ∷ [])
        else w.alerts;
  },
)

-- the world in which the penalty is paid: the row is settled, and an escrow that is held cancelled
abbrev pub paid :
    ℕ → ClaimedPenalty → ℕ → PenaltyDebitOutbox → World → Result TransferStatus × World
paid id claimed i r w = (
  ok TransferStatus.settled,
  record w {
    db = record w.db {
      escrows =
          (update_where id (λ e. claimed.has_escrow && is_escrow_status e.status EscrowStatus.held)
            (λ e. record e { status = EscrowStatus.cancelled }) w.db.escrows).0;
      penalty_debits = put id (penalty_outbox.settle i r) w.db.penalty_debits;
    };
  },
)

-- the world after others have committed, with the calls that the attempt has made
abbrev pub meanwhile : PenaltyRound → List StripeCall → World → World
meanwhile round calls w = record w { db = round.others w.db; calls = calls }

abbrev pub debit_of : ℕ → ClaimedPenalty → ℕ → World → List StripeCall
debit_of id claimed method w = w.calls ++ (debit_penalty id claimed.amount_cents method ∷ [])

-- What an attempt can end with. `before` is its row when it starts, and `r` when Stripe has answered.
pub data Outcome (max : ℕ) (round : PenaltyRound) (id : ℕ) (claimed : ClaimedPenalty)
    (before r : PenaltyDebitOutbox) (w : World) (p : Result TransferStatus × World) : Type 0 where
  -- the traveler has no card: Stripe is not called
  no_card :
      claimed.traveler_payment_method_id ≡ none
      → p ≡ refused max id claimed before w
      → Outcome max round id claimed before r w p
  -- the charge throws or does not succeed: the hold is not released
  not_paid :
      (method : ℕ)
      → claimed.traveler_payment_method_id ≡ some method
      → (round.response.charge ≡ none) ⊎ ((i : ℕ) × (round.response.charge ≡ some (i, false)))
      → p ≡ refused max id claimed r (meanwhile round (debit_of id claimed method w) w)
      → Outcome max round id claimed before r w p
  -- the charge succeeds and the release of the hold does not
  not_released :
      (method i intent : ℕ)
      → claimed.traveler_payment_method_id ≡ some method
      → round.response.charge ≡ some (i, true)
      → hold_of round.response claimed ≡ some intent
      → round.response.cancels ≡ false
      → p
        ≡ refused max id claimed r
            (meanwhile round (debit_of id claimed method w ++ (release_hold intent id ∷ [])) w)
      → Outcome max round id claimed before r w p
  -- the charge succeeds, and there is no hold to release
  collected :
      (method i : ℕ)
      → claimed.traveler_payment_method_id ≡ some method
      → round.response.charge ≡ some (i, true)
      → hold_of round.response claimed ≡ none
      → p ≡ paid id claimed i r (meanwhile round (debit_of id claimed method w) w)
      → Outcome max round id claimed before r w p
  -- the charge succeeds, and the hold is released
  released :
      (method i intent : ℕ)
      → claimed.traveler_payment_method_id ≡ some method
      → round.response.charge ≡ some (i, true)
      → hold_of round.response claimed ≡ some intent
      → round.response.cancels ≡ true
      → p
        ≡ paid id claimed i r
            (meanwhile round (debit_of id claimed method w ++ (release_hold intent id ∷ [])) w)
      → Outcome max round id claimed before r w p

record_failure-refused :
    (max id : ℕ) (claimed : ClaimedPenalty) (r : PenaltyDebitOutbox) (w : World)
    → w.db.penalty_debits.row id ≡ some r
    → record_failure max id claimed w ≡ refused max id claimed r w
unfolding record_failure
record_failure-refused max id claimed r w there =
    elim (Bool-cases (leb max (claimed.attempts + 1))) [
      | inl many ↦ ground (arith, there, many)
      | inr few ↦ ground (arith, there, few)
    ]

attempt-refused :
    (max : ℕ) (round : PenaltyRound) (id : ℕ) (claimed : ClaimedPenalty) (r : PenaltyDebitOutbox)
    (w w' : World) (f : Fault)
    → collect round id claimed w ≡ (err f, w')
    → w'.db.penalty_debits.row id ≡ some r
    → attempt max round id claimed w ≡ refused max id claimed r w'
unfolding attempt
attempt-refused max round id claimed r w w' f thrown there =
    ap
      (λ p. elim p.0 as (λ x. Result TransferStatus × World) [
        | ok a ↦ (ok a, p.1)
        | err e ↦ record_failure max id claimed p.1
      ])
      thrown
    ∙ record_failure-refused max id claimed r w' there

module _ (max : ℕ) (round : PenaltyRound) (id : ℕ) (claimed : ClaimedPenalty)
    (before r : PenaltyDebitOutbox) (w : World) (there : w.db.penalty_debits.row id ≡ some before)
    (there' : (round.others w.db).penalty_debits.row id ≡ some r) where
  paid_attempt :
      (method i : ℕ)
      → claimed.traveler_payment_method_id ≡ some method
      → round.response.charge ≡ some (i, true)
      → Outcome max round id claimed before r w (attempt max round id claimed w)
  unfolding attempt collect
  paid_attempt method i card charged = elim (Option-cases (hold_of round.response claimed)) [
    | inl free ↦ collected method i card charged free (ground (arith, card, charged, free, there'))
    | inr (intent, hold) ↦ elim (Bool-cases round.response.cancels) [
      | inl yes_ ↦
          released method i intent card charged hold yes_
            (ground (arith, card, charged, hold, yes_, there'))
      | inr no_ ↦ not_released method i intent card charged hold no_ (
          attempt-refused max round id claimed r w _ Fault.unexpected
            (ground (arith, card, charged, hold, no_)) there')
    ]
  ]

  -- An attempt whose row is there when it starts and when Stripe has answered returns, and ends in one
  -- of five ways. Without a card Stripe is not called. A charge that throws or does not succeed leaves
  -- the buyer's hold and escrow alone. A charge that succeeds while the release of the hold fails is
  -- recorded as a failure, with the escrow as it is. Otherwise the charge has succeeded, the hold is
  -- released if there is one to release, an escrow that is still held is cancelled, and the row is
  -- settled. Every failure counts one more attempt, and the last that is allowed abandons the row with
  -- an alert.
  pub penalty_outcome : Outcome max round id claimed before r w (attempt max round id claimed w)
  unfolding collect
  penalty_outcome = elim (Option-cases claimed.traveler_payment_method_id) [
    | inl none_ ↦ no_card none_ (
        attempt-refused max round id claimed before w w Fault.unexpected (ground (arith, none_))
          there)
    | inr (method, card) ↦ elim (Option-cases round.response.charge) [
      | inl threw ↦ not_paid method card (inl threw) (
          attempt-refused max round id claimed r w _ Fault.unexpected (ground (arith, card, threw))
            there')
      | inr ((i, succeeded), answered) ↦ elim (Bool-cases succeeded) [
        | inl yes_ ↦ paid_attempt method i card (answered ∙ ap (λ b. some (i, b)) yes_)
        | inr no_ ↦ not_paid method card (inr (i, answered ∙ ap (λ b. some (i, b)) no_)) (
            attempt-refused max round id claimed r w _ Fault.unexpected
              (ground (arith, card, answered, no_)) there')
      ]
    ]
  ]
