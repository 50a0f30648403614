-- ===== src/Workers/Penalty.antt =====
-- src/workers/penalty.worker.ts: the debit of a fraudulent traveler, and the release of the buyer's
-- hold.
pub mod Attempts
use waylo_app.Base.{
  ℕ, zero, suc, ◌+◌, Bool, true, false, not, ◌&&◌, Option, none, some, refl, leb, is_some, ◌==◌,
  if◌then◌else◌,
}
use waylo_app.Base.Table.{put}
use waylo_app.Schema.Status.{TransferStatus, EscrowStatus, is_escrow_status}
use waylo_app.Schema.Rows.{PenaltyDebitOutbox, User, Escrow}
use waylo_app.App.{
  Db, World, StripeCall, AlertCode, Fault, Result, Action, Done, ◌>>=◌, ◌>>◌, pure, or_throw,
  throw_if, catch, transaction, emit, stripe_call, others, update_escrow,
}
use waylo_app.Workers.Outbox.{Outbox, Round, failure_status, next_row, update_row}
use waylo_app.Workers.Transfer.{Counts, no_counts, count}

unfoldable pub penalty_outbox : Outbox PenaltyDebitOutbox
penalty_outbox = record {
  status = λ r. r.status;
  attempts = λ r. r.attempts;
  submit = λ r. record r { status = TransferStatus.submitted };
  settle = λ i r. record r { status = TransferStatus.settled; stripe_payment_intent_id = some i };
  refuse = λ s r. record r { status = s; attempts = r.attempts + 1 };
  status-submit = λ r. refl;
  attempts-submit = λ r. refl;
  status-settle = λ i r. refl;
  attempts-settle = λ i r. refl;
  status-refuse = λ s r. refl;
  attempts-refuse = λ s r. refl;
}

-- What Stripe answers: the charge throws, or is the intent's id and whether its status is
-- 'succeeded'; whether the client can cancel, and whether the cancellation succeeds.
pub record PenaltyAnswer : Type 0 where
  pub charge : Option (ℕ × Bool)
  pub can_cancel : Bool
  pub cancels : Bool

abbrev pub PenaltyRound : Type 0
PenaltyRound = Round PenaltyAnswer

-- `ClaimedPenalty`; the mission names the row and the escrow
pub record ClaimedPenalty : Type 0 where
  pub amount_cents : ℕ
  pub attempts : ℕ
  pub traveler_payment_method_id : Option ℕ
  pub traveler_customer_id : Option ℕ
  pub has_escrow : Bool
  pub buyer_payment_intent_id : Option ℕ
  pub escrow_status : Option EscrowStatus

method_of : Option User → Option ℕ
method_of none = none
method_of (some u) = u.stripe_payment_method_id

customer_of : Option User → Option ℕ
customer_of none = none
customer_of (some u) = u.stripe_customer_id

-- the row, with the traveler's card and the buyer's escrow
unfoldable pub claimed_penalty : Db → ℕ → PenaltyDebitOutbox → ClaimedPenalty
unfolding method_of customer_of
claimed_penalty db id r = record {
  amount_cents = r.amount_cents;
  attempts = r.attempts;
  traveler_payment_method_id = method_of (db.users r.user_id);
  traveler_customer_id = customer_of (db.users r.user_id);
  has_escrow = is_some (db.escrows.row id);
  buyer_payment_intent_id = elim (db.escrows.row id) [
    | none ↦ none
    | some e ↦ some e.stripe_payment_intent_id
  ];
  escrow_status = elim (db.escrows.row id) [ none ↦ none | some e ↦ some e.status ];
}

-- `claimNext`
unfoldable pub claim_next : ℕ → PenaltyRound → Action (Option (ℕ × ClaimedPenalty))
unfolding penalty_outbox claimed_penalty
claim_next max_attempts round w =
    elim (next_row penalty_outbox max_attempts round w.db.penalty_debits) [
      | none ↦ (Result.ok none, w)
      | some (id, r) ↦ (
        Result.ok (some (id, claimed_penalty w.db id r)),
        record w {
          db = record w.db {
            penalty_debits = put id (penalty_outbox.submit r) w.db.penalty_debits;
          };
        },
      )
    ]

unfoldable pub update_penalty : ℕ → (PenaltyDebitOutbox → PenaltyDebitOutbox) → Action Done
unfolding update_row
update_penalty id f w = elim (update_row id f w.db.penalty_debits) [
  | none ↦ (Result.err Fault.unexpected, w)
  | some ts ↦ (Result.ok tt, record w { db = record w.db { penalty_debits = ts } })
]

abbrev is_held_status : Option EscrowStatus → Bool
is_held_status none = false
is_held_status (some s) = is_escrow_status s EscrowStatus.held

-- the hold to cancel, if there is one and the client can
unfoldable pub hold_of : PenaltyAnswer → ClaimedPenalty → Option ℕ
hold_of a claimed =
    if is_held_status claimed.escrow_status && a.can_cancel
    then claimed.buyer_payment_intent_id
    else none

-- step 3: the release of the buyer's hold
unfoldable pub release_buyer : PenaltyAnswer → ℕ → ClaimedPenalty → Action Done
unfolding hold_of
release_buyer a id claimed = elim (hold_of a claimed) [
  | none ↦ pure tt
  | some intent ↦
      stripe_call (StripeCall.release_hold intent id) >> throw_if (not a.cancels) Fault.unexpected
]

-- step 4: the escrow is cancelled if it is still held, and the row is settled
unfoldable pub settle_penalty : ℕ → ClaimedPenalty → ℕ → Action Done
unfolding update_penalty penalty_outbox
settle_penalty id claimed intent = transaction (do
  count ←
      update_escrow id (λ e. claimed.has_escrow && is_escrow_status e.status EscrowStatus.held)
        (λ e. record e { status = EscrowStatus.cancelled })
  update_penalty id (penalty_outbox.settle intent))

-- the body of the `try`
unfoldable pub collect : PenaltyRound → ℕ → ClaimedPenalty → Action TransferStatus
unfolding release_buyer settle_penalty
collect round id claimed = do
  method ← or_throw claimed.traveler_payment_method_id Fault.unexpected
  stripe_call (StripeCall.debit_penalty id claimed.amount_cents method)
  others round.others
  intent ← or_throw round.response.charge Fault.unexpected
  throw_if (not intent.1) Fault.unexpected
  release_buyer round.response id claimed
  settle_penalty id claimed intent.0
  pure TransferStatus.settled

-- the body of the `catch`
unfoldable pub record_failure : ℕ → ℕ → ClaimedPenalty → Action TransferStatus
unfolding failure_status update_penalty penalty_outbox
record_failure max_attempts id claimed = do
  let is_abandon = leb max_attempts (claimed.attempts + 1)
  update_penalty id (penalty_outbox.refuse (failure_status max_attempts claimed.attempts))
  if is_abandon
      then (emit AlertCode.penalty_debit_abandoned >> pure TransferStatus.abandoned)
      else pure TransferStatus.failed

unfoldable pub attempt : ℕ → PenaltyRound → ℕ → ClaimedPenalty → Action TransferStatus
unfolding collect record_failure
attempt max_attempts round id claimed =
    catch (collect round id claimed) (λ e. record_failure max_attempts id claimed)

-- the loop, with the iterations that are left and what each of them meets
unfoldable pub penalty_loop : ℕ → ℕ → (ℕ → PenaltyRound) → Counts → Action Counts
penalty_loop max_attempts zero rounds c = pure c
penalty_loop max_attempts (suc n) rounds c = claim_next max_attempts (rounds 0) >>= λ claimed.
    elim claimed [
      | none ↦ pure c
      | some (id, r) ↦ attempt max_attempts (rounds 0) id r >>= λ outcome.
          penalty_loop max_attempts n (λ i. rounds (suc i)) (count outcome c)
    ]

-- `runPenaltyWorkerOnce`
unfoldable pub run_penalty_worker_once : ℕ → ℕ → (ℕ → PenaltyRound) → Action Counts
unfolding penalty_loop
run_penalty_worker_once max_attempts batch_limit rounds =
    penalty_loop max_attempts batch_limit rounds no_counts
