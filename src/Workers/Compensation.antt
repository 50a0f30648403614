-- ===== src/Workers/Compensation.antt =====
-- src/workers/buyer-compensation.worker.ts: the credit of a buyer's wallet after a fraud.
pub mod Jobs
use waylo_app.Base.{
  ℕ, ◌+◌, Bool, true, false, not, Option, none, some, List, [], ◌∷◌, ◌==◌, leb, take, if◌then◌else◌,
}
use waylo_app.Base.Table.{Table, put, update_where, find_many}
use waylo_app.Schema.Status.{OutboxStatus}
use waylo_app.Schema.Rows.{BuyerCompensationOutbox}
use waylo_app.App.{
  Db, Fault, Result, Action, Done, ◌>>=◌, ◌>>◌, pure, throw, read, modify, others, transaction,
  catch,
}

unfoldable pub is_pending : BuyerCompensationOutbox → Bool
is_pending r = elim r.status [
  | OutboxStatus.pending ↦ true
  | OutboxStatus.settled ↦ false
  | OutboxStatus.failed ↦ false
]

-- What happens around one job: what others commit before its claim, whether the database can write
-- the claim and the wallet, and what others commit before a failure is recorded.
pub record JobRound : Type 0 where
  pub before : Db → Db
  pub claims : Bool
  pub credits : Bool
  pub between : Db → Db

abbrev pub settled_job : BuyerCompensationOutbox → BuyerCompensationOutbox → BuyerCompensationOutbox
settled_job job r = record r { status = OutboxStatus.settled; attempts = job.attempts + 1 }

abbrev pub balance_after : ℕ → Option ℕ → ℕ
balance_after amount none = amount
balance_after amount (some balance) = balance + amount

-- `wallet.upsert`: the wallet of the buyer is opened with the amount, or incremented
abbrev pub credit : BuyerCompensationOutbox → Db → Db
credit job db = record db {
  wallets = λ u.
      if u == job.buyer_id
      then some (balance_after job.amount_cents (db.wallets u))
      else db.wallets u;
}

-- the conditional update of the claim, where the database can write it
unfoldable pub claim_job : Bool → ℕ → BuyerCompensationOutbox → Action ℕ
unfolding is_pending
claim_job false id job w = (Result.err Fault.unexpected, w)
claim_job true id job w =
    let (t, n) = update_where id is_pending (settled_job job) w.db.buyer_compensations in
    (Result.ok n, record w { db = record w.db { buyer_compensations = t } })

abbrev pub credit_buyer : Bool → BuyerCompensationOutbox → Action Done
credit_buyer true job = modify (credit job)
credit_buyer false job = throw Fault.unexpected

abbrev pub credit_if_claimed : Bool → BuyerCompensationOutbox → ℕ → Action Done
credit_if_claimed credits job count w =
    if not (count == 1) then (Result.ok tt, w) else credit_buyer credits job w

-- the transaction in the `try`
unfoldable pub settle_job : JobRound → ℕ → BuyerCompensationOutbox → Action Done
unfolding claim_job
settle_job round id job = do
  others round.before
  transaction (do count ← claim_job round.claims id job; credit_if_claimed round.credits job count)

abbrev pub max_attempts : ℕ
max_attempts = 4

abbrev pub failed_job : BuyerCompensationOutbox → BuyerCompensationOutbox → BuyerCompensationOutbox
failed_job job r = record r {
  status =
      if leb max_attempts (job.attempts + 1) then OutboxStatus.failed else OutboxStatus.pending;
  attempts = job.attempts + 1;
}

-- the `catch`: an update by the key alone
unfoldable pub record_job_failure : JobRound → ℕ → BuyerCompensationOutbox → Action Done
record_job_failure round id job = do
  others round.between
  (λ w. elim (w.db.buyer_compensations.row id) [
    | none ↦ (Result.err Fault.unexpected, w)
    | some r ↦ (
      Result.ok tt,
      record w {
        db = record w.db {
          buyer_compensations = put id (failed_job job r) w.db.buyer_compensations;
        };
      },
    )
  ])

unfoldable pub process_job : JobRound → ℕ → BuyerCompensationOutbox → Action Done
unfolding settle_job record_job_failure
process_job round id job = catch (settle_job round id job) (λ e. record_job_failure round id job)

abbrev pub rows_of :
    (ℕ → Option BuyerCompensationOutbox) → List ℕ → List (ℕ × BuyerCompensationOutbox)
rows_of row [] = []
rows_of row (id ∷ ids) =
    let rest = rows_of row ids in elim (row id) [ none ↦ rest | some r ↦ (id, r) ∷ rest ]

abbrev pub process_jobs : (ℕ → JobRound) → List (ℕ × BuyerCompensationOutbox) → Action Done
process_jobs rounds [] = pure tt
process_jobs rounds (job ∷ jobs) =
    process_job (rounds job.0) job.0 job.1 >> process_jobs rounds jobs

-- `processBuyerCompensations`: the rows are read once, and worked through one by one
unfoldable pub process_buyer_compensations : (ℕ → JobRound) → Action Done
unfolding process_job
process_buyer_compensations rounds = do
  jobs ← read (λ db.
      rows_of db.buyer_compensations.row (take 10 (find_many is_pending db.buyer_compensations)))
  process_jobs rounds jobs
