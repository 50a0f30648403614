-- ===== src/Workers/DisputePenalty.antt =====
-- src/workers/disputePenaltyWorker.ts and src/workers/reaper.worker.ts: the charge of an instruction
-- penalty.
pub mod Charge
pub mod Failure
use waylo_app.Base.{
  ℕ, zero, suc, ◌+◌, Bool, true, false, not, ◌&&◌, ◌||◌, Option, none, some, List, [], ◌∷◌, leb,
  ltb, length, take, ◌==◌, if◌then◌else◌,
}
use waylo_app.Base.Table.{Table, put, find_many}
use waylo_app.Schema.Status.{PenaltyStatus, AccountStatus}
use waylo_app.Schema.Rows.{Penalty, User, AuditAction, AuditEntry}
use waylo_app.App.{
  Db, World, StripeCall, AlertCode, Fault, Result, Action, Done, ◌>>=◌, ◌>>◌, pure, or_throw,
  throw_if, read, modify, catch, transaction, emit, stripe_call, others, audit,
}
use waylo_app.Workers.Batch.{claim_outbox_batch, unlocked, update_all, fetch_all}

abbrev pub default_max_attempts : ℕ
default_max_attempts = 3

abbrev pub default_batch_limit : ℕ
default_batch_limit = 50

abbrev pub is_pending : Penalty → Bool
is_pending p = elim p.status [
  | PenaltyStatus.pending ↦ true
  | PenaltyStatus.paid ↦ false
  | PenaltyStatus.failed ↦ false
]

-- `attempts` counts the attempt that is under way.
pub record ClaimedPenalty : Type 0 where
  pub mission_id : ℕ
  pub user_id : ℕ
  pub amount_cents : ℕ
  pub attempts : ℕ
  pub payment_method_id : Option ℕ

-- What others do to a run: the rows that they have locked, and what they commit while Stripe answers.
-- A charge throws, or has an id and may have succeeded.
pub record PenaltyRun : Type 0 where
  pub locked : ℕ → Bool
  pub meanwhile : ℕ → Db → Db
  pub charge : ℕ → Option (ℕ × Bool)

abbrev method_of : Option User → Option ℕ
method_of none = none
method_of (some u) = u.stripe_payment_method_id

abbrev claimed_rows : Db → List (ℕ × Penalty) → List ClaimedPenalty
claimed_rows db [] = []
claimed_rows db ((id, p) ∷ rows) =
    record {
      mission_id = id;
      user_id = p.user_id;
      amount_cents = p.amount_cents;
      attempts = p.attempts;
      payment_method_id = method_of (db.users p.user_id);
    }
    ∷ claimed_rows db rows

abbrev pub to_attempted : Penalty → Penalty
to_attempted p = record p { attempts = p.attempts + 1 }

-- `claimPenaltyBatch`
unfoldable pub claim_penalty_batch : PenaltyRun → (max limit : ℕ) → Action (List ClaimedPenalty)
unfolding claim_outbox_batch
claim_penalty_batch run max limit =
    claim_outbox_batch
      (λ db.
        take limit
          (unlocked run.locked (find_many (λ p. is_pending p && ltb p.attempts max) db.penalties)))
      (λ ids db. record db { penalties = update_all ids to_attempted db.penalties })
      (λ ids db. claimed_rows db (fetch_all ids db.penalties))

abbrev pub to_failed : Penalty → Penalty
to_failed p = record p { status = PenaltyStatus.failed }

abbrev pub to_pending : Penalty → Penalty
to_pending p = record p { status = PenaltyStatus.pending }

abbrev pub to_paid : ℕ → Penalty → Penalty
to_paid intent p = record p { status = PenaltyStatus.paid; stripe_payment_intent_id = some intent }

abbrev pub alert_if_any : List ℕ → Action Done
alert_if_any [] = pure tt
alert_if_any (id ∷ ids) = emit AlertCode.dispute_penalty_stuck_pending

-- `sweepStuckPenalties`: the transaction, and the alert
unfoldable pub sweep_stuck_penalties : PenaltyRun → ℕ → Action Done
sweep_stuck_penalties run max = do
  stuck ← transaction (do
    rows ← read (λ db.
        unlocked run.locked (find_many (λ p. is_pending p && leb max p.attempts) db.penalties))
    modify (λ db. record db { penalties = update_all rows to_failed db.penalties })
    pure rows)
  alert_if_any stuck

-- `penalty.update({ where: { id }, data })`
unfoldable pub update_penalty_row : ℕ → (Penalty → Penalty) → Action Done
update_penalty_row id f w = elim (w.db.penalties.row id) [
  | none ↦ (Result.err Fault.unexpected, w)
  | some p ↦
      (Result.ok tt, record w { db = record w.db { penalties = put id (f p) w.db.penalties } })
]

-- `user.update({ where: { id }, data: { accountStatus: SUSPENDED } })`
unfoldable pub suspend_user : ℕ → Action Done
suspend_user user w = elim (w.db.users user) [
  | none ↦ (Result.err Fault.unexpected, w)
  | some u ↦ (
    Result.ok tt,
    record w {
      db = record w.db {
        users = λ k.
            if k == user
            then some (record u { account_status = AccountStatus.suspended })
            else w.db.users k;
      };
    },
  )
]

abbrev pub by_system : AuditAction → ℕ → AuditEntry
by_system action id = record { admin_id = none; action = action; mission_id = id }

pub data ChargeOutcome : Type 0 where
  was_paid has_failed was_suspended : ChargeOutcome

-- `failPenalty`
unfoldable pub fail_penalty :
    (max : ℕ) → (terminal_override : Bool) → ClaimedPenalty → Action ChargeOutcome
unfolding update_penalty_row suspend_user
fail_penalty max terminal_override claimed =
    if not (terminal_override || leb max claimed.attempts)
    then (update_penalty_row claimed.mission_id to_pending >> pure has_failed)
    else (transaction (do
      update_penalty_row claimed.mission_id to_failed
      suspend_user claimed.user_id
      audit (by_system AuditAction.instruction_penalty_failed claimed.mission_id)
      audit (by_system AuditAction.account_suspended claimed.mission_id))
        >> (emit AlertCode.dispute_penalty_account_suspended >> pure was_suspended))

-- the `try` of `chargePenalty`, with a payment method
unfoldable pub charge_with : PenaltyRun → ClaimedPenalty → ℕ → Action ChargeOutcome
unfolding update_penalty_row
charge_with run claimed method = do
  stripe_call (StripeCall.charge_penalty claimed.mission_id claimed.amount_cents method)
  others (run.meanwhile claimed.mission_id)
  intent ← or_throw (run.charge claimed.mission_id) Fault.unexpected
  throw_if (not intent.1) Fault.unexpected
  transaction (do
    update_penalty_row claimed.mission_id (to_paid intent.0)
    audit (by_system AuditAction.instruction_penalty_charged claimed.mission_id))
  pure was_paid

-- `chargePenalty`: without a payment method the failure is terminal at once
unfoldable pub charge_penalty : PenaltyRun → ℕ → ClaimedPenalty → Action ChargeOutcome
unfolding charge_with fail_penalty
charge_penalty run max claimed = elim claimed.payment_method_id [
  | none ↦ fail_penalty max true claimed
  | some method ↦ catch (charge_with run claimed method) (λ e. fail_penalty max false claimed)
]

pub record PenaltyCounts : Type 0 where
  pub paid : ℕ
  pub failed : ℕ
  pub suspended : ℕ

abbrev pub count_charge : ChargeOutcome → PenaltyCounts → PenaltyCounts
count_charge was_paid c = record c { paid = c.paid + 1 }
count_charge has_failed c = record c { failed = c.failed + 1 }
count_charge was_suspended c = record c { suspended = c.suspended + 1 }

unfoldable pub charge_all :
    PenaltyRun → ℕ → List ClaimedPenalty → PenaltyCounts → Action PenaltyCounts
unfolding charge_penalty
charge_all run max [] c = pure c
charge_all run max (claimed ∷ batch) c =
    charge_penalty run max claimed >>= λ outcome. charge_all run max batch (count_charge outcome c)

-- `runDisputePenaltyWorkerOnce`
unfoldable pub run_dispute_penalty_worker_once : PenaltyRun → (max limit : ℕ) → Action PenaltyCounts
unfolding sweep_stuck_penalties claim_penalty_batch charge_all
run_dispute_penalty_worker_once run max limit = do
  sweep_stuck_penalties run max
  batch ← claim_penalty_batch run max limit
  charge_all run max batch (record { paid = 0; failed = 0; suspended = 0 })

-- `runReaperOnce`: it only looks, and raises the alert
unfoldable pub run_reaper_once : ℕ → Action ℕ
run_reaper_once max = do
  stuck ← read (λ db. find_many (λ p. is_pending p && leb max p.attempts) db.penalties)
  alert_if_any stuck
  pure (length stuck)
