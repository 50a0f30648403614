-- ===== src/Workers/DisputePenalty/Failure.antt =====
-- `failPenalty` of src/workers/disputePenaltyWorker.ts, and what a charge leaves.
use waylo_app.Base.{
  ℕ, ◌≡◌, ◌∙◌, ap, Bool, true, false, ◌||◌, none, some, [], ◌∷◌, ◌++◌, leb, not, ◌==◌,
  if◌then◌else◌,
}
use waylo_app.Base.Table.{put}
use waylo_app.Schema.Status.{AccountStatus}
use waylo_app.Schema.Rows.{Penalty, User, AuditAction}
use waylo_app.App.{
  World, StripeCall, AlertCode, Fault, Result, ok, err, Action, Done, ◌>>◌, pure, transaction,
  audit, emit,
}
use waylo_app.Workers.DisputePenalty.{
  PenaltyRun, ClaimedPenalty, ChargeOutcome, has_failed, was_suspended, to_failed, to_pending,
  to_paid, by_system, update_penalty_row, suspend_user, fail_penalty,
}

-- the world in which the row of the penalty has become `p`, and nothing else has changed
abbrev pub with_penalty : ℕ → Penalty → World → World
with_penalty id p w = record w { db = record w.db { penalties = put id p w.db.penalties } }

-- the penalty has failed for good: the account of its user is suspended, with an entry of the log for
-- each of the two, and an alert
abbrev pub suspended : ClaimedPenalty → Penalty → User → World → World
suspended claimed p u w = record w {
  db = record w.db {
    penalties = put claimed.mission_id (to_failed p) w.db.penalties;
    users = λ k.
        if k == claimed.user_id
        then some (record u { account_status = AccountStatus.suspended })
        else w.db.users k;
    audit_log =
        (w.db.audit_log
          ++ (by_system AuditAction.instruction_penalty_failed claimed.mission_id ∷ []))
        ++ (by_system AuditAction.account_suspended claimed.mission_id ∷ []);
  };
  alerts = w.alerts ++ (AlertCode.dispute_penalty_account_suspended ∷ []);
}

-- the penalty is paid, with its entry of the log
abbrev pub paid : ClaimedPenalty → ℕ → Penalty → World → World
paid claimed intent p w = record w {
  db = record w.db {
    penalties = put claimed.mission_id (to_paid intent p) w.db.penalties;
    audit_log =
        w.db.audit_log
        ++ (by_system AuditAction.instruction_penalty_charged claimed.mission_id ∷ []);
  };
}

-- the world when Stripe has answered: the call, and what others have committed
abbrev pub answered : PenaltyRun → ClaimedPenalty → ℕ → World → World
answered run claimed method w = record w {
  db = run.meanwhile claimed.mission_id w.db;
  calls =
      w.calls ++ (StripeCall.charge_penalty claimed.mission_id claimed.amount_cents method ∷ []);
}

-- what a failure makes of the row `p` and the user `u`
abbrev pub refused : Bool → ClaimedPenalty → Penalty → User → World → Result ChargeOutcome × World
refused terminal claimed p u w =
    if terminal
    then (ok was_suspended, suspended claimed p u w)
    else (ok has_failed, with_penalty claimed.mission_id (to_pending p) w)

pub update_penalty_row_lem :
    (id : ℕ) (f : Penalty → Penalty) (p : Penalty) (w : World)
    → w.db.penalties.row id ≡ some p
    → update_penalty_row id f w ≡ (ok tt, with_penalty id (f p) w)
unfolding update_penalty_row
update_penalty_row_lem id f p w there =
    ap
      (λ x. elim x as (λ y. Result Done × World) [
        | none ↦ (err Fault.unexpected, w)
        | some r ↦ (ok tt, with_penalty id (f r) w)
      ])
      there

suspend_user_lem :
    (user : ℕ) (u : User) (w : World)
    → w.db.users user ≡ some u
    → suspend_user user w ≡ (
      ok tt,
      record w {
        db = record w.db {
          users = λ k.
              if k == user
              then some (record u { account_status = AccountStatus.suspended })
              else w.db.users k;
        };
      },
    )
unfolding suspend_user
suspend_user_lem user u w known =
    ap
      (λ x. elim x as (λ y. Result Done × World) [
        | none ↦ (err Fault.unexpected, w)
        | some r ↦ (
          ok tt,
          record w {
            db = record w.db {
              users = λ k.
                  if k == user
                  then some (record r { account_status = AccountStatus.suspended })
                  else w.db.users k;
            };
          },
        )
      ])
      known

module _ (claimed : ClaimedPenalty) (p : Penalty) (u : User) (w : World)
    (there : w.db.penalties.row claimed.mission_id ≡ some p)
    (known : w.db.users claimed.user_id ≡ some u) where
  abbrev logged : Action Done
  logged =
      audit (by_system AuditAction.instruction_penalty_failed claimed.mission_id)
      >> audit (by_system AuditAction.account_suspended claimed.mission_id)

  abbrev after_transaction : Action Done → Action ChargeOutcome
  after_transaction m =
      transaction m >> (emit AlertCode.dispute_penalty_account_suspended >> pure was_suspended)

  suspension_lem :
      after_transaction
        (update_penalty_row claimed.mission_id to_failed
          >> (suspend_user claimed.user_id >> logged))
        w
      ≡ (ok was_suspended, suspended claimed p u w)
  suspension_lem =
      ap (λ x. after_transaction ((λ v. x) >> (suspend_user claimed.user_id >> logged)) w)
        (update_penalty_row_lem claimed.mission_id to_failed p w there)
      ∙ ap (λ x. after_transaction ((λ v. x) >> logged) w)
          (suspend_user_lem claimed.user_id u (with_penalty claimed.mission_id (to_failed p) w)
            known)

  fail_either :
      (terminal : Bool)
      → (if not terminal
            then update_penalty_row claimed.mission_id to_pending >> pure has_failed
            else after_transaction (
                update_penalty_row claimed.mission_id to_failed
                >> (suspend_user claimed.user_id >> logged)))
          w
        ≡ refused terminal claimed p u w
  fail_either true = suspension_lem
  fail_either false =
      ap (λ x. ((λ (v : World). x) >> pure has_failed) w)
        (update_penalty_row_lem claimed.mission_id to_pending p w there)

  pub fail_penalty_lem :
      (max : ℕ) (override : Bool)
      → fail_penalty max override claimed w
        ≡ refused (override || leb max claimed.attempts) claimed p u w
  unfolding fail_penalty
  fail_penalty_lem max override = fail_either (override || leb max claimed.attempts)
