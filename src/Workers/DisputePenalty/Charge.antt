-- ===== src/Workers/DisputePenalty/Charge.antt =====
-- One charge of src/workers/disputePenaltyWorker.ts.
mod Examples
use waylo_app.Base.{
  ℕ, ◌≡◌, refl, sym, ◌⊎◌, ◌∙◌, ap, subst, inl, inr, arith, Bool, true, false, ◌||◌, Option, none,
  some, List, [], ◌∷◌, ◌++◌, leb, not, ◌==◌, if◌then◌else◌, Bool-cases, Option-cases,
}
use waylo_app.Base.Table.{put}
use waylo_app.Schema.Status.{AccountStatus}
use waylo_app.Schema.Rows.{Penalty, User, AuditAction, AuditEntry}
use waylo_app.App.{
  Db, World, StripeCall, AlertCode, Fault, Result, ok, err, Action, Done, ◌>>=◌, ◌>>◌, pure,
  or_throw, throw_if, transaction, catch, audit, emit, >>=-ok, >>=-err,
}
use waylo_app.Workers.DisputePenalty.Failure.{
  with_penalty, suspended, paid, answered, refused, update_penalty_row_lem, fail_penalty_lem,
}
use waylo_app.Workers.DisputePenalty.{
  PenaltyRun, ClaimedPenalty, ChargeOutcome, was_paid, has_failed, was_suspended, to_failed,
  to_pending, to_paid, by_system, update_penalty_row, suspend_user, fail_penalty, charge_with,
  charge_penalty,
}

-- Stripe answers the charge, and the payment has succeeded
abbrev pub pays : Option (ℕ × Bool) → Bool
pays none = false
pays (some (intent, ok_)) = ok_

pays-cases : (x : Option (ℕ × Bool)) → (pays x ≡ false) ⊎ ((intent : ℕ) × (x ≡ some (intent, true)))
pays-cases none = inl refl
pays-cases (some (intent, true)) = inr (intent, refl)
pays-cases (some (intent, false)) = inl refl

-- What a charge can end with. `before` and `user` are the penalty and its user when it starts, `p` and
-- `u` when Stripe has answered.
pub data Outcome (run : PenaltyRun) (max : ℕ) (claimed : ClaimedPenalty) (before p : Penalty)
    (user u : User) (w : World) (r : Result ChargeOutcome × World) : Type 0 where
  -- there is no card to charge: Stripe is not called, and the account is suspended at once
  no_card :
      claimed.payment_method_id ≡ none
      → r ≡ (ok was_suspended, suspended claimed before user w)
      → Outcome run max claimed before p user u w r
  charged :
      (method intent : ℕ)
      → claimed.payment_method_id ≡ some method
      → run.charge claimed.mission_id ≡ some (intent, true)
      → r ≡ (ok was_paid, paid claimed intent p (answered run claimed method w))
      → Outcome run max claimed before p user u w r
  -- the charge throws or does not succeed
  not_charged :
      (method : ℕ)
      → claimed.payment_method_id ≡ some method
      → pays (run.charge claimed.mission_id) ≡ false
      → r ≡ refused (leb max claimed.attempts) claimed p u (answered run claimed method w)
      → Outcome run max claimed before p user u w r

module _ (run : PenaltyRun) (max : ℕ) (claimed : ClaimedPenalty) where
  abbrev charge_by : Option ℕ → Action ChargeOutcome
  charge_by m = elim m [
    | none ↦ fail_penalty max true claimed
    | some method ↦ catch (charge_with run claimed method) (λ e. fail_penalty max false claimed)
  ]

module _ (run : PenaltyRun) (claimed : ClaimedPenalty) (method : ℕ) (w : World) where
  -- what follows the answer `x` of Stripe
  abbrev settled : Option (ℕ × Bool) → Action ChargeOutcome
  settled x = or_throw x Fault.unexpected >>= λ intent.
      throw_if (not intent.1) Fault.unexpected
      >> (transaction (
            update_penalty_row claimed.mission_id (to_paid intent.0)
            >> audit (by_system AuditAction.instruction_penalty_charged claimed.mission_id))
          >> pure was_paid)

  settled-fails :
      (x : Option (ℕ × Bool))
      → pays x ≡ false
      → settled x (answered run claimed method w)
        ≡ (err Fault.unexpected, answered run claimed method w)
  settled-fails none h = refl
  settled-fails (some (intent, ok_)) h =
      ap (λ b. settled (some (intent, b)) (answered run claimed method w)) h

  charge_with_fails :
      pays (run.charge claimed.mission_id) ≡ false
      → charge_with run claimed method w ≡ (err Fault.unexpected, answered run claimed method w)
  unfolding charge_with
  charge_with_fails h = settled-fails (run.charge claimed.mission_id) h

  charge_with_pays :
      (intent : ℕ) (p : Penalty)
      → run.charge claimed.mission_id ≡ some (intent, true)
      → (run.meanwhile claimed.mission_id w.db).penalties.row claimed.mission_id ≡ some p
      → charge_with run claimed method w
        ≡ (ok was_paid, paid claimed intent p (answered run claimed method w))
  unfolding charge_with
  charge_with_pays intent p answer there =
      ap (λ x. settled x (answered run claimed method w)) answer
      ∙ ap
          (λ x.
            (transaction (
                  (λ v. x)
                  >> audit (by_system AuditAction.instruction_penalty_charged claimed.mission_id))
                >> pure was_paid)
              (answered run claimed method w))
          (update_penalty_row_lem claimed.mission_id (to_paid intent) p
            (answered run claimed method w) there)

-- A charge ends in one of three ways, whatever others commit while Stripe answers. Without a card
-- Stripe is not called, and the penalty fails for good. Where the charge succeeds, the penalty is paid
-- under the id that Stripe gave, with one entry of the log. Where it throws or does not succeed, the
-- penalty waits for another attempt, unless this one was the last that is allowed: then it fails for
-- good. To fail for good suspends the account of the user, with two entries of the log and an alert.
-- The penalty and its user have rows when the charge starts and when Stripe has answered.
charge_penalty_outcome :
    (run : PenaltyRun) (max : ℕ) (claimed : ClaimedPenalty) (before p : Penalty) (user u : User)
    (w : World)
    → w.db.penalties.row claimed.mission_id ≡ some before
    → w.db.users claimed.user_id ≡ some user
    → (run.meanwhile claimed.mission_id w.db).penalties.row claimed.mission_id ≡ some p
    → (run.meanwhile claimed.mission_id w.db).users claimed.user_id ≡ some u
    → Outcome run max claimed before p user u w (charge_penalty run max claimed w)
unfolding charge_penalty
charge_penalty_outcome run max claimed before p user u w there known there' known' =
    elim (Option-cases claimed.payment_method_id) [
      | inl none_ ↦ Outcome.no_card none_ (
          ap (λ m. charge_by run max claimed m w) none_
          ∙ fail_penalty_lem claimed before user w there known max true)
      | inr (method, card) ↦ elim (pays-cases (run.charge claimed.mission_id)) [
        | inl fails ↦ Outcome.not_charged method card fails (
            ap (λ m. charge_by run max claimed m w) card
            ∙ ap (λ x. catch (λ v. x) (λ e. fail_penalty max false claimed) w)
                (charge_with_fails run claimed method w fails)
            ∙ fail_penalty_lem claimed p u (answered run claimed method w) there' known' max false)
        | inr (intent, answer) ↦ Outcome.charged method intent card answer (
            ap (λ m. charge_by run max claimed m w) card
            ∙ ap (λ x. catch (λ v. x) (λ e. fail_penalty max false claimed) w)
                (charge_with_pays run claimed method w intent p answer there'))
      ]
    ]
