-- ===== src/Workers/DisputeRefund/Execute.antt =====
-- One refund of src/workers/disputeResolutionWorker.ts.
mod Examples
use waylo_app.Base.{
  ℕ, ◌≡◌, refl, sym, ◌⊎◌, ◌∙◌, ap, subst, inl, inr, arith, Bool, true, false, not, ◌&&◌, ◌||◌,
  Option, none, some, List, [], ◌∷◌, ◌++◌, leb, is_some, if◌then◌else◌, Bool-cases, Option-cases,
}
use waylo_app.Base.Table.{put, update_where, holds}
use waylo_app.Schema.Status.{OutboxStatus}
use waylo_app.Schema.Rows.{OutboxEvent, Escrow}
use waylo_app.App.{
  Db, World, StripeCall, Fault, Result, ok, err, Action, Done, ◌>>=◌, ◌>>◌, pure, transaction,
  catch, update_mission, update_escrow, >>=-ok, >>=-err,
}
use waylo_app.Workers.DisputeRefund.{
  RefundRun, ClaimedRefund, RefundOutcome, was_refunded, has_failed, is_settled, is_held_row,
  is_in_dispute, to_refunded, to_cancelled, cancel_hold, commit_refund, update_event, fail_refund,
  refund, execute_refund,
}

-- there is no hold, or Stripe cancels it
abbrev pub cancel_works : RefundRun → ℕ → Option Escrow → Bool
cancel_works run id none = true
cancel_works run id (some e) = not (is_held_row e) || (run.can_cancel && run.cancels id)

-- the world in which the event has this status, and nothing else has changed
abbrev pub with_event : ℕ → OutboxStatus → OutboxEvent → World → World
with_event id s o w = record w {
  db = record w.db { outbox_events = put id (record o { status = s }) w.db.outbox_events };
}

-- the event is settled, the mission refunded if it is in dispute, and an escrow that is held cancelled
abbrev pub refunded : ClaimedRefund → Bool → OutboxEvent → World → World
refunded claimed had_escrow o w = record w {
  db = record w.db {
    outbox_events = put claimed.id (record o { status = OutboxStatus.settled }) w.db.outbox_events;
    missions = (update_where claimed.mission_id is_in_dispute to_refunded w.db.missions).0;
    escrows =
        (update_where claimed.mission_id (λ e. had_escrow && is_held_row e) to_cancelled
          w.db.escrows).0;
  };
}

-- the world in which Stripe has been asked to cancel the hold, if there is one and that is possible
abbrev pub asked : RefundRun → ℕ → Option Escrow → World → World
asked run id none w = w
asked run id (some e) w =
    if is_held_row e && run.can_cancel
    then record w {
      calls = w.calls ++ (StripeCall.dispute_refund e.stripe_payment_intent_id id ∷ []);
    }
    else w

module _ (run : RefundRun) (id : ℕ) (w : World) where
  cancel_hold_works :
      (e : Option Escrow)
      → cancel_works run id e ≡ true
      → cancel_hold run id e w ≡ (ok tt, asked run id e w)
  unfolding cancel_hold
  cancel_hold_works none h = refl
  cancel_hold_works (some e) h = elim (Bool-cases (is_held_row e)) [
    | inl held ↦ elim (Bool-cases run.can_cancel) [
      | inl can ↦ ground (arith, held, can, h)
      | inr cannot ↦ ground (arith, held, cannot, h)
    ]
    | inr free ↦ ground (arith, free, h)
  ]

  cancel_hold_fails :
      (e : Option Escrow)
      → cancel_works run id e ≡ false
      → cancel_hold run id e w ≡ (err Fault.unexpected, asked run id e w)
  unfolding cancel_hold
  cancel_hold_fails none h = ground (arith, h)
  cancel_hold_fails (some e) h = elim (Bool-cases (is_held_row e)) [
    | inl held ↦ elim (Bool-cases run.can_cancel) [
      | inl can ↦ ground (arith, held, can, h)
      | inr cannot ↦ ground (arith, held, cannot, h)
    ]
    | inr free ↦ ground (arith, free, h)
  ]

  asked-events : (e : Option Escrow) → (asked run id e w).db ≡ w.db
  asked-events none = refl
  asked-events (some e) = elim (Bool-cases (is_held_row e && run.can_cancel)) [
    | inl asks ↦ ground (arith, asks)
    | inr silent ↦ ground (arith, silent)
  ]

update_event_lem :
    (id : ℕ) (s : OutboxStatus) (o : OutboxEvent) (w : World)
    → w.db.outbox_events.row id ≡ some o
    → update_event id s w ≡ (ok tt, with_event id s o w)
unfolding update_event
update_event_lem id s o w there =
    ap
      (λ x. elim x as (λ y. Result Done × World) [
        | none ↦ (err Fault.unexpected, w)
        | some r ↦ (ok tt, with_event id s r w)
      ])
      there

commit_refund_lem :
    (claimed : ClaimedRefund) (had_escrow : Bool) (o : OutboxEvent) (w : World)
    → w.db.outbox_events.row claimed.id ≡ some o
    → commit_refund claimed had_escrow w ≡ (ok tt, refunded claimed had_escrow o w)
unfolding commit_refund
commit_refund_lem claimed had_escrow o w there =
    ap
      (λ x.
        transaction
          ((λ v. x)
            >> (update_mission claimed.mission_id is_in_dispute to_refunded >>= λ missions.
                update_escrow claimed.mission_id (λ e. had_escrow && is_held_row e) to_cancelled
                >>= λ escrows. pure tt))
          w)
      (update_event_lem claimed.id OutboxStatus.settled o w there)

fail_refund_lem :
    (terminal : Bool) (claimed : ClaimedRefund) (o : OutboxEvent) (w : World)
    → w.db.outbox_events.row claimed.id ≡ some o
    → fail_refund terminal claimed w ≡ (
      ok has_failed,
      with_event claimed.id (if terminal then OutboxStatus.failed else OutboxStatus.pending) o w,
    )
unfolding fail_refund
fail_refund_lem terminal claimed o w there =
    >>=-ok
      (update_event claimed.id (if terminal then OutboxStatus.failed else OutboxStatus.pending))
      (λ d. pure has_failed) {w = w}
      (update_event_lem claimed.id (if terminal then OutboxStatus.failed else OutboxStatus.pending)
        o w there)

-- What a refund can end with: `e` is the escrow that was read first, `o` the event when Stripe has
-- answered, and `w` the world then.
pub data Outcome (run : RefundRun) (max : ℕ) (claimed : ClaimedRefund) (e : Option Escrow)
    (o : OutboxEvent) (w : World) (p : Result RefundOutcome × World) : Type 0 where
  -- the money has been paid out: it is no use to try again, and Stripe is not called
  too_late :
      holds is_settled e ≡ true
      → p ≡ (ok has_failed, with_event claimed.id OutboxStatus.failed o w)
      → Outcome run max claimed e o w p
  -- there is no hold any more, or it is cancelled
  done :
      holds is_settled e ≡ false
      → cancel_works run claimed.mission_id e ≡ true
      → p ≡ (ok was_refunded, refunded claimed (is_some e) o (asked run claimed.mission_id e w))
      → Outcome run max claimed e o w p
  -- the hold is not cancelled: only the event changes
  not_cancelled :
      holds is_settled e ≡ false
      → cancel_works run claimed.mission_id e ≡ false
      → p ≡ (
        ok has_failed,
        with_event claimed.id
            (if leb max claimed.attempts then OutboxStatus.failed else OutboxStatus.pending)
            o
            (asked run claimed.mission_id e w),
      )
      → Outcome run max claimed e o w p

module _ (run : RefundRun) (max : ℕ) (claimed : ClaimedRefund) (e : Option Escrow) (o : OutboxEvent)
    (w : World) (there : w.db.outbox_events.row claimed.id ≡ some o) where
  asked_event : (asked run claimed.mission_id e w).db.outbox_events.row claimed.id ≡ some o
  asked_event =
      ap (λ (db : Db). db.outbox_events.row claimed.id) (asked-events run claimed.mission_id w e)
      ∙ there

  refund_done :
      cancel_works run claimed.mission_id e ≡ true
      → refund run claimed e w
        ≡ (ok was_refunded, refunded claimed (is_some e) o (asked run claimed.mission_id e w))
  unfolding refund
  refund_done works =
      >>=-ok (cancel_hold run claimed.mission_id e)
        (λ d. commit_refund claimed (is_some e) >> pure was_refunded) {w = w}
        (cancel_hold_works run claimed.mission_id w e works)
      ∙ >>=-ok (commit_refund claimed (is_some e)) (λ d. pure was_refunded)
          {w = asked run claimed.mission_id e w}
          (commit_refund_lem claimed (is_some e) o (asked run claimed.mission_id e w) asked_event)

  refund_fails :
      cancel_works run claimed.mission_id e ≡ false
      → refund run claimed e w ≡ (err Fault.unexpected, asked run claimed.mission_id e w)
  unfolding refund
  refund_fails fails =
      >>=-err (cancel_hold run claimed.mission_id e)
        (λ d. commit_refund claimed (is_some e) >> pure was_refunded) {w = w}
        (cancel_hold_fails run claimed.mission_id w e fails)

  attempt_outcome :
      holds is_settled e ≡ false
      → Outcome run max claimed e o w
          (catch (refund run claimed e) (λ f. fail_refund (leb max claimed.attempts) claimed) w)
  attempt_outcome open_ =
      let again = λ (f : Fault). fail_refund (leb max claimed.attempts) claimed in
      elim (Bool-cases (cancel_works run claimed.mission_id e)) [
        | inl works ↦
            Outcome.done open_ works (ap (λ p. catch (λ v. p) again w) (refund_done works))
        | inr fails ↦ Outcome.not_cancelled open_ fails (
            ap (λ p. catch (λ v. p) again w) (refund_fails fails)
            ∙ fail_refund_lem (leb max claimed.attempts) claimed o
                (asked run claimed.mission_id e w) asked_event)
      ]

-- A refund of the event `claimed` ends in one of three ways, whatever others commit in between. Where
-- the escrow has been paid out, or paid back in part, the event fails for good and Stripe is not
-- called. Where there is no hold to cancel, or Stripe cancels it, the event is settled, the mission
-- becomes refunded if it is still in dispute, and a hold that is there becomes cancelled. Where Stripe
-- does not cancel it, nothing changes but the event: it waits for another attempt, or fails for good
-- at the last one that is allowed. `o` is the event when Stripe has answered.
execute_refund_outcome :
    (run : RefundRun) (max : ℕ) (claimed : ClaimedRefund) (o : OutboxEvent) (w : World)
    → (run.meanwhile claimed.mission_id w.db).outbox_events.row claimed.id ≡ some o
    → Outcome run max claimed
        (w.db.escrows.row claimed.mission_id)
        o
        (record w { db = run.meanwhile claimed.mission_id w.db })
        (execute_refund run max claimed w)
unfolding execute_refund
execute_refund_outcome run max claimed o w there =
    let e = w.db.escrows.row claimed.mission_id in
    let u = record w { db = run.meanwhile claimed.mission_id w.db } in
    let either = λ (b : Bool). Outcome run max claimed e o u (
      (if b
          then fail_refund true claimed
          else catch (refund run claimed e) (λ f. fail_refund (leb max claimed.attempts) claimed))
        u) in
    elim (Bool-cases (holds is_settled e)) [
      | inl settled ↦
          subst either (sym settled)
            (Outcome.too_late settled (fail_refund_lem true claimed o u there))
      | inr open_ ↦ subst either (sym open_) (attempt_outcome run max claimed e o u there open_)
    ]
