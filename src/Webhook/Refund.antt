-- ===== src/Webhook/Refund.antt =====
-- `applyRefund`, `handlePaymentFailed` and `backfillIssuingLog` of src/stripe/webhook.route.ts.
use waylo_app.Base.{
  ℕ, ◌+◌, ◌-◌, Bool, true, not, ◌&&◌, ◌||◌, Option, none, some, List, [], ◌∷◌, leb, ltb, ◌==◌,
  if◌then◌else◌,
}
use waylo_app.Base.Table.{find_first, update_where, create}
use waylo_app.Schema.Status.{
  MissionStatus, EscrowStatus, LedgerType, SubstitutionStatus, is_escrow_status, is_ledger_type,
  is_pending_substitution, status_in,
}
use waylo_app.Schema.Rows.{Mission, Escrow, LedgerEntry}
use waylo_app.App.{
  Db, AlertCode, Result, Action, Done, ◌>>=◌, ◌>>◌, pure, read, others, modify, update_mission,
  update_escrow, add_ledger,
}
use waylo_app.Webhook.Effects.{EffectOutcome, no_effect, handled_with, abort, abort_if}
use waylo_app.Webhook.Settle.{entry}

-- `aggregate({ where: { escrowId, type }, _sum: { amountCents } })`
unfoldable pub sum_of : List LedgerEntry → ℕ → LedgerType → ℕ
sum_of [] id t = 0
sum_of (x ∷ xs) id t =
    (if (x.escrow_id == id) && is_ledger_type x.type t then x.amount_cents else 0) + sum_of xs id t

-- PENDING → ITEM_SKIPPED; the time of the resolution is `now`
abbrev skip_substitution : ℕ → Option ℕ → Action Done
skip_substitution now none = pure tt
skip_substitution now (some sub) = modify (λ db. record db {
  substitutions =
      (update_where sub (λ s. is_pending_substitution s.status)
        (λ s. record s { status = SubstitutionStatus.item_skipped; resolved_at = some now })
        db.substitutions).0;
})

-- the refund of `delta` more cents; `captured` is as read before the lock
unfoldable pub refund_delta :
    (now id captured amount_refunded so_far : ℕ) → Option ℕ → Action EffectOutcome
refund_delta now id captured amount_refunded so_far sub = do
  abort_if (ltb amount_refunded so_far) AlertCode.webhook_abort_non_recoverable
  let delta = amount_refunded - so_far
  abort_if (ltb captured (so_far + delta)) AlertCode.webhook_abort_non_recoverable
  count ←
      update_escrow id
        (λ e.
          is_escrow_status e.status EscrowStatus.held
          || is_escrow_status e.status EscrowStatus.partially_refunded)
        (λ e. record e {
          status =
              if leb captured amount_refunded
              then EscrowStatus.refunded
              else EscrowStatus.partially_refunded;
        })
  abort_if (not (count == 1)) AlertCode.webhook_abort_non_recoverable
  add_ledger (entry id LedgerType.refund delta)
  skip_substitution now sub
  pure (handled_with [])

-- the lock: others commit before it is granted, and the sum of the refunds is read under it
unfoldable pub refund_found :
    (Db → Db) → (now amount_refunded : ℕ) → Option ℕ → Option (ℕ × Escrow) → Action EffectOutcome
unfolding refund_delta
refund_found between now amount_refunded sub none = pure no_effect
refund_found between now amount_refunded sub (some (id, e)) = do
  abort_if (leb e.captured_amount_cents 0) AlertCode.webhook_abort_non_recoverable
  others between
  so_far ← read (λ db. sum_of db.ledger id LedgerType.refund)
  if amount_refunded == so_far
      then pure no_effect
      else refund_delta now id e.captured_amount_cents amount_refunded so_far sub

unfoldable pub apply_refund :
    (Db → Db) → ℕ → Option ℕ → (amount_refunded : ℕ) → Option ℕ → Action EffectOutcome
unfolding refund_found
apply_refund between now none amount_refunded sub = pure no_effect
apply_refund between now (some intent) amount_refunded sub = do
  found ← read (λ db. find_first (λ e. e.stripe_payment_intent_id == intent) db.escrows)
  refund_found between now amount_refunded sub found

abbrev pub is_closed : Mission → Bool
is_closed m =
    status_in m.status
      (MissionStatus.released ∷ MissionStatus.refunded ∷ MissionStatus.cancelled ∷ [])

abbrev cancel_mission : ℕ → Action EffectOutcome
cancel_mission id = do
  count ←
      update_mission id (λ m. not (is_closed m))
        (λ m. record m { status = MissionStatus.cancelled })
  pure (handled_with [])

unfoldable pub failed_found : Option (ℕ × Escrow) → Action EffectOutcome
failed_found none = pure no_effect
failed_found (some (id, e)) = do
  count ←
      update_escrow id
        (λ e. is_escrow_status e.status EscrowStatus.held && (e.captured_amount_cents == 0))
        (λ e. record e { status = EscrowStatus.cancelled })
  if count == 1
      then cancel_mission id
      else if is_escrow_status e.status EscrowStatus.cancelled
      then pure no_effect
      else abort

-- others commit between the read of the escrow and its conditional update
unfoldable pub handle_payment_failed : (Db → Db) → ℕ → Action EffectOutcome
unfolding failed_found
handle_payment_failed between intent = do
  found ← read (λ db. find_first (λ e. e.stripe_payment_intent_id == intent) db.escrows)
  others between
  failed_found found

-- `upsert` with an empty update: an existing log is never changed
unfoldable pub backfill_issuing_log : (authorization amount : ℕ) → Bool → Action EffectOutcome
backfill_issuing_log auth amount approved w =
    elim (create auth
      (record {
        mission_id = none;
        requested_amount_cents = amount;
        approved = approved;
        is_backfill = true;
      })
      w.db.issuing_logs) [
        | none ↦ (Result.ok (handled_with []), w)
        | some logs ↦
            (Result.ok (handled_with []), record w { db = record w.db { issuing_logs = logs } })
      ]
