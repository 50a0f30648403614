-- ===== src/Receipts/Guard.antt =====
-- What the check of a receipt decides: src/services/disputeGuard.ts.
mod Examples
use waylo_app.Base.{
  ℕ, ◌≡◌, ◌≢◌, ◌↔◌, ◌⊎◌, ◌∙◌, inl, inr, refl, ap, arith, Bool, true, false, Option, none, some,
  List, [], ◌∷◌, ◌++◌, Text, Bool-cases, Option-cases, ◌==◌, not, if◌then◌else◌,
}
use waylo_app.Schema.Status.{EscrowStatus, draft, is_escrow_status, is_escrow_status_iff}
use waylo_app.Schema.Rows.{Dispute}
use waylo_app.App.{Db, World, AlertCode, Result, ok, Action, ◌>>=◌, ◌>>◌, pure, emit, >>=-ok}
use waylo_app.Disputes.{create_dispute_in_tx, open_dispute_in_tx}
use waylo_app.Disputes.InTx.{with_disputes, create_then_open}
use waylo_app.Receipts.{
  IntegrityViolationReason, ReceiptGuardInput, ReceiptGuardResult, release_allowed, frozen,
  not_guardable, items_total, verify_receipt_integrity, reconcile_extracted_receipt, violation_of,
  dispute_reason_of, freeze, decide, guard_receipt_for_release,
}

abbrev pub is_suspicious : (Text → Bool) → Option Text → Bool
is_suspicious detect none = false
is_suspicious detect (some t) = detect t

-- A receipt that may be paid: nothing is found in its text, it is of the order, in the currency of the
-- order, and its lines add up to its total.
pub record IsHonest (detect : Text → Bool) (input : ReceiptGuardInput) : Type 0 where
  pub clean : is_suspicious detect input.ocr_text ≡ false
  pub order : input.receipt.order_id ≡ input.order.id
  pub currency : input.receipt.currency ≡ input.order.currency
  pub total : items_total 0 input.receipt.items ≡ input.receipt.total_amount

module _ (detect : Text → Bool) (input : ReceiptGuardInput) where
  violation_of_sound : violation_of detect input ≡ none → IsHonest detect input
  unfolding violation_of reconcile_extracted_receipt verify_receipt_integrity
  violation_of_sound h = record {
    clean = ground arith;
    order = ground arith;
    currency = ground arith;
    total = ground arith;
  }

  violation_of_complete : IsHonest detect input → violation_of detect input ≡ none
  unfolding violation_of reconcile_extracted_receipt verify_receipt_integrity
  violation_of_complete h = ground (arith, h.clean, h.order, h.currency, h.total)

-- A mission is frozen: it has a dispute that is not a draft, the alert is out, and missions, escrows
-- and ledger are as they were.
pub record IsFrozen (id : ℕ) (w w' : World) : Type 0 where
  pub dispute : Dispute
  pub entered : (w'.db.disputes.row id ≡ some dispute) × (dispute.status ≢ draft)
  pub alerts : w'.alerts ≡ w.alerts ++ (AlertCode.receipt_integrity_violation ∷ [])
  pub missions : w'.db.missions ≡ w.db.missions
  pub escrows : w'.db.escrows ≡ w.db.escrows
  pub ledger : w'.db.ledger ≡ w.db.ledger
  pub calls : w'.calls ≡ w.calls

module _ (detect : Text → Bool) (time : ℕ) (input : ReceiptGuardInput) (w : World) where
  freeze_ends :
      (r : IntegrityViolationReason)
      → (w' : World) × (freeze time input r w ≡ (ok (frozen r), w'))
        × IsFrozen input.mission_id w w'
  unfolding freeze
  freeze_ends r =
      let reason = some (dispute_reason_of input.reason r) in
      let (d, t0, t, created, opens, row, not_draft) =
        create_then_open time input.actor_id input.mission_id reason w in
      (
        record w {
          db = record w.db { disputes = t };
          alerts = w.alerts ++ (AlertCode.receipt_integrity_violation ∷ []);
        },
        >>=-ok (create_dispute_in_tx input.mission_id input.actor_id reason)
              (λ x.
                open_dispute_in_tx time input.mission_id
                >> (emit AlertCode.receipt_integrity_violation >> pure (frozen r)))
              {w = w} {w' = with_disputes t0 w} created
            ∙ >>=-ok (open_dispute_in_tx time input.mission_id)
                (λ x. emit AlertCode.receipt_integrity_violation >> pure (frozen r))
                {w = with_disputes t0 w} {w' = with_disputes t w} opens,
        record {
          dispute = d;
          entered = (row, not_draft);
          alerts = refl;
          missions = refl;
          escrows = refl;
          ledger = refl;
          calls = refl;
        },
      )

  -- The check always returns. It leaves alone an escrow that is not held; it allows the release of a
  -- held escrow exactly where the receipt is honest, and writes nothing then; and otherwise it answers
  -- that the mission is frozen: the mission has a dispute that is no longer a draft then, the alert is
  -- out, and missions, escrows and ledger are as they were.
  pub guard_receipt_outcome :
      ((input.escrow_status ≢ EscrowStatus.held)
        × (guard_receipt_for_release detect time input w
            ≡ (ok (not_guardable input.escrow_status), w)))
      ⊎ ((input.escrow_status ≡ EscrowStatus.held)
          × IsHonest detect input
          × (guard_receipt_for_release detect time input w ≡ (ok release_allowed, w)))
      ⊎ ((input.escrow_status ≡ EscrowStatus.held)
          × (¬ IsHonest detect input)
          × (r : IntegrityViolationReason) × (w' : World) × (guard_receipt_for_release detect time
                input w
              ≡ (ok (frozen r), w'))
          × IsFrozen input.mission_id w w')
  unfolding guard_receipt_for_release
  guard_receipt_outcome =
      elim (Bool-cases (is_escrow_status input.escrow_status EscrowStatus.held)) [
        | inr other ↦ inl (
          λ h.
              ground
                (arith, other, (is_escrow_status_iff input.escrow_status EscrowStatus.held).1 h),
          ap choose other,
        )
        | inl held ↦
            let is_held = (is_escrow_status_iff input.escrow_status EscrowStatus.held).0 held in
            elim (Option-cases (violation_of detect input)) [
              | inl honest ↦ inr (
                  inl (
                    is_held,
                    violation_of_sound detect input honest,
                    ap choose held ∙ ap (λ o. decide time input o w) honest,
                  ))
              | inr (r, broken) ↦
                  let (w', froze, is) = freeze_ends r in
                  inr (
                    inr (
                      is_held,
                      λ h. ground (arith, broken, violation_of_complete detect input h),
                      r,
                      w',
                      ap choose held ∙ ap (λ o. decide time input o w) broken ∙ froze,
                      is,
                    ))
            ]
      ]
    where
      choose : Bool → Result ReceiptGuardResult × World
      choose b =
          (if not b
              then pure (not_guardable input.escrow_status)
              else decide time input (violation_of detect input))
            w
