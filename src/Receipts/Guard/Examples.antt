-- ===== src/Receipts/Guard/Examples.antt =====
-- Tests of src/services/disputeGuard.ts: a receipt whose lines do not add up.
use waylo_app.Base.{◌≡◌, ◌≢◌, ◌⊎◌, Bool, false, none, [], ◌∷◌, refl, Text}
use waylo_app.Schema.Status.{MissionStatus, EscrowStatus, is_escrow_status}
use waylo_app.App.{World, ok}
use waylo_app.Receipts.{
  IntegrityViolationReason, ReceiptGuardInput, release_allowed, frozen, not_guardable,
  guard_receipt_for_release,
}
use waylo_app.Receipts.Guard.{IsHonest, IsFrozen, guard_receipt_outcome}
use waylo_app.Samples.{sample_world}

abbrev nothing_found : Text → Bool
nothing_found t = false

-- lines of 1_000 and 250 cents, and a total of 1_300
abbrev wrong_total : ReceiptGuardInput
wrong_total = record {
  mission_id = 7;
  actor_id = 1;
  receipt = record {
    order_id = 4;
    total_amount = 1_300;
    currency = 978;
    items = record { price = 1_000 } ∷ record { price = 250 } ∷ [];
  };
  order = record { id = 4; currency = 978 };
  escrow_status = EscrowStatus.held;
  ocr_text = none;
  reason = none;
}

abbrev start : World
start = sample_world MissionStatus.deposited

guard_receipt_outcome_example :
    ((EscrowStatus.held ≢ EscrowStatus.held)
      × (guard_receipt_for_release nothing_found 600 wrong_total start
          ≡ (ok (not_guardable EscrowStatus.held), start)))
    ⊎ ((EscrowStatus.held ≡ EscrowStatus.held)
        × IsHonest nothing_found wrong_total
        × (guard_receipt_for_release nothing_found 600 wrong_total start
            ≡ (ok release_allowed, start)))
    ⊎ ((EscrowStatus.held ≡ EscrowStatus.held)
        × (¬ IsHonest nothing_found wrong_total)
        × (r : IntegrityViolationReason) × (w' : World) × (guard_receipt_for_release nothing_found
              600 wrong_total start
            ≡ (ok (frozen r), w'))
        × IsFrozen 7 start w')
guard_receipt_outcome_example = guard_receipt_outcome nothing_found 600 wrong_total start

guard_receipt_run :
    (guard_receipt_for_release nothing_found 600 wrong_total start).0
    ≡ ok (frozen IntegrityViolationReason.total_mismatch)
unfolding guard_receipt_for_release is_escrow_status
guard_receipt_run = refl
