-- ===== src/Books/Markers.antt =====
-- The markers of the processed events across the handlers of src/stripe/webhook.route.ts.
use waylo_app.Base.{ℕ, ◌≡◌, true, Option, none, some, elem, ◌==◌, refl, arith}
use mathlib.Core.Path.{ap, ◌∙◌}
use waylo_app.Base.Table.{find_first}
use waylo_app.Schema.Rows.{Mission, Escrow}
use waylo_app.App.{Db, World, Fault, or_throw, read, others, ◌>>=◌, ◌>>◌}
use waylo_app.Webhook.{
  Event, create_escrow, fund_mission, checkout_with_intent, handle_checkout_completed,
  credit_wallet, credit_residual, create_transfer, distribute, release_mission, release, pay_out,
  traveler_of, destination_account, record_capture, capture_locked, capture_found, handle_capture,
  refund_delta, refund_found, apply_refund, failed_found, handle_payment_failed,
  backfill_issuing_log, apply_business_effect,
}

distribute_marks :
    (id : ℕ) (m : Mission) (account captured : ℕ) (w : World)
    → (distribute id m account captured w).1.db.processed_events ≡ w.db.processed_events
unfolding distribute credit_residual credit_wallet create_transfer
distribute_marks id m account captured w = ground arith

release_mission_marks :
    (id : ℕ) (w : World) → (release_mission id w).1.db.processed_events ≡ w.db.processed_events
unfolding release_mission
release_mission_marks id w = ground arith

release_marks :
    (id : ℕ) (m : Mission) (account captured : ℕ) (w : World)
    → (release id m account captured w).1.db.processed_events ≡ w.db.processed_events
unfolding release
release_marks id m account captured w =
    ground (arith, distribute_marks id m account captured, release_mission_marks id)

pay_out_marks :
    (id : ℕ) (m : Mission) (account : Option ℕ) (captured : ℕ) (w : World)
    → (pay_out id m account captured w).1.db.processed_events ≡ w.db.processed_events
unfolding pay_out
pay_out_marks id m none captured w = refl
pay_out_marks id m (some account) captured w = release_marks id m account captured w

capture_locked_marks :
    (id : ℕ) (m : Mission) (account : Option ℕ) (captured : ℕ) (fresh : Escrow) (w : World)
    → (capture_locked id m account captured fresh w).1.db.processed_events ≡ w.db.processed_events
unfolding capture_locked record_capture
capture_locked_marks id m account captured fresh w =
    ground (arith, pay_out_marks id m account captured)

refund_delta_marks :
    (now id captured amount so_far : ℕ) (sub : Option ℕ) (w : World)
    → (refund_delta now id captured amount so_far sub w).1.db.processed_events
      ≡ w.db.processed_events
unfolding refund_delta
refund_delta_marks now id captured amount so_far none w = ground arith
refund_delta_marks now id captured amount so_far (some x) w = ground arith

-- The marker `k` is there before the event, and whatever others commit leaves it.
module _ (between : Db → Db) (k : ℕ) (w : World) (marked : elem k w.db.processed_events ≡ true)
    (left : elem k (between w.db).processed_events ≡ true) where
  locked_marks :
      (id captured : ℕ) (m : Mission) (account : Option ℕ) (locked : Option Escrow)
      → elem k
          ((or_throw locked Fault.unexpected >>= λ fresh.
              capture_locked id m account captured fresh)
            (record w { db = between w.db })).1.db.processed_events
        ≡ true
  locked_marks id captured m account none = left
  locked_marks id captured m account (some fresh) =
      ap (elem k) (capture_locked_marks id m account captured fresh _) ∙ left

  read_mission_marks :
      (id captured : ℕ) (row : Option Mission)
      → elem k
          ((or_throw row Fault.unexpected >>= λ m. read (traveler_of m) >>= λ traveler.
              others between
              >> (read (λ db. db.escrows.row id) >>= λ locked.
                  or_throw locked Fault.unexpected >>= λ fresh.
                  capture_locked id m (destination_account traveler) captured fresh))
            w).1.db.processed_events
        ≡ true
  read_mission_marks id captured none = marked
  read_mission_marks id captured (some m) =
      locked_marks id captured m (destination_account (traveler_of m w.db))
        ((between w.db).escrows.row id)

  capture_found_marks :
      (captured : ℕ) (orphan : Option ℕ) (found : Option (ℕ × Escrow))
      → elem k (capture_found between captured orphan found w).1.db.processed_events ≡ true
  unfolding capture_found
  capture_found_marks captured orphan none = marked
  capture_found_marks captured orphan (some (id, e)) =
      read_mission_marks id captured (w.db.missions.row id)

  refund_found_marks :
      (now amount : ℕ) (sub : Option ℕ) (found : Option (ℕ × Escrow))
      → elem k (refund_found between now amount sub found w).1.db.processed_events ≡ true
  unfolding refund_found
  refund_found_marks now amount sub none = marked
  refund_found_marks now amount sub (some (id, e)) = ground (arith, refund_delta_marks now id)

  -- No handler of an event loses the marker, whatever it does and whether it aborts.
  pub effect_marks :
      (now : ℕ) (event : Event)
      → elem k (apply_business_effect between now event w).1.db.processed_events ≡ true
  unfolding apply_business_effect handle_checkout_completed checkout_with_intent fund_mission
      create_escrow handle_capture handle_payment_failed failed_found apply_refund
      backfill_issuing_log
  effect_marks now (Event.checkout_completed none intent) = marked
  effect_marks now (Event.checkout_completed (some id) none) = marked
  effect_marks now (Event.checkout_completed (some id) (some intent)) = ground arith
  effect_marks now (Event.intent_succeeded intent received orphan) =
      capture_found_marks received orphan
        (find_first (λ e. e.stripe_payment_intent_id == intent) w.db.escrows)
  effect_marks now (Event.intent_failed intent) = ground arith
  effect_marks now (Event.charge_refunded none amount sub) = marked
  effect_marks now (Event.charge_refunded (some intent) amount sub) =
      refund_found_marks now amount sub
        (find_first (λ e. e.stripe_payment_intent_id == intent) w.db.escrows)
  effect_marks now (Event.issuing_created auth amount approved) = ground arith
  effect_marks now Event.other = marked
