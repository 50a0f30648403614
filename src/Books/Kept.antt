-- ===== src/Books/Kept.antt =====
-- The books across a whole event: src/stripe/webhook.route.ts.
use waylo_app.Base.{ℕ, ◌≡◌, true, false, ◌∷◌, elem, arith, inl, inr, Bool-cases}
use mathlib.Core.Path.{sym, subst}
use waylo_app.App.{Db, World, ok, err, Fault, Result-cases}
use waylo_app.Webhook.{
  Event, EffectOutcome, apply_business_effect, mark_processed, process_event, webhook,
}
use waylo_app.Books.Defs.{BooksBalance, KeepsCaptures}
use waylo_app.Books.CaptureKeeps.{handle_capture_keeps}
use waylo_app.Books.Refunding.{apply_refund_keeps}
use waylo_app.Books.Others.{
  handle_checkout_completed_keeps, handle_payment_failed_keeps, backfill_issuing_log_keeps,
}

apply_business_effect_keeps :
    (between : Db → Db) (now : ℕ) (event : Event) (w : World) {x : EffectOutcome}
    → BooksBalance w.db
    → BooksBalance (between w.db)
    → KeepsCaptures w.db (between w.db)
    → (apply_business_effect between now event w).0 ≡ ok x
    → BooksBalance ((apply_business_effect between now event w).1.db)
unfolding apply_business_effect
apply_business_effect_keeps between now (Event.checkout_completed mission intent) w {x} books later
      keeps done =
    handle_checkout_completed_keeps between mission intent w {x = x} books later done
apply_business_effect_keeps between now (Event.intent_succeeded intent received orphan) w {x} books
      later keeps done =
    handle_capture_keeps between intent received orphan w {x = x} books later done
apply_business_effect_keeps between now (Event.intent_failed intent) w {x} books later keeps done =
    handle_payment_failed_keeps between intent w {x = x} later done
apply_business_effect_keeps between now (Event.charge_refunded intent amount sub) w {x} books later
      keeps done =
    apply_refund_keeps between now intent amount sub w {x = x} books later keeps done
apply_business_effect_keeps between now (Event.issuing_created auth amount approved) w books later
      keeps done =
    backfill_issuing_log_keeps auth amount approved w books
apply_business_effect_keeps between now Event.other w books later keeps done = books

-- the world in which the event is marked, when others have committed
abbrev pub marked : (Db → Db) → ℕ → World → World
marked before event_id w = record w {
  db = record (before w.db) { processed_events = event_id ∷ (before w.db).processed_events };
}

module _ (before between : Db → Db) (now event_id : ℕ) (event : Event) (w : World) where
  abbrev pub final : Db
  final = (webhook before between now event_id event w).1.db

  pub seen_db : elem event_id w.db.processed_events ≡ true → final ≡ before w.db
  unfolding webhook process_event
  seen_db seen = ground (arith, seen)

  pub raced_db :
      elem event_id w.db.processed_events ≡ false
      → elem event_id (before w.db).processed_events ≡ true
      → final ≡ between (before w.db)
  unfolding webhook process_event mark_processed
  raced_db new raced = ground (arith, new, raced)

  pub failed_db :
      {f : Fault}
      → elem event_id w.db.processed_events ≡ false
      → elem event_id (before w.db).processed_events ≡ false
      → (apply_business_effect between now event (marked before event_id w)).0 ≡ err f
      → final ≡ between (before w.db)
  unfolding webhook process_event mark_processed
  failed_db new clear fails = ground (arith, new, clear, fails)

  pub applied_db :
      {x : EffectOutcome}
      → elem event_id w.db.processed_events ≡ false
      → elem event_id (before w.db).processed_events ≡ false
      → (apply_business_effect between now event (marked before event_id w)).0 ≡ ok x
      → final ≡ (apply_business_effect between now event (marked before event_id w)).1.db
  unfolding webhook process_event mark_processed
  applied_db new clear applies = ground (arith, new, clear, applies)

-- What the requests that run beside an event are relied on for, and the event guarantees in turn.
pub record IsHonest (others : Db → Db) : Type 0 where
  pub keeps_books : (db : Db) → BooksBalance db → BooksBalance (others db)
  pub keeps_captures : (db : Db) → KeepsCaptures db (others db)

-- If the books are balanced, and those who commit before the event is marked and while it waits for
-- its lock keep them balanced and change no captured amount, then the books are balanced after the
-- event, whatever it is, and whether it is applied, skipped or rolled back.
pub webhook-BooksBalance :
    (before between : Db → Db) (now event_id : ℕ) (event : Event) (w : World)
    → IsHonest before
    → IsHonest between
    → BooksBalance w.db
    → BooksBalance ((webhook before between now event_id event w).1.db)
webhook-BooksBalance before between now event_id event w first then_ books =
    let start = first.keeps_books w.db books in
    let later = then_.keeps_books (before w.db) start in
    let at_mark = marked before event_id w in
    elim (Bool-cases (elem event_id w.db.processed_events)) [
      | inl seen ↦ subst BooksBalance (sym (seen_db before between now event_id event w seen)) start
      | inr new ↦ elim (Bool-cases (elem event_id (before w.db).processed_events)) [
        | inl raced ↦
            subst BooksBalance (sym (raced_db before between now event_id event w new raced)) later
        | inr clear ↦ elim (Result-cases ((apply_business_effect between now event at_mark).0)) [
          | inl (x, applies) ↦
              subst BooksBalance
                (sym (applied_db before between now event_id event w new clear applies))
                (apply_business_effect_keeps between now event at_mark {x = x} start
                  (then_.keeps_books at_mark.db start) (then_.keeps_captures at_mark.db) applies)
          | inr (f, fails) ↦
              subst BooksBalance
                (sym (failed_db before between now event_id event w new clear fails)) later
        ]
      ]
    ]
