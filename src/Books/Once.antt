-- ===== src/Books/Once.antt =====
-- The markers that keep an event of Stripe from being applied twice: the transaction of
-- POST /api/stripe/webhook in src/stripe/webhook.route.ts.
use waylo_app.Base.{
  ℕ, ◌≡◌, Bool, true, false, List, [], ◌∷◌, elem, arith, inl, inr, refl, Bool-cases,
}
use mathlib.Core.Path.{sym, subst}
use waylo_app.Base.Totals.{==-refl}
use waylo_app.App.{Db, World, ok, err, Fault, Result-cases}
use waylo_app.Webhook.{
  Event, EffectOutcome, apply_business_effect, mark_processed, process_event, webhook, Reply,
}
use waylo_app.Books.Kept.{marked, seen_db, raced_db, failed_db, applied_db}
use waylo_app.Books.Markers.{effect_marks}

-- One delivery of an event, with what others commit before the event is marked and before it has its
-- lock.
pub record Delivery : Type 0 where
  pub before : Db → Db
  pub between : Db → Db
  pub now : ℕ
  pub event_id : ℕ
  pub event : Event

abbrev pub deliver : Delivery → World → Reply × World
deliver d w = webhook d.before d.between d.now d.event_id d.event w

abbrev pub deliver_all : List Delivery → World → World
deliver_all [] w = w
deliver_all (d ∷ ds) w = deliver_all ds (deliver d w).1

-- No marker of a processed event is lost.
abbrev pub KeepsMarkers : (Db → Db) → Type 0
KeepsMarkers others =
    (db : Db) (k : ℕ)
    → elem k db.processed_events ≡ true
    → elem k (others db).processed_events ≡ true

-- Those who commit beside the delivery lose no marker.
pub record IsFaithful (d : Delivery) : Type 0 where
  pub before : KeepsMarkers d.before
  pub between : KeepsMarkers d.between

abbrev pub AllFaithful : List Delivery → Type 0
AllFaithful [] = Unit
AllFaithful (d ∷ ds) = IsFaithful d × AllFaithful ds

abbrev IsMarked : ℕ → Db → Type 0
IsMarked k db = elem k db.processed_events ≡ true

-- the world in which the event of a delivery is marked
abbrev at_mark : Delivery → World → World
at_mark d w = marked d.before d.event_id w

applied_marks :
    (d : Delivery) (w : World) (k : ℕ) {x : EffectOutcome}
    → IsFaithful d
    → IsMarked k (at_mark d w).db
    → elem d.event_id w.db.processed_events ≡ false
    → elem d.event_id (d.before w.db).processed_events ≡ false
    → (apply_business_effect d.between d.now d.event (at_mark d w)).0 ≡ ok x
    → IsMarked k (deliver d w).1.db
applied_marks d w k {x} faithful there new clear applies =
    subst (IsMarked k)
      (sym (applied_db d.before d.between d.now d.event_id d.event w {x = x} new clear applies))
      (effect_marks d.between k (at_mark d w) there (faithful.between (at_mark d w).db k there)
        d.now d.event)

-- A delivery loses no marker, whatever its event does.
deliver_marks :
    (d : Delivery) (w : World) (k : ℕ)
    → IsFaithful d
    → IsMarked k w.db
    → IsMarked k (deliver d w).1.db
deliver_marks d w k faithful there =
    let start = faithful.before w.db k there in
    let later = faithful.between (d.before w.db) k start in
    elim (Bool-cases (elem d.event_id w.db.processed_events)) [
      | inl seen ↦
          subst (IsMarked k) (sym (seen_db d.before d.between d.now d.event_id d.event w seen))
            start
      | inr new ↦ elim (Bool-cases (elem d.event_id (d.before w.db).processed_events)) [
        | inl raced ↦
            subst (IsMarked k)
              (sym (raced_db d.before d.between d.now d.event_id d.event w new raced)) later
        | inr clear ↦
            elim (Result-cases ((apply_business_effect d.between d.now d.event (at_mark d w)).0)) [
              | inl (x, applies) ↦
                  applied_marks d w k {x = x} faithful (ground (arith, start)) new clear applies
              | inr (f, fails) ↦
                  subst (IsMarked k)
                    (sym (failed_db d.before d.between d.now d.event_id d.event w new clear fails))
                    later
            ]
      ]
    ]

module _ (d : Delivery) (w : World) where
  raced_fails :
      elem d.event_id w.db.processed_events ≡ false
      → elem d.event_id (d.before w.db).processed_events ≡ true
      → (deliver d w).0 ≡ Reply.processing_failed
  unfolding webhook process_event mark_processed
  raced_fails new raced = ground (arith, new, raced)

  fault_fails :
      {f : Fault}
      → elem d.event_id w.db.processed_events ≡ false
      → elem d.event_id (d.before w.db).processed_events ≡ false
      → (apply_business_effect d.between d.now d.event (marked d.before d.event_id w)).0 ≡ err f
      → (deliver d w).0 ≡ Reply.processing_failed
  unfolding webhook process_event mark_processed
  fault_fails new clear fails = ground (arith, new, clear, fails)

  -- An event that is acknowledged is marked.
  acknowledged_marks :
      {duplicate handled : Bool}
      → IsFaithful d
      → (deliver d w).0 ≡ Reply.received duplicate handled
      → IsMarked d.event_id (deliver d w).1.db
  acknowledged_marks faithful h = elim (Bool-cases (elem d.event_id w.db.processed_events)) [
    | inl seen ↦ deliver_marks d w d.event_id faithful seen
    | inr new ↦ elim (Bool-cases (elem d.event_id (d.before w.db).processed_events)) [
      | inl raced ↦ ground (arith, raced_fails new raced, h)
      | inr clear ↦
          elim (Result-cases ((apply_business_effect d.between d.now d.event (at_mark d w)).0)) [
            | inl (x, applies) ↦
                applied_marks d w d.event_id {x = x} faithful (rw (==-refl d.event_id) refl) new
                  clear applies
            | inr (f, fails) ↦ ground (arith, fault_fails new clear fails, h)
          ]
    ]
  ]

deliver_all_marks :
    (ds : List Delivery) (w : World) (k : ℕ)
    → AllFaithful ds
    → IsMarked k w.db
    → IsMarked k (deliver_all ds w).db
deliver_all_marks [] w k faithful there = there
deliver_all_marks (d ∷ ds) w k faithful there =
    deliver_all_marks ds (deliver d w).1 k faithful.1 (deliver_marks d w k faithful.0 there)

repeats :
    (d : Delivery) (w : World)
    → IsMarked d.event_id w.db
    → deliver d w ≡ (Reply.received true false, record w { db = d.before w.db })
unfolding webhook process_event
repeats d w seen = ground (arith, seen)

-- Once an event has been acknowledged, no later delivery of it is applied: after any further
-- deliveries `ds`, of this event or of others, it is answered as a duplicate, with no alert and no
-- change but what others commit meanwhile, if no one loses a marker of a processed event.
pub webhook_once :
    (d : Delivery) (ds : List Delivery) (again : Delivery) (w : World) {duplicate handled : Bool}
    → IsFaithful d
    → AllFaithful ds
    → again.event_id ≡ d.event_id
    → (deliver d w).0 ≡ Reply.received duplicate handled
    → let v = deliver_all ds (deliver d w).1 in
      deliver again v ≡ (Reply.received true false, record v { db = again.before v.db })
webhook_once d ds again w {duplicate} {handled} faithful all same acknowledged =
    repeats again (deliver_all ds (deliver d w).1) (
      subst (λ k. IsMarked k (deliver_all ds (deliver d w).1).db) (sym same)
        (deliver_all_marks ds (deliver d w).1 d.event_id all (
          acknowledged_marks d w {duplicate = duplicate} {handled = handled} faithful
            acknowledged)))
