-- ===== src/Books/Examples.antt =====
-- Tests of the books across the events of src/stripe/webhook.route.ts.
use waylo_app.Base.{◌+◌, ◌≡◌, ◌⊎◌, ◌==◌, true, false, none, [], ◌∷◌, if◌then◌else◌, refl, arith}
use waylo_app.Schema.Status.{MissionStatus, LedgerType, is_status, is_escrow_status, is_verified}
use waylo_app.Base.Table.{find_first}
use waylo_app.App.{World, Fault, ok, err}
use waylo_app.Webhook.{entry, distribute, Event, webhook, Reply, sum_of}
use waylo_app.Books.Defs.{paid_out, BooksBalance}
use waylo_app.Books.Settling.{IsDelivered, distribute_sums}
use waylo_app.Books.Kept.{IsHonest, webhook-BooksBalance}
use waylo_app.Books.Once.{Delivery, deliver, deliver_all, IsFaithful, webhook_once}
use waylo_app.Books.Sample.{sample-BooksBalance}
use waylo_app.Samples.{sample_mission, sample_world, undisturbed}

abbrev start : World
start = sample_world MissionStatus.awaiting_validation

abbrev captured : Event
captured = Event.intent_succeeded 77 10_500 none

-- 9_000 to the traveler, 500 to the platform, 1_000 to the buyer's wallet
settles :
    (webhook undisturbed undisturbed 0 1 captured start).1.db.ledger
    ≡ entry 7 LedgerType.capture 10_500
      ∷ entry 7 LedgerType.payout 9_000
      ∷ entry 7 LedgerType.commission 500
      ∷ entry 7 LedgerType.buyer_wallet_credit 1_000
      ∷ []
unfolding webhook find_first is_escrow_status is_verified is_status
settles = refl

undisturbed-IsHonest : IsHonest undisturbed
undisturbed-IsHonest = record {
  keeps_books = λ db books. books;
  keeps_captures = λ db id e e' before after positive. ground (arith, before, after);
}

start_BooksBalance : BooksBalance start.db
start_BooksBalance = sample-BooksBalance MissionStatus.awaiting_validation

webhook-BooksBalance_example :
    BooksBalance ((webhook undisturbed undisturbed 0 1 captured start).1.db)
webhook-BooksBalance_example =
    webhook-BooksBalance undisturbed undisturbed 0 1 captured start undisturbed-IsHonest
      undisturbed-IsHonest start_BooksBalance

abbrev first_delivery : Delivery
first_delivery = record {
  before = undisturbed;
  between = undisturbed;
  now = 0;
  event_id = 1;
  event = captured;
}

abbrev other_delivery : Delivery
other_delivery = record first_delivery { event_id = 2; event = Event.other }

first-IsFaithful : IsFaithful first_delivery
first-IsFaithful = record { before = λ db k there. there; between = λ db k there. there }

other-IsFaithful : IsFaithful other_delivery
other-IsFaithful = record { before = λ db k there. there; between = λ db k there. there }

-- The capture is delivered, another event after it, and then the capture again.
webhook_once_example :
    let v = deliver_all (other_delivery ∷ []) (deliver first_delivery start).1 in
    deliver first_delivery v ≡ (Reply.received true false, record v { db = v.db })
unfolding webhook find_first is_escrow_status is_verified is_status
webhook_once_example =
    webhook_once first_delivery (other_delivery ∷ []) first_delivery start {duplicate = false}
      {handled = true} first-IsFaithful (other-IsFaithful, tt) refl refl

abbrev settled : World
settled = (distribute 7 (sample_mission MissionStatus.awaiting_validation) 70 10_500 start).1

distribute_sums_example :
    let r = (distribute 7 (sample_mission MissionStatus.awaiting_validation) 70 10_500 start).0 in
    (paid_out settled.db.ledger 7 ≡ paid_out start.db.ledger 7 + (if 7 == 7 then 10_500 else 0))
    × (sum_of settled.db.ledger 7 LedgerType.capture ≡ sum_of start.db.ledger 7 LedgerType.capture)
    × (sum_of settled.db.ledger 7 LedgerType.refund ≡ sum_of start.db.ledger 7 LedgerType.refund)
    × (settled.db.escrows ≡ start.db.escrows)
    × ((r ≡ err Fault.unique_violation) ⊎ IsDelivered start.db settled.db 7 1 70)
distribute_sums_example =
    distribute_sums 7 (sample_mission MissionStatus.awaiting_validation) 70 10_500 start 7
      (omega arith)

-- and the settlement ends well
settlement_ends :
    (distribute 7 (sample_mission MissionStatus.awaiting_validation) 70 10_500 start).0 ≡ ok tt
unfolding distribute
settlement_ends = refl
