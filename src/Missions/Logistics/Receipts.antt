-- ===== src/Missions/Logistics/Receipts.antt =====
-- `/submit-receipt` of src/missions/routes/logistics.route.ts.
use waylo_app.Base.{ℕ, Bool, true, false, not, ◌&&◌, none, some, ltb, Text}
use waylo_app.Base.Table.{create}
use waylo_app.Schema.Status.{MissionStatus, SubstitutionStatus}
use waylo_app.Schema.Rows.{Mission}
use waylo_app.Money.{substitution_ceiling_cents}
use waylo_app.App.{
  Db, Code, Fault, Result, app_error, Action, Done, ◌>>=◌, ◌>>◌, pure, throw, throw_if, others,
  transaction, catch,
}
use waylo_app.Missions.Access.{mission_of_traveler}
use waylo_app.Missions.Transition.{move}
use waylo_app.Missions.Logistics.Depositing.{is_in_progress}

-- `receipt.create`: a mission has one receipt
unfoldable pub create_receipt : (now id purchase : ℕ) → (url digest : Text) → Action Done
create_receipt now id purchase url digest w =
    elim (create id
      (record {
        total_ttc_cents = purchase;
        receipt_url = some url;
        sha256_server = digest;
        sealed_at = now;
      })
      w.db.receipts) [
        | none ↦ (Result.err Fault.unique_violation, w)
        | some rs ↦ (Result.ok tt, record w { db = record w.db { receipts = rs } })
      ]

-- `substitutionRequest.create` under the fresh id `sub`: approved at once
unfoldable pub create_substitution : (now id sub purchase : ℕ) → Mission → Action Done
create_substitution now id sub purchase m w =
    elim (create sub
      (record {
        mission_id = id;
        proposed_product = m.target_product;
        proposed_price_cents = purchase;
        status = SubstitutionStatus.approved;
        resolved_at = some now;
      })
      w.db.substitutions) [
        | none ↦ (Result.err Fault.unique_violation, w)
        | some ss ↦ (Result.ok tt, record w { db = record w.db { substitutions = ss } })
      ]

abbrev pub to_awaiting : Mission → Mission
to_awaiting m = record m { status = MissionStatus.awaiting_validation }

abbrev record_substitution : Bool → Action Done → Action Done
record_substitution true create_it = create_it
record_substitution false create_it = pure tt

-- the body of the transaction
unfoldable pub seal_receipt :
    (now id sub purchase : ℕ) → (url digest : Text) → Mission → Action Done
seal_receipt now id sub purchase url digest m = do
  create_receipt now id purchase url digest
  record_substitution (ltb m.budget_cents purchase) (create_substitution now id sub purchase m)
  move id is_in_progress to_awaiting (app_error Code.mission_not_in_progress 400)

-- `isUniqueViolation(err)`
abbrev pub already_submitted : Fault → Action Done
already_submitted (app_error c n) = throw (app_error c n)
already_submitted Fault.unique_violation = throw (app_error Code.receipt_already_submitted 400)
already_submitted (Fault.capture_error c) = throw (Fault.capture_error c)
already_submitted (Fault.dispute_error c) = throw (Fault.dispute_error c)
already_submitted (Fault.checkout_error c) = throw (Fault.checkout_error c)
already_submitted Fault.watchdog_exhausted = throw Fault.watchdog_exhausted
already_submitted Fault.webhook_abort = throw Fault.webhook_abort
already_submitted Fault.concurrent_change = throw Fault.concurrent_change
already_submitted Fault.unexpected = throw Fault.unexpected

-- why a price is refused: beyond the budget without an authorised substitution, or beyond its ceiling
unfoldable pub price_refusal : Mission → ℕ → Action Done
price_refusal m purchase = do
  throw_if (ltb m.budget_cents purchase && not m.substitution_authorized)
      (app_error Code.receipt_amount_exceeds_budget 400)
  throw_if (ltb m.budget_cents purchase && ltb (substitution_ceiling_cents m.budget_cents) purchase)
      (app_error Code.substitution_price_exceeds_limit 400)

-- the checks on the mission of the traveler, and the transaction; `digest` is the sha256 of the
-- mission, the url and the price
unfoldable pub receipt_found :
    (Db → Db) → (now id sub purchase : ℕ) → (url digest : Text) → Mission → Action Done
receipt_found between now id sub purchase url digest m = do
  throw_if (not (is_in_progress m)) (app_error Code.mission_not_in_progress 400)
  price_refusal m purchase
  others between
  catch (transaction (seal_receipt now id sub purchase url digest m)) already_submitted

-- POST /:id/submit-receipt
unfoldable pub submit_receipt :
    (Db → Db) → (now user id sub purchase : ℕ) → (url digest : Text) → Action Done
submit_receipt between now user id sub purchase url digest = do
  mission ← mission_of_traveler id user
  receipt_found between now id sub purchase url digest mission
