-- ===== src/Missions/Funding.antt =====
-- src/missions/routes/funding.route.ts, with `checkFundingCapacity` of src/missions/mission-common.ts
-- and `validateMissionFunding` of src/checkout/wallet-validation.ts.
pub mod Capacity
pub mod Outcomes
pub mod Routes
mod Examples
use waylo_app.Base.{
  ℕ, ◌+◌, Bool, true, false, not, Option, none, some, ltb, is_some, ◌==◌, if◌then◌else◌,
}
use waylo_app.Schema.Status.{MissionStatus, is_status}
use waylo_app.Schema.Rows.{Mission}
use waylo_app.Money.{required_capacity_cents}
use waylo_app.App.{
  Db, StripeCall, Code, Fault, app_error, checkout_error, Action, Done, ◌>>=◌, ◌>>◌, pure, throw,
  read, or_throw, throw_if, catch, others, stripe_call, update_mission,
}
use waylo_app.Escrow.{held_budget_cents, capture_amount_cents}
use waylo_app.Webhook.Funding.{create_escrow}
use waylo_app.Missions.Access.{mission_of_buyer}
use waylo_app.Missions.Transition.{move}

-- `stripeAuthorizationCents` of the body, which has no schema: left out, a natural number, or
-- something else
pub data Authorization : Type 0 where
  undeclared not_cents : Authorization
  cents : ℕ → Authorization

pub record MissionFundingCapacity : Type 0 where
  pub mission_total_cents : ℕ
  pub required : ℕ
  pub stripe_authorization_cents : ℕ
  pub wallet_balance_cents : ℕ
  pub total_capacity_cents : ℕ

-- the balance of the wallet, 0 where none is open
abbrev pub wallet_balance : ℕ → Db → ℕ
wallet_balance user db = elim (db.wallets user) [ none ↦ 0 | some b ↦ b ]

abbrev pub capacity_of : (total authorization balance : ℕ) → MissionFundingCapacity
capacity_of total authorization balance = record {
  mission_total_cents = total;
  required = required_capacity_cents total;
  stripe_authorization_cents = authorization;
  wallet_balance_cents = balance;
  total_capacity_cents = authorization + balance;
}

-- The transaction only reads. `locked` is what others commit before it has its lock.
unfoldable pub capacity_in_tx : (Db → Db) → (id authorization : ℕ) → Action MissionFundingCapacity
capacity_in_tx locked id authorization = do
  mission ←
      (read (λ db. db.missions.row id) >>= λ o. or_throw o (checkout_error Code.mission_not_found))
  others locked
  balance ← read (wallet_balance mission.buyer_id)
  let total = mission.budget_cents + mission.commission_cents
  throw_if (ltb (authorization + balance) (required_capacity_cents total))
      (checkout_error Code.insufficient_funds_for_mission)
  pure (capacity_of total authorization balance)

-- `validateMissionFunding`, of what `declaredAuthCents ?? requiredCapacityCents(…)` is
unfoldable pub validate_mission_funding :
    (Db → Db) → (id default : ℕ) → Authorization → Action MissionFundingCapacity
unfolding capacity_in_tx
validate_mission_funding locked id default undeclared = capacity_in_tx locked id default
validate_mission_funding locked id default not_cents =
    throw (checkout_error Code.invalid_authorization_amount)
validate_mission_funding locked id default (cents n) = capacity_in_tx locked id n

abbrev pub refusal_status : Code → ℕ
refusal_status Code.mission_not_found = 404
refusal_status _ = 400

abbrev pub capacity_error : Fault → Action (Option (ℕ × Code))
capacity_error (app_error c n) = throw (app_error c n)
capacity_error (Fault.capture_error c) = throw (Fault.capture_error c)
capacity_error (Fault.dispute_error c) = throw (Fault.dispute_error c)
capacity_error (checkout_error c) = pure (some (refusal_status c, c))
capacity_error Fault.watchdog_exhausted = throw Fault.watchdog_exhausted
capacity_error Fault.webhook_abort = throw Fault.webhook_abort
capacity_error Fault.unique_violation = throw Fault.unique_violation
capacity_error Fault.concurrent_change = throw Fault.concurrent_change
capacity_error Fault.unexpected = throw Fault.unexpected

-- `checkFundingCapacity`: nothing, or the status and the code of the answer
unfoldable pub check_funding_capacity :
    (Db → Db) → (id budget commission : ℕ) → Authorization → Action (Option (ℕ × Code))
unfolding validate_mission_funding
check_funding_capacity locked id budget commission declared =
    catch
      (do
        capacity ←
            validate_mission_funding locked id (required_capacity_cents (budget + commission))
              declared
        pure none)
      capacity_error

abbrev pub throw_refusal : Option (ℕ × Code) → Action Done
throw_refusal none = pure tt
throw_refusal (some (n, c)) = throw (app_error c n)

-- the guards that both routes share: the buyer's mission, without an escrow, in CREATED
unfoldable pub fundable_mission : (id user : ℕ) → Action Mission
fundable_mission id user = do
  mission ← mission_of_buyer id user
  existing ← read (λ db. db.escrows.row id)
  throw_if (is_some existing) (app_error Code.mission_already_funded 400)
  throw_if (not (is_status mission.status MissionStatus.created))
      (app_error Code.mission_not_fundable 400)
  pure mission

abbrev pub is_created : Mission → Bool
is_created m = is_status m.status MissionStatus.created

abbrev pub is_funded : Mission → Bool
is_funded m = is_status m.status MissionStatus.funded

abbrev pub to_funded : Mission → Mission
to_funded m = record m { status = MissionStatus.funded }

abbrev pub to_created : Mission → Mission
to_created m = record m { status = MissionStatus.created }

-- What Stripe is asked for, and the escrow of the intent it answers with. An answer without an intent
-- stands for an error of Stripe, or a session that has no payment intent.
unfoldable pub hold_funds :
    (Db → Db) → (id limit : ℕ) → StripeCall → (answer : Option ℕ) → Action Done
unfolding create_escrow
hold_funds during id limit call answer = do
  stripe_call call
  others during
  intent ← or_throw answer Fault.unexpected
  create_escrow id intent limit

abbrev pub unique_to_funded : Fault → Fault
unique_to_funded (app_error c n) = app_error c n
unique_to_funded (Fault.capture_error c) = Fault.capture_error c
unique_to_funded (Fault.dispute_error c) = Fault.dispute_error c
unique_to_funded (checkout_error c) = checkout_error c
unique_to_funded Fault.watchdog_exhausted = Fault.watchdog_exhausted
unique_to_funded Fault.webhook_abort = Fault.webhook_abort
unique_to_funded Fault.unique_violation = app_error Code.mission_already_funded 400
unique_to_funded Fault.concurrent_change = Fault.concurrent_change
unique_to_funded Fault.unexpected = Fault.unexpected

-- the `catch` of both routes
unfoldable pub give_back : (id : ℕ) → Fault → Action Done
give_back id fault = do
  count ← update_mission id is_funded to_created
  throw (unique_to_funded fault)

-- The mission is reserved before Stripe is asked.
unfoldable pub reserve_and_hold :
    (Db → Db) → (id limit : ℕ) → StripeCall → (answer : Option ℕ) → Action Done
unfolding move hold_funds give_back
reserve_and_hold during id limit call answer = do
  move id is_created to_funded (app_error Code.mission_already_funded 400)
  catch (hold_funds during id limit call answer) (give_back id)

abbrev pub session_intent : Option (Option ℕ) → Option ℕ
session_intent none = none
session_intent (some intent) = intent

abbrev pub capacity_guard : (Db → Db) → ℕ → Authorization → Mission → Action Done
capacity_guard locked id declared m = do
  refusal ← check_funding_capacity locked id m.budget_cents m.commission_cents declared
  throw_refusal refusal

module _ (locked during : Db → Db) (id user : ℕ) (declared : Authorization) where
  -- POST /:id/intent
  unfoldable pub fund_by_intent : (answer : Option ℕ) → Action Done
  unfolding fundable_mission check_funding_capacity reserve_and_hold
  fund_by_intent answer = do
    m ← fundable_mission id user
    capacity_guard locked id declared m
    reserve_and_hold during id (held_budget_cents m)
        (StripeCall.create_intent id (capture_amount_cents m)) answer

  -- POST /:id/checkout-session. `available`: the client of Stripe has sessions
  unfoldable pub fund_by_session : (available : Bool) → (answer : Option (Option ℕ)) → Action Done
  unfolding fundable_mission check_funding_capacity reserve_and_hold
  fund_by_session available answer = do
    m ← fundable_mission id user
    throw_if (not available) (app_error Code.checkout_unavailable 500)
    capacity_guard locked id declared m
    reserve_and_hold during id (held_budget_cents m)
        (StripeCall.create_session id (capture_amount_cents m)) (session_intent answer)
