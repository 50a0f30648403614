-- ===== src/Missions/Funding/Examples.antt =====
-- Tests of src/missions/routes/funding.route.ts: the buyer funds mission 7.
use waylo_app.Base.{◌≡◌, ◌↔◌, true, some, ◌∷◌, [], refl, none}
use waylo_app.Base.Table.{find_first}
use waylo_app.Schema.Status.{MissionStatus, is_status}
use waylo_app.App.{World, StripeCall, ok}
use waylo_app.Money.{required_capacity_cents, substitution_ceiling_cents}
use waylo_app.Escrow.{capture_amount_cents}
use waylo_app.Missions.Access.{find_mission_for_buyer}
use waylo_app.Missions.Funding.{cents, check_funding_capacity, fund_by_intent, fund_by_session}
use waylo_app.Missions.Funding.Capacity.{IsCovered, check_funding_capacity_iff}
use waylo_app.Missions.Funding.Outcomes.{IsAside}
use waylo_app.Missions.Funding.Routes.{FundingOutcome, intent_call, session_call, funding_outcome}
use waylo_app.Samples.{sample_mission, sample_db, sample_world, empty_table, undisturbed}

-- mission 7 waits for its funding
abbrev start : World
start = record (sample_world MissionStatus.created) {
  db = record (sample_db MissionStatus.created) { escrows = empty_table };
}

undisturbed-IsAside : IsAside 7 undisturbed
undisturbed-IsAside = record { mission = λ db. refl; escrow = λ db. refl }

-- the declared amount and a wallet of 600 reach the 12_600 cents
check_funding_capacity_iff_example :
    let w = record start { db = record start.db { wallets = λ u. some 600 } } in
    ((check_funding_capacity undisturbed 7 10_000 500 (cents 12_000) w).0 ≡ ok none)
    ↔ IsCovered 600 10_500 (cents 12_000)
check_funding_capacity_iff_example =
    check_funding_capacity_iff undisturbed 7
      (record start { db = record start.db { wallets = λ u. some 600 } })
      (sample_mission MissionStatus.created) refl (cents 12_000)

funding_outcome_example :
    FundingOutcome undisturbed 7 1
      (intent_call 7)
      (some 88)
      start
      (fund_by_intent undisturbed undisturbed 7 1 (cents 12_600) (some 88) start)
    × FundingOutcome undisturbed 7 1
        (session_call 7)
        (some 89)
        start
        (fund_by_session undisturbed undisturbed 7 1 (cents 12_600) true (some (some 89)) start)
funding_outcome_example =
    funding_outcome undisturbed undisturbed 7 1 undisturbed-IsAside (cents 12_600) start (some 88)
      true (some (some 89))

-- the run that this describes: it returns, and Stripe is asked for the ceiling and the commission
fund_by_intent_run :
    let r = fund_by_intent undisturbed undisturbed 7 1 (cents 12_600) (some 88) start in
    (r.0 ≡ ok tt) × (r.1.calls ≡ (StripeCall.create_intent 7 12_500 ∷ []))
unfolding fund_by_intent find_mission_for_buyer is_status required_capacity_cents find_first
    capture_amount_cents substitution_ceiling_cents
fund_by_intent_run = (refl, refl)
