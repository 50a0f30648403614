-- ===== src/Missions/Funding/Outcomes.antt =====
-- What a funding ends with: src/missions/routes/funding.route.ts.
use waylo_app.Base.{
  ℕ, ◌≡◌, ◌∙◌, sym, ap, refl, ◌⊎◌, inl, inr, true, Option, some, [], ◌∷◌, ◌++◌, arith, is_some,
  ◌==◌, if◌then◌else◌, Option-cases, Bool-cases,
}
use waylo_app.Base.Table.{Table, find_first, row-put_self}
use waylo_app.Schema.Status.{MissionStatus, EscrowStatus, is_status, is_status_iff}
use waylo_app.Schema.Rows.{Mission, Escrow}
use waylo_app.App.{
  Db, World, StripeCall, Code, Fault, app_error, Result, ok, err, Action, Done, catch, >>=-ok,
  >>=-err,
}
use waylo_app.Missions.Transition.{move, moved, move_cases}
use waylo_app.Missions.Funding.{
  is_created, is_funded, to_funded, to_created, hold_funds, give_back, reserve_and_hold,
  unique_to_funded,
}
use waylo_app.Webhook.Funding.{create_escrow}

abbrev pub held_escrow : (intent limit : ℕ) → Escrow
held_escrow intent limit = record {
  stripe_payment_intent_id = intent;
  captured_amount_cents = 0;
  status = EscrowStatus.held;
  spending_limit_cents = limit;
}

-- Others leave the mission and its escrow alone.
pub record IsAside (id : ℕ) (f : Db → Db) : Type 0 where
  pub mission : (db : Db) → (f db).missions.row id ≡ db.missions.row id
  pub escrow : (db : Db) → (f db).escrows.row id ≡ db.escrows.row id

module _ (during : Db → Db) (id limit : ℕ) (call : StripeCall) (answer : Option ℕ) where
  -- the world once Stripe has answered
  abbrev pub answered : World → World
  answered w = record w { db = during w.db; calls = w.calls ++ (call ∷ []) }

  abbrev with_escrows : Table Escrow → World → World
  with_escrows es w = record w { db = record w.db { escrows = es } }

  abbrev with_row : (pi : ℕ) → Table Escrow → Table Escrow
  with_row pi t = record {
    keys = t.keys ++ (id ∷ []);
    row = λ j. if j == id then some (held_escrow pi limit) else t.row j;
  }

  create_escrow_cases :
      (pi : ℕ) (u : World)
      → (create_escrow id pi limit u ≡ (err Fault.unique_violation, u))
        ⊎ ((es : Table Escrow) × (create_escrow id pi limit u ≡ (ok tt, with_escrows es u))
            × (es.row id ≡ some (held_escrow pi limit)))
  unfolding create_escrow
  create_escrow_cases pi u =
      elim (Bool-cases
        (is_some (find_first (λ e. e.stripe_payment_intent_id == pi) u.db.escrows))) [
          | inl taken ↦ inl (ground (arith, taken))
          | inr free ↦ elim (Option-cases (u.db.escrows.row id)) [
            | inr (e, there) ↦ inl (ground (arith, free, there))
            | inl gone ↦ inr (with_row pi u.db.escrows, ground (arith, free, gone), ground (arith))
          ]
        ]

  -- The answer of Stripe is an intent that becomes the escrow, or nothing is created.
  hold_cases :
      (v : World)
      → ((f : Fault) × (hold_funds during id limit call answer v ≡ (err f, answered v)))
        ⊎ ((pi : ℕ) × (es : Table Escrow) × (answer ≡ some pi)
            × (hold_funds during id limit call answer v ≡ (ok tt, with_escrows es (answered v)))
            × (es.row id ≡ some (held_escrow pi limit)))
  unfolding hold_funds
  hold_cases v = elim (Option-cases answer) [
    | inl gone ↦ inl (Fault.unexpected, ground (arith, gone))
    | inr (pi, there) ↦ elim (create_escrow_cases pi (answered v)) [
      | inl taken ↦ inl (Fault.unique_violation, ground (arith, there, taken))
      | inr (es, done, row) ↦ inr (pi, es, there, ground (arith, there, done), row)
    ]
  ]

  -- the world in which a reserved mission is given back
  abbrev given_back : Mission → World → World
  given_back m w = moved id (to_created m) w

  give_back_funded :
      (f : Fault) (u : World) (m : Mission)
      → u.db.missions.row id ≡ some m
      → is_funded m ≡ true
      → (g : Fault) × (give_back id f u ≡ (err g, given_back m u))
  unfolding give_back
  give_back_funded f u m there is = (unique_to_funded f, ground (arith, there, is))

-- The mission `m` is FUNDED, and its escrow is held for the intent that Stripe has answered with.
pub record IsFunded (id limit : ℕ) (answer : Option ℕ) (m : Mission) (r : Result Done × World)
    : Type 0 where
  pub result : r.0 ≡ ok tt
  pub intent : ℕ
  pub from_stripe : answer ≡ some intent
  pub mission : r.1.db.missions.row id ≡ some (to_funded m)
  pub escrow : r.1.db.escrows.row id ≡ some (held_escrow intent limit)

-- The request has failed, and leaves the mission `m` and its escrow as they were in `db`.
pub record IsGivenBack (id : ℕ) (m : Mission) (db : Db) (r : Result Done × World) : Type 0 where
  pub fault : Fault
  pub result : r.0 ≡ err fault
  pub mission : r.1.db.missions.row id ≡ some m
  pub escrow : r.1.db.escrows.row id ≡ db.escrows.row id

-- What follows the reservation of the mission `m`: Stripe is asked once, and the mission is funded or
-- given back.
pub record IsReserved (id limit : ℕ) (call : StripeCall) (answer : Option ℕ) (v : World)
    (r : Result Done × World) : Type 0 where
  pub mission : Mission
  pub was : (v.db.missions.row id ≡ some mission) × (is_created mission ≡ true)
  pub calls : r.1.calls ≡ v.calls ++ (call ∷ [])
  pub alerts : r.1.alerts ≡ v.alerts
  pub ends : IsFunded id limit answer mission r ⊎ IsGivenBack id mission v.db r

is_funded_now : is_status MissionStatus.funded MissionStatus.funded ≡ true
unfolding is_status
is_funded_now = refl

created_again : (m : Mission) → is_created m ≡ true → to_created m ≡ m
created_again m is =
    ap (λ s. record m { status = s }) (sym ((is_status_iff m.status MissionStatus.created).0 is))

module _ (during : Db → Db) (id limit : ℕ) (call : StripeCall) (answer : Option ℕ)
    (aside : IsAside id during) where
  module _ (v : World) (cur : Mission) (there : v.db.missions.row id ≡ some cur)
      (passes : is_created cur ≡ true) where
    abbrev reserved : World
    reserved = moved id (to_funded cur) v

    abbrev asked : World
    asked = answered during id limit call answer reserved

    abbrev after_reservation : Action Done
    after_reservation = catch (hold_funds during id limit call answer) (give_back id)

    asked_row : asked.db.missions.row id ≡ some (to_funded cur)
    asked_row = aside.mission reserved.db ∙ row-put_self id (to_funded cur) v.db.missions

    abbrev caught : Result Done × World → Result Done × World
    caught p = elim p.0 [ ok a ↦ (ok a, p.1) | err e ↦ give_back id e p.1 ]

    ends_funded :
        {r : Result Done × World} (pi : ℕ) (es : Table Escrow)
        → answer ≡ some pi
        → es.row id ≡ some (held_escrow pi limit)
        → r ≡ (ok tt, with_escrows during id limit call answer es asked)
        → IsReserved id limit call answer v r
    ends_funded pi es answers row whole = record {
      mission = cur;
      was = (there, passes);
      calls = ap (λ p. p.1.calls) whole;
      alerts = ap (λ p. p.1.alerts) whole;
      ends = inl (record {
        result = ap (λ p. p.0) whole;
        intent = pi;
        from_stripe = answers;
        mission = ap (λ p. p.1.db.missions.row id) whole ∙ asked_row;
        escrow = ap (λ p. p.1.db.escrows.row id) whole ∙ row;
      });
    }

    ends_back :
        {r : Result Done × World} (f : Fault)
        → r ≡ (err f, given_back during id limit call answer (to_funded cur) asked)
        → IsReserved id limit call answer v r
    ends_back f whole = record {
      mission = cur;
      was = (there, passes);
      calls = ap (λ p. p.1.calls) whole;
      alerts = ap (λ p. p.1.alerts) whole;
      ends = inr (record {
        fault = f;
        result = ap (λ p. p.0) whole;
        mission =
            ap (λ p. p.1.db.missions.row id) whole
            ∙ row-put_self id (to_created cur) asked.db.missions
            ∙ ap some (created_again cur passes);
        escrow = ap (λ p. p.1.db.escrows.row id) whole ∙ aside.escrow reserved.db;
      });
    }

    held_or_back :
        {r : Result Done × World}
        → r ≡ after_reservation reserved
        → IsReserved id limit call answer v r
    held_or_back same = elim (hold_cases during id limit call answer reserved) [
      | inl (f, failed) ↦
          let (g, back) =
            give_back_funded during id limit call answer f asked (to_funded cur) asked_row
              is_funded_now in
          ends_back g (same ∙ ap caught failed ∙ back)
      | inr (pi, es, answers, done, row) ↦ ends_funded pi es answers row (same ∙ ap caught done)
    ]

  abbrev then_hold : Done → Action Done
  then_hold x = catch (hold_funds during id limit call answer) (give_back id)

  -- Either the mission could not be reserved, and nothing has happened, or it is funded or given back.
  pub reserve_and_hold_cases :
      {r : Result Done × World} (v : World)
      → r ≡ reserve_and_hold during id limit call answer v
      → ((f : Fault) × (r ≡ (err f, v))) ⊎ IsReserved id limit call answer v r
  unfolding reserve_and_hold
  reserve_and_hold_cases v same =
      let step = move id is_created to_funded (app_error Code.mission_already_funded 400) in
      elim (move_cases id is_created to_funded (app_error Code.mission_already_funded 400) v) [
        | inl lost ↦
            inl (
              app_error Code.mission_already_funded 400,
              same ∙ >>=-err step then_hold {w = v} lost,
            )
        | inr (cur, there, passes, won) ↦
            inr (held_or_back v cur there passes (same ∙ >>=-ok step then_hold {w = v} won))
      ]
