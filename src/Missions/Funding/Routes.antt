-- ===== src/Missions/Funding/Routes.antt =====
-- The two routes of src/missions/routes/funding.route.ts from their guards to their end.
use waylo_app.Base.{
  ℕ, ◌+◌, ◌≡◌, ◌∙◌, ap, refl, ◌⊎◌, inl, inr, Bool, true, Option, none, some, ltb, arith,
  Option-cases, Bool-cases, not,
}
use waylo_app.Schema.Rows.{Mission}
use waylo_app.Money.{required_capacity_cents}
use waylo_app.App.{
  Db, World, StripeCall, Code, Fault, app_error, checkout_error, Result, ok, err, Action, Done,
  ◌>>=◌, ◌>>◌, throw_if, >>=-ok, >>=-err,
}
use waylo_app.Escrow.{held_budget_cents, capture_amount_cents}
use waylo_app.Missions.Access.{find_mission_for_buyer}
use waylo_app.Missions.Transition.{interrupted}
use waylo_app.Missions.Funding.{
  Authorization, undeclared, not_cents, cents, MissionFundingCapacity, capacity_of, wallet_balance,
  capacity_in_tx, validate_mission_funding, check_funding_capacity, capacity_guard, is_created,
  fundable_mission, reserve_and_hold, session_intent, refusal_status, capacity_error, throw_refusal,
  fund_by_intent, fund_by_session,
}
use waylo_app.Missions.Funding.Outcomes.{IsAside, IsReserved, reserve_and_hold_cases}

module _ (locked : Db → Db) (id : ℕ) (w : World) where
  in_tx_cases :
      (a : ℕ)
      → ((c : Code) × (capacity_in_tx locked id a w ≡ (err (checkout_error c), w)))
        ⊎ ((c : Code) × (capacity_in_tx locked id a w
              ≡ (err (checkout_error c), interrupted locked w)))
        ⊎ ((x : MissionFundingCapacity) × (capacity_in_tx locked id a w
              ≡ (ok x, interrupted locked w)))
  unfolding capacity_in_tx
  in_tx_cases a = elim (Option-cases (w.db.missions.row id)) [
    | inl gone ↦ inl (Code.mission_not_found, ground (arith, gone))
    | inr (m, there) ↦
        elim (Bool-cases (
          ltb (a + wallet_balance m.buyer_id (locked w.db))
            (required_capacity_cents (m.budget_cents + m.commission_cents)))) [
              | inl short ↦
                  inr (inl (Code.insufficient_funds_for_mission, ground (arith, there, short)))
              | inr enough ↦ inr (
                  inr (
                    capacity_of (m.budget_cents + m.commission_cents) a
                        (wallet_balance m.buyer_id (locked w.db)),
                    ground (arith, there, enough),
                  ))
            ]
  ]

  pub fundable_cases :
      (user : ℕ)
      → ((f : Fault) × (fundable_mission id user w ≡ (err f, w)))
        ⊎ ((m : Mission) × (find_mission_for_buyer id user w.db ≡ some m)
            × (w.db.escrows.row id ≡ none)
            × (is_created m ≡ true)
            × (fundable_mission id user w ≡ (ok m, w)))
  unfolding fundable_mission
  fundable_cases user = elim (Option-cases (find_mission_for_buyer id user w.db)) [
    | inl hidden ↦ inl (app_error Code.mission_not_found 404, ground (arith, hidden))
    | inr (m, found) ↦ elim (Option-cases (w.db.escrows.row id)) [
      | inr (e, there) ↦
          inl (app_error Code.mission_already_funded 400, ground (arith, found, there))
      | inl gone ↦ elim (Bool-cases (is_created m)) [
        | inl yes_ ↦ inr (m, found, gone, yes_, ground (arith, found, gone, yes_))
        | inr no_ ↦ inl (app_error Code.mission_not_fundable 400, ground (arith, found, gone, no_))
      ]
    ]
  ]

  module _ (m : Mission) where
    abbrev forget : Result MissionFundingCapacity × World → Result (Option (ℕ × Code)) × World
    forget p = elim p.0 [ ok x ↦ (ok none, p.1) | err e ↦ (err e, p.1) ]

    abbrev refusal_of : Result (Option (ℕ × Code)) × World → Result (Option (ℕ × Code)) × World
    refusal_of p = elim p.0 [ ok x ↦ (ok x, p.1) | err e ↦ capacity_error e p.1 ]

    -- what the guard makes of the result of the validation
    abbrev answer_of : Result MissionFundingCapacity × World → Result Done × World
    answer_of p =
        let q = refusal_of (forget p) in
        elim q.0 [ ok o ↦ throw_refusal o q.1 | err e ↦ (err e, q.1) ]

    -- what the capacity guard ends with
    abbrev Guarded : Authorization → Type 0
    Guarded d =
        ((f : Fault) × (capacity_guard locked id d m w ≡ (err f, w)))
        ⊎ ((f : Fault) × (capacity_guard locked id d m w ≡ (err f, interrupted locked w)))
        ⊎ (capacity_guard locked id d m w ≡ (ok tt, interrupted locked w))

    guard_after :
        (d : Authorization) (a : ℕ)
        → validate_mission_funding locked id
            (required_capacity_cents (m.budget_cents + m.commission_cents))
            d
            w
          ≡ capacity_in_tx locked id a w
        → Guarded d
    unfolding check_funding_capacity
    guard_after d a same = elim (in_tx_cases a) [
      | inl (c, h) ↦ inl (app_error c (refusal_status c), ap answer_of (same ∙ h))
      | inr (inl (c, h)) ↦ inr (inl (app_error c (refusal_status c), ap answer_of (same ∙ h)))
      | inr (inr (x, h)) ↦ inr (inr (ap answer_of (same ∙ h)))
    ]

    guard_cases : (d : Authorization) → Guarded d
    unfolding validate_mission_funding check_funding_capacity
    guard_cases undeclared = guard_after undeclared _ refl
    guard_cases not_cents = inl (app_error Code.invalid_authorization_amount 400, refl)
    guard_cases (cents n) = guard_after (cents n) n refl

-- What a request to fund ends with: it is refused before Stripe is asked, and nothing is written; or
-- the mission is the buyer's, in CREATED and without an escrow, and Stripe is asked once.
abbrev pub FundingOutcome :
    (Db → Db)
    → (id user : ℕ) → (Mission → StripeCall)
    → (answer : Option ℕ) → World
    → Result Done × World
    → Type 0
FundingOutcome locked id user call answer w r =
    ((f : Fault) × ((r ≡ (err f, w)) ⊎ (r ≡ (err f, interrupted locked w))))
    ⊎ ((m : Mission) × (find_mission_for_buyer id user w.db ≡ some m)
        × (w.db.escrows.row id ≡ none)
        × IsReserved id (held_budget_cents m) (call m) answer (interrupted locked w) r)

abbrev pub intent_call : ℕ → Mission → StripeCall
intent_call id m = StripeCall.create_intent id (capture_amount_cents m)

abbrev pub session_call : ℕ → Mission → StripeCall
session_call id m = StripeCall.create_session id (capture_amount_cents m)

module _ (locked during : Db → Db) (id user : ℕ) (aside : IsAside id during)
    (declared : Authorization) (w : World) where
  -- what both routes do after their guards
  abbrev rest : (Mission → StripeCall) → (answer : Option ℕ) → Mission → Done → Action Done
  rest call answer m x = reserve_and_hold during id (held_budget_cents m) (call m) answer

  abbrev guarded : (Mission → StripeCall) → (answer : Option ℕ) → Mission → Action Done
  guarded call answer m = capacity_guard locked id declared m >>= rest call answer m

  module _ (call : Mission → StripeCall) (answer : Option ℕ) where
    guarded_cases :
        {r : Result Done × World} (m : Mission)
        → find_mission_for_buyer id user w.db ≡ some m
        → w.db.escrows.row id ≡ none
        → r ≡ guarded call answer m w
        → FundingOutcome locked id user call answer w r
    guarded_cases m found gone same = elim (guard_cases locked id w m declared) [
      | inl (f, h) ↦ inl (f, inl (same ∙ >>=-err guard k h))
      | inr (inl (f, h)) ↦ inl (f, inr (same ∙ >>=-err guard k h))
      | inr (inr h) ↦
          elim (reserve_and_hold_cases during id (held_budget_cents m) (call m) answer aside
            (interrupted locked w) (same ∙ >>=-ok guard k h)) [
              | inl (f, lost) ↦ inl (f, inr lost)
              | inr held ↦ inr (m, found, gone, held)
            ]
    ]
      where
        guard : Action Done
        guard = capacity_guard locked id declared m

        k : Done → Action Done
        k = rest call answer m

  intent_outcome :
      (answer : Option ℕ)
      → FundingOutcome locked id user
          (intent_call id)
          answer
          w
          (fund_by_intent locked during id user declared answer w)
  unfolding fund_by_intent
  intent_outcome answer = elim (fundable_cases locked id w user) [
    | inl (f, h) ↦
        inl (f, inl (>>=-err (fundable_mission id user) (guarded (intent_call id) answer) h))
    | inr (m, found, gone, is, h) ↦
        guarded_cases (intent_call id) answer m found gone
          (>>=-ok (fundable_mission id user) (guarded (intent_call id) answer) h)
  ]

  session_outcome :
      (available : Bool) (answer : Option (Option ℕ))
      → FundingOutcome locked id user
          (session_call id)
          (session_intent answer)
          w
          (fund_by_session locked during id user declared available answer w)
  unfolding fund_by_session
  session_outcome available answer = elim (fundable_cases locked id w user) [
    | inl (f, h) ↦ inl (f, inl (>>=-err (fundable_mission id user) (next available) h))
    | inr (m, found, gone, is, h) ↦ elim (Bool-cases available) [
      | inr no_ ↦ inl (
        app_error Code.checkout_unavailable 500,
        inl (>>=-ok (fundable_mission id user) (next available) h ∙ ap (λ b. next b m w) no_),
      )
      | inl yes_ ↦
          guarded_cases (session_call id) (session_intent answer) m found gone
            (>>=-ok (fundable_mission id user) (next available) h ∙ ap (λ b. next b m w) yes_)
    ]
  ]
    where
      next : Bool → Mission → Action Done
      next b m =
          throw_if (not b) (app_error Code.checkout_unavailable 500)
          >> guarded (session_call id) (session_intent answer) m

  -- If what others commit while Stripe answers leaves the mission and its escrow alone, then a request
  -- to fund, by an intent or by a session, is refused before Stripe is asked and writes nothing; or
  -- the mission is the buyer's and had no escrow, Stripe is asked once, for the amount of the capture,
  -- and the mission is either FUNDED, with an escrow held for the intent that Stripe has answered with
  -- and the held budget as its limit, or as it was before, with its escrow as it was.
  pub funding_outcome :
      (intent_answer : Option ℕ) (available : Bool) (session_answer : Option (Option ℕ))
      → FundingOutcome locked id user
          (intent_call id)
          intent_answer
          w
          (fund_by_intent locked during id user declared intent_answer w)
        × FundingOutcome locked id user
            (session_call id)
            (session_intent session_answer)
            w
            (fund_by_session locked during id user declared available session_answer w)
  funding_outcome intent_answer available session_answer =
      (intent_outcome intent_answer, session_outcome available session_answer)
