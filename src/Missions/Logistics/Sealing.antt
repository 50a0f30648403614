-- ===== src/Missions/Logistics/Sealing.antt =====
-- What `/submit-receipt` of src/missions/routes/logistics.route.ts lets through.
use waylo_app.Base.{
  ℕ, refl, ◌≤◌, ◌≡◌, ◌⊎◌, inl, inr, ap, ◌∙◌, true, none, some, ltb, Text, arith, Bool-cases,
  Option-cases,
}
use mathlib.Core.Path.{sym, subst}
use waylo_app.Schema.Rows.{Mission}
use waylo_app.Money.{substitution_ceiling_cents}
use waylo_app.App.{
  Db, World, Code, Fault, Result, ok, err, app_error, Done, Result-cases, catch, transaction,
}
use waylo_app.Missions.Access.{find_mission_for_traveler}
use waylo_app.Missions.Transition.{move}
use waylo_app.Missions.Logistics.Depositing.{is_in_progress}
use waylo_app.Missions.Logistics.Receipts.{
  create_receipt, create_substitution, seal_receipt, price_refusal, receipt_found, submit_receipt,
  to_awaiting, already_submitted,
}

-- The price of a receipt that may be sealed: within the budget, or within the ceiling of a
-- substitution that the buyer has authorised.
abbrev pub IsAllowedPrice : Mission → ℕ → Type 0
IsAllowedPrice m purchase =
    (purchase ≤ m.budget_cents)
    ⊎ ((m.substitution_authorized ≡ true) × (purchase ≤ substitution_ceiling_cents m.budget_cents))

price_refusal_cases :
    (m : Mission) (purchase : ℕ) (w : World)
    → ((f : Fault) × (price_refusal m purchase w ≡ (err f, w)))
      ⊎ (IsAllowedPrice m purchase × (price_refusal m purchase w ≡ (ok tt, w)))
unfolding price_refusal
price_refusal_cases m purchase w = elim (Bool-cases (ltb m.budget_cents purchase)) [
  | inr within ↦ inr (inl (ground (arith, within)), rw within refl)
  | inl beyond ↦ elim (Bool-cases m.substitution_authorized) [
    | inr fixed ↦ inl (app_error Code.receipt_amount_exceeds_budget 400, rw (beyond, fixed) refl)
    | inl free ↦ elim (Bool-cases (ltb (substitution_ceiling_cents m.budget_cents) purchase)) [
      | inl over ↦
          inl (app_error Code.substitution_price_exceeds_limit 400, rw (beyond, free, over) refl)
      | inr under ↦ inr (inr (free, ground (arith, under)), rw (beyond, free, under) refl)
    ]
  ]
]

-- What a sealed receipt leaves: it is the first of its mission and states the price, and a mission
-- that was in progress awaits validation. No escrow and no ledger entry changes.
pub record IsSealed (now id purchase : ℕ) (url digest : Text) (before after : Db) : Type 0 where
  pub first : before.receipts.row id ≡ none
  pub receipt :
      after.receipts.row id
      ≡ some (record {
        total_ttc_cents = purchase;
        receipt_url = some url;
        sha256_server = digest;
        sealed_at = now;
      })
  pub escrows : after.escrows ≡ before.escrows
  pub ledger : after.ledger ≡ before.ledger
  pub moved_on :
      (cur : Mission)
      → before.missions.row id ≡ some cur
      → (is_in_progress cur ≡ true) × (after.missions.row id ≡ some (to_awaiting cur))

module _ (between : Db → Db) (now id sub purchase : ℕ) (url digest : Text) (w : World) where
  abbrev later : World
  later = record w { db = between w.db }

  seal_receipt-IsSealed :
      (m : Mission) (v : World)
      → (seal_receipt now id sub purchase url digest m v).0 ≡ ok tt
      → IsSealed now id purchase url digest v.db
          ((seal_receipt now id sub purchase url digest m v).1.db)
  unfolding seal_receipt create_receipt create_substitution move
  seal_receipt-IsSealed m v done = record {
    first = ground (arith, done);
    receipt = ground (arith, done);
    escrows = ground (arith, done);
    ledger = ground (arith, done);
    moved_on = λ cur there. ground (arith, done, there);
  }

  found_hidden :
      (user : ℕ)
      → find_mission_for_traveler id user w.db ≡ none
      → submit_receipt between now user id sub purchase url digest w
        ≡ (err (app_error Code.mission_not_found 404), w)
  unfolding submit_receipt
  found_hidden user hidden = ground (arith, hidden)

  found_visible :
      (user : ℕ) (m : Mission)
      → find_mission_for_traveler id user w.db ≡ some m
      → submit_receipt between now user id sub purchase url digest w
        ≡ receipt_found between now id sub purchase url digest m w
  unfolding submit_receipt
  found_visible user m found = ground (arith, found)

  abbrev attempt : Mission → Result Done × World
  attempt m =
      catch (transaction (seal_receipt now id sub purchase url digest m)) already_submitted later

  abbrev continue : Mission → Result Done × World → Result Done × World
  continue m p = elim p.0 [
    | ok a ↦
        catch (transaction (seal_receipt now id sub purchase url digest m)) already_submitted
          (record p.1 { db = between p.1.db })
    | err e ↦ (err e, p.1)
  ]

  found_guarded :
      (m : Mission)
      → ((f : Fault) × (receipt_found between now id sub purchase url digest m w ≡ (err f, w)))
        ⊎ ((is_in_progress m ≡ true)
            × IsAllowedPrice m purchase
            × (receipt_found between now id sub purchase url digest m w ≡ attempt m))
  unfolding receipt_found
  found_guarded m = elim (Bool-cases (is_in_progress m)) [
    | inr other ↦ inl (app_error Code.mission_not_in_progress 400, rw other refl)
    | inl travelling ↦ elim (price_refusal_cases m purchase w) [
      | inl (f, refused) ↦ inl (f, rw travelling (ap (continue m) refused))
      | inr (allowed, passes) ↦ inr (travelling, allowed, rw travelling (ap (continue m) passes))
    ]
  ]

  already_submitted_throws :
      (f : Fault) (v : World) → (x : Fault) × (already_submitted f v ≡ (err x, v))
  already_submitted_throws (app_error c n) v = (app_error c n, refl)
  already_submitted_throws Fault.unique_violation v =
      (app_error Code.receipt_already_submitted 400, refl)
  already_submitted_throws (Fault.capture_error c) v = (Fault.capture_error c, refl)
  already_submitted_throws (Fault.dispute_error c) v = (Fault.dispute_error c, refl)
  already_submitted_throws (Fault.checkout_error c) v = (Fault.checkout_error c, refl)
  already_submitted_throws Fault.watchdog_exhausted v = (Fault.watchdog_exhausted, refl)
  already_submitted_throws Fault.webhook_abort v = (Fault.webhook_abort, refl)
  already_submitted_throws Fault.concurrent_change v = (Fault.concurrent_change, refl)
  already_submitted_throws Fault.unexpected v = (Fault.unexpected, refl)

  -- the transaction with its outcome
  abbrev finish : Result Done × World → Result Done × World
  finish p = catch (transaction (λ v. p)) already_submitted later

  attempt_cases :
      (m : Mission)
      → ((x : Fault) × ((attempt m).0 ≡ err x) × ((attempt m).1.db ≡ between w.db))
        ⊎ (((attempt m).0 ≡ ok tt)
            × IsSealed now id purchase url digest (between w.db) ((attempt m).1.db))
  attempt_cases m =
      let p = seal_receipt now id sub purchase url digest m later in
      elim (Result-cases p.0) [
        | inl (a, sealed) ↦
            let same : attempt m ≡ finish (ok a, p.1) = ap (λ r. finish (r, p.1)) sealed in
            inr (
              ap (λ q. q.0) same,
              subst (IsSealed now id purchase url digest (between w.db))
                  (sym (ap (λ q. q.1.db) same)) (seal_receipt-IsSealed m later sealed),
            )
        | inr (e, failed) ↦
            let same : attempt m ≡ finish (err e, p.1) = ap (λ r. finish (r, p.1)) failed in
            let (x, thrown) = already_submitted_throws e (record p.1 { db = between w.db }) in
            inl (x, ap (λ q. q.0) (same ∙ thrown), ap (λ q. q.1.db) (same ∙ thrown))
      ]

  -- A receipt is refused without any effect; or it is rolled back to what the others have committed;
  -- or the user is the traveler of a mission in progress, the price is allowed, and the receipt, the
  -- first of its mission, is sealed, the mission awaits validation, and no money has moved.
  pub submit_receipt_outcome :
      (user : ℕ)
      → let out = submit_receipt between now user id sub purchase url digest w in
        ((f : Fault) × (out ≡ (err f, w)))
        ⊎ ((m : Mission) × (find_mission_for_traveler id user w.db ≡ some m)
            × (is_in_progress m ≡ true)
            × IsAllowedPrice m purchase
            × (((x : Fault) × (out.0 ≡ err x) × (out.1.db ≡ between w.db))
                ⊎ ((out.0 ≡ ok tt)
                    × IsSealed now id purchase url digest (between w.db) (out.1.db))))
  submit_receipt_outcome user = elim (Option-cases (find_mission_for_traveler id user w.db)) [
    | inl hidden ↦ inl (app_error Code.mission_not_found 404, found_hidden user hidden)
    | inr (m, found) ↦ elim (found_guarded m) [
      | inl (f, refused) ↦ inl (f, found_visible user m found ∙ refused)
      | inr (travelling, allowed, past) ↦
          let same = found_visible user m found ∙ past in
          inr (
            m,
            found,
            travelling,
            allowed,
            elim (attempt_cases m) [
              | inl (x, fails, db) ↦ inl (x, ap (λ q. q.0) same ∙ fails, ap (λ q. q.1.db) same ∙ db)
              | inr (passes, sealed) ↦ inr (
                ap (λ q. q.0) same ∙ passes,
                subst (IsSealed now id purchase url digest (between w.db))
                    (sym (ap (λ q. q.1.db) same)) sealed,
              )
            ],
          )
    ]
  ]
