-- ===== src/Missions/Logistics/Steps.antt =====
-- The graph of the states of a mission that the routes of src/missions/routes/logistics.route.ts walk.
use waylo_app.Base.{ℕ, ◌≡◌, ◌⊎◌, inl, inr, Bool, true, Option, some, Text, arith, ap, Bool-cases}
use mathlib.Core.Path.{sym, subst}
use waylo_app.Schema.Status.{MissionStatus, DropOffType, is_status, is_status_iff}
use waylo_app.Schema.Rows.{Mission}
use waylo_app.App.{Db, World, Fault, Result, ok, err, Action, Done}
use waylo_app.Missions.Transition.{Outcome, moved}
use waylo_app.Missions.Logistics.Matching.{
  match_mission, start_travel, ship, is_open, is_matched_by,
}
use waylo_app.Missions.Logistics.Depositing.{
  customs_receipt, dropoff_receipt, drop_off, allows_dropoff,
}
use waylo_app.Missions.Logistics.Outcomes.{
  match_outcome, start_travel-Outcome, ship-Outcome, customs_receipt-Outcome, drop_off-Outcome,
  dropoff_receipt-Outcome,
}

pub data Edge : MissionStatus → MissionStatus → Type 0 where
  is_matched : Edge MissionStatus.funded MissionStatus.matched
  departs : Edge MissionStatus.matched MissionStatus.in_progress
  proves_taxes : Edge MissionStatus.escrow_locked_customs MissionStatus.pending_customs_review
  deposits : Edge MissionStatus.matched MissionStatus.deposited
  deposits_validated : Edge MissionStatus.validated MissionStatus.deposited
  drops_off : Edge MissionStatus.in_progress MissionStatus.awaiting_validation

-- the requests of a traveler about the transport: /match and /accept, /start-travel, /ship,
-- /customs-receipt, /dropoff-receipt and /drop-off
pub data TransportRequest : Type 0 where
  match_ start : TransportRequest
  ships : (purchase : ℕ) → (tracking hash : Text) → TransportRequest
  customs : (url sha256 : Text) → TransportRequest
  deposit : Text → Option Text → Text → TransportRequest
  drop : DropOffType → (carrier tracking : Text) → Option Text → TransportRequest

unfoldable pub handle : (Db → Db) → (now user id : ℕ) → TransportRequest → Action Done
unfolding match_mission start_travel ship customs_receipt dropoff_receipt drop_off
handle between now user id TransportRequest.match_ = match_mission between user id
handle between now user id TransportRequest.start = start_travel between user id
handle between now user id (TransportRequest.ships purchase tracking hash) =
    ship between now user id purchase tracking hash
handle between now user id (TransportRequest.customs url sha256) =
    customs_receipt between user id url sha256
handle between now user id (TransportRequest.deposit url tracking hash) =
    dropoff_receipt between now user id url tracking hash
handle between now user id (TransportRequest.drop type carrier tracking code) =
    drop_off between now user id type carrier tracking code

-- An action that is refused leaves the world as it was, or as the others have left it; one that
-- succeeds moves the mission along an edge, and changes nothing else.
abbrev pub Stepped : ℕ → World → World → Result Done × World → Type 0
Stepped id w w' (r, v) =
    ((f : Fault) × (r ≡ err f) × ((v ≡ w) ⊎ (v ≡ w')))
    ⊎ ((cur next : Mission) × (w'.db.missions.row id ≡ some cur)
        × Edge cur.status next.status
        × (r ≡ ok tt)
        × (v ≡ moved id next w'))

outcome-Stepped :
    (id : ℕ) (test : Mission → Bool) (f : Mission → Mission) (w w' : World)
    (result : Result Done × World)
    → ((m : Mission) → test m ≡ true → Edge m.status ((f m).status))
    → Outcome id test f w w' result
    → Stepped id w w' result
outcome-Stepped id test f w w' (r, v) walks (inl (x, same)) =
    inl (x, ap (λ p. p.0) same, inl (ap (λ p. p.1) same))
outcome-Stepped id test f w w' (r, v) walks (inr (inl (x, same))) =
    inl (x, ap (λ p. p.0) same, inr (ap (λ p. p.1) same))
outcome-Stepped id test f w w' (r, v) walks (inr (inr (cur, there, passes, same))) =
    inr (cur, f cur, there, walks cur passes, ap (λ p. p.0) same, ap (λ p. p.1) same)

-- an edge from a state that a test has found
from : (s t u : MissionStatus) → Edge s t → is_status u s ≡ true → Edge u t
from s t u e h = subst (λ x. Edge x t) (sym ((is_status_iff u s).0 h)) e

open_walks : (m : Mission) → is_open m ≡ true → Edge m.status MissionStatus.matched
open_walks m h =
    from MissionStatus.funded MissionStatus.matched m.status Edge.is_matched (ground arith)

matched_walks :
    (user : ℕ) (m : Mission) → is_matched_by user m ≡ true → Edge m.status MissionStatus.in_progress
matched_walks user m h =
    from MissionStatus.matched MissionStatus.in_progress m.status Edge.departs (ground arith)

dropoff_walks : (m : Mission) → allows_dropoff m ≡ true → Edge m.status MissionStatus.deposited
dropoff_walks m h = elim (Bool-cases (is_status m.status MissionStatus.matched)) [
  | inl yes_ ↦ from MissionStatus.matched MissionStatus.deposited m.status Edge.deposits yes_
  | inr no_ ↦
      from MissionStatus.validated MissionStatus.deposited m.status Edge.deposits_validated
        (ground arith)
]

-- Every request of a traveler to take a mission, to start or ship it, to hand in a customs receipt, to
-- deposit it or to drop it off, whatever other requests commit while it runs, is refused without any
-- effect, or moves the one mission along an edge of the graph of states and changes nothing else: no
-- escrow, no ledger entry and no call of Stripe.
pub handle-Stepped :
    (between : Db → Db) (now user id : ℕ) (r : TransportRequest) (w : World)
    → Stepped id w (record w { db = between w.db }) (handle between now user id r w)
unfolding handle
handle-Stepped between now user id TransportRequest.match_ w =
    elim (match_outcome between user id w) [
      | inl (f, same) ↦ inl (f, ap (λ p. p.0) same, inl (ap (λ p. p.1) same))
      | inr (m, may, out) ↦ outcome-Stepped id _ _ w _ _ open_walks out
    ]
handle-Stepped between now user id TransportRequest.start w =
    outcome-Stepped id _ _ w _ _ (matched_walks user) (start_travel-Outcome between user id w)
handle-Stepped between now user id (TransportRequest.ships purchase tracking hash) w =
    outcome-Stepped id _ _ w _ _ (matched_walks user)
      (ship-Outcome between user id w now purchase tracking hash)
handle-Stepped between now user id (TransportRequest.customs url sha256) w =
    outcome-Stepped id _ _ w _ _
      (λ m.
        from MissionStatus.escrow_locked_customs MissionStatus.pending_customs_review m.status
          Edge.proves_taxes)
      (customs_receipt-Outcome between user id w url sha256)
handle-Stepped between now user id (TransportRequest.deposit url tracking hash) w =
    outcome-Stepped id _ _ w _ _ dropoff_walks
      ((dropoff_receipt-Outcome between user id w now url tracking hash).1)
handle-Stepped between now user id (TransportRequest.drop type carrier tracking code) w =
    outcome-Stepped id _ _ w _ _
      (λ m.
        from MissionStatus.in_progress MissionStatus.awaiting_validation m.status Edge.drops_off)
      (drop_off-Outcome between user id w now type carrier tracking code)
