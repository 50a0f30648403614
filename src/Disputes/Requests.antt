-- ===== src/Disputes/Requests.antt =====
-- The requests of src/services/dispute.service.ts, one after the other.
mod Examples
use waylo_app.Base.{
  ℕ, ◌≡◌, ◌⊎◌, inl, inr, refl, Bool, true, false, Option, none, some, List, [], ◌∷◌, Text, arith,
  Option-cases, Bool-cases,
}
use waylo_app.Schema.Rows.{User, Mission, Dispute}
use waylo_app.App.{Db, World, Code, dispute_error, Action, err, ◌>>=◌, ◌>>◌}
use waylo_app.App.Keeps.{Keeps, bind-Keeps}
use waylo_app.Missions.Access.{
  find_mission_for_buyer, find_mission_for_participant, find_mission_for_buyer_sound,
  find_mission_for_participant_sound,
}
use waylo_app.Missions.Admin.{is_request_admin}
use waylo_app.Disputes.Machine.{IsLater, Steps-IsLater}
use waylo_app.Disputes.Steps.{
  DisputeSteps, steps, steps-here, steps-along, create-Keeps, open-Keeps, escalate-Keeps,
  resolve-Keeps, close-Keeps, get-Keeps, participant-Keeps,
}
use waylo_app.Disputes.{
  create_dispute, open_dispute, escalate_dispute, resolve_dispute, close_dispute, get_dispute,
}

-- A request of the service. `before` and `between` are what others commit while it waits.
pub data Request : Type 0 where
  create_ open_it escalate_it resolve_it close_it get_it : Request

pub record Call : Type 0 where
  pub request : Request
  pub before : Db → Db
  pub between : Db → Db
  pub time : ℕ
  pub id : ℕ
  pub actor : ℕ
  pub text : Option Text

abbrev pub handle : Call → Action Dispute
handle c = elim c.request [
  | create_ ↦ create_dispute c.before c.id c.actor c.text
  | open_it ↦ open_dispute c.before c.between c.time c.id c.actor
  | escalate_it ↦ escalate_dispute c.before c.between c.time c.id c.actor
  | resolve_it ↦ resolve_dispute c.before c.between c.time c.id c.actor c.text
  | close_it ↦ close_dispute c.before c.between c.time c.id c.actor
  | get_it ↦ get_dispute c.id c.actor
]

-- What others commit meanwhile are steps of the disputes too.
pub record IsPolite (c : Call) : Type 0 where
  pub before : (db : Db) → DisputeSteps db (c.before db)
  pub between : (db : Db) → DisputeSteps db (c.between db)

handle_request-Keeps :
    (r : Request) (c : Call) → IsPolite c → Keeps DisputeSteps (handle (record c { request = r }))
unfolding get_dispute
handle_request-Keeps create_ c p =
    create-Keeps c.before c.between p.before p.between c.time c.id c.actor c.text
handle_request-Keeps open_it c p =
    open-Keeps c.before c.between p.before p.between c.time c.id c.actor
handle_request-Keeps escalate_it c p =
    escalate-Keeps c.before c.between p.before p.between c.time c.id c.actor
handle_request-Keeps resolve_it c p =
    resolve-Keeps c.before c.between p.before p.between c.time c.id c.actor c.text
handle_request-Keeps close_it c p =
    close-Keeps c.before c.between p.before p.between c.time c.id c.actor
handle_request-Keeps get_it c p =
    bind-Keeps steps (participant-Keeps c.id c.actor) (λ _. get-Keeps c.id)

abbrev pub handle_all : List Call → World → World
handle_all [] w = w
handle_all (c ∷ cs) w = handle_all cs (handle c w).1

abbrev pub AllPolite : List Call → Type 0
AllPolite [] = Unit
AllPolite (c ∷ cs) = IsPolite c × AllPolite cs

handle_all-steps :
    (cs : List Call) (w : World) → AllPolite cs → DisputeSteps w.db (handle_all cs w).db
handle_all-steps [] w p = steps-here w.db
handle_all-steps (c ∷ cs) w p =
    steps-along w.db (handle c w).1.db (handle_all cs (handle c w).1).db
      ((handle_request-Keeps c.request c p.0).keeps w) (handle_all-steps cs (handle c w).1 p.1)

-- Through any sequence of requests of the service, whoever makes them and whether they are refused or
-- not, in which others change the disputes only by steps of their machine: a dispute is not lost, does
-- not return to an earlier state, and keeps its opener and its reason; its date of opening is settled
-- once it is open, that of its escalation once it is escalated, its resolution once it is resolved, and
-- a closed dispute does not change at all.
pub disputes_history :
    (cs : List Call) (w : World) (k : ℕ) (d : Dispute)
    → AllPolite cs
    → w.db.disputes.row k ≡ some d
    → (d' : Dispute) × ((handle_all cs w).db.disputes.row k ≡ some d') × IsLater d d'
disputes_history cs w k d polite there =
    let (d', there', path) = handle_all-steps cs w polite k d there in
    (d', there', Steps-IsLater path)

-- Who may make a request, by the rows of the database: the buyer of the mission creates and opens its
-- dispute, the buyer and the traveler escalate and read it, an administrator resolves and closes it.
abbrev pub IsEntitled : Db → Request → (id actor : ℕ) → Type 0
IsEntitled db create_ id actor =
    (m : Mission) × (db.missions.row id ≡ some m) × (m.buyer_id ≡ actor)
IsEntitled db open_it id actor =
    (m : Mission) × (db.missions.row id ≡ some m) × (m.buyer_id ≡ actor)
IsEntitled db escalate_it id actor =
    (m : Mission) × (db.missions.row id ≡ some m)
    × ((m.buyer_id ≡ actor) ⊎ (m.traveler_id ≡ some actor))
IsEntitled db get_it id actor =
    (m : Mission) × (db.missions.row id ≡ some m)
    × ((m.buyer_id ≡ actor) ⊎ (m.traveler_id ≡ some actor))
IsEntitled db resolve_it id actor = (u : User) × (db.users actor ≡ some u) × (u.is_admin ≡ true)
IsEntitled db close_it id actor = (u : User) × (db.users actor ≡ some u) × (u.is_admin ≡ true)

-- what everyone else is answered
abbrev pub denial : Request → Code
denial create_ = Code.mission_not_found
denial open_it = Code.mission_not_found
denial escalate_it = Code.mission_not_found
denial get_it = Code.mission_not_found
denial resolve_it = Code.forbidden
denial close_it = Code.forbidden

module _ (id actor : ℕ) (db : Db) where
  buyer-IsEntitled : (find_mission_for_buyer id actor db ≡ none) ⊎ IsEntitled db create_ id actor
  buyer-IsEntitled = elim (Option-cases (find_mission_for_buyer id actor db)) [
    | inl gone ↦ inl gone
    | inr (m, found) ↦
        let (there, is) = find_mission_for_buyer_sound id actor db found in inr (m, there, is)
  ]

  participant-IsEntitled :
      (find_mission_for_participant id actor db ≡ none) ⊎ IsEntitled db get_it id actor
  participant-IsEntitled = elim (Option-cases (find_mission_for_participant id actor db)) [
    | inl gone ↦ inl gone
    | inr ((m, r), found) ↦
        let (there, is) = find_mission_for_participant_sound id actor db found in inr (m, there, is)
  ]

  admin-IsEntitled : (is_request_admin actor db ≡ false) ⊎ IsEntitled db close_it id actor
  unfolding is_request_admin
  admin-IsEntitled = elim (Option-cases (db.users actor)) [
    | inl gone ↦ inl (ground (arith, gone))
    | inr (u, there) ↦ elim (Bool-cases u.is_admin) [
      | inl is ↦ inr (u, there, is)
      | inr no_ ↦ inl (ground (arith, there, no_))
    ]
  ]

IsEntitled-or_denied :
    (r : Request) (c : Call) (w : World)
    → (handle (record c { request = r }) w ≡ (err (dispute_error (denial r)), w))
      ⊎ IsEntitled w.db r c.id c.actor
unfolding create_dispute open_dispute escalate_dispute get_dispute resolve_dispute close_dispute
IsEntitled-or_denied create_ c w = ground (arith, buyer-IsEntitled c.id c.actor w.db)
IsEntitled-or_denied open_it c w = ground (arith, buyer-IsEntitled c.id c.actor w.db)
IsEntitled-or_denied escalate_it c w = ground (arith, participant-IsEntitled c.id c.actor w.db)
IsEntitled-or_denied get_it c w = ground (arith, participant-IsEntitled c.id c.actor w.db)
IsEntitled-or_denied resolve_it c w = ground (arith, admin-IsEntitled c.id c.actor w.db)
IsEntitled-or_denied close_it c w = ground (arith, admin-IsEntitled c.id c.actor w.db)

-- Every request of the service is either refused without any effect, with MISSION_NOT_FOUND, or
-- FORBIDDEN for the requests of an administrator, or made by one who is entitled to it: the buyer of
-- the mission to create or open a dispute, its buyer or traveler to escalate or read it, an
-- administrator to resolve or close it.
pub dispute-IsEntitled :
    (c : Call) (w : World)
    → (handle c w ≡ (err (dispute_error (denial c.request)), w))
      ⊎ IsEntitled w.db c.request c.id c.actor
dispute-IsEntitled c w = IsEntitled-or_denied c.request c w
