-- ===== src/Disputes.antt =====
-- src/services/dispute.service.ts.
pub mod Machine
pub mod InTx
pub mod Steps
pub mod Requests
use waylo_app.Base.{
  ℕ, Bool, true, false, not, ◌&&◌, ◌||◌, Option, none, some, ltb, length, Text, ◌==◌, if◌then◌else◌,
}
use waylo_app.Base.Table.{Table, create, update_where}
use waylo_app.Schema.Status.{
  DisputeStatus, draft, open_, escalated, resolved, closed, is_dispute_status,
}
use waylo_app.Schema.Rows.{Mission, Dispute}
use waylo_app.App.{
  Db, World, Code, Fault, dispute_error, Result, Action, Done, ◌>>=◌, ◌>>◌, pure, throw, read,
  or_throw, throw_if, others,
}
use waylo_app.Missions.Access.{find_mission_for_buyer, find_mission_for_participant}
use waylo_app.Missions.Admin.{is_request_admin}

abbrev pub max_text : ℕ
max_text = 2_000

unfoldable pub assert_buyer : (id actor : ℕ) → Action Mission
assert_buyer id actor = do
  mission ← read (find_mission_for_buyer id actor)
  or_throw mission (dispute_error Code.mission_not_found)

abbrev pub is_found {ℓ} : {A : Type ℓ} → Option A → Bool
is_found none = false
is_found (some a) = true

unfoldable pub assert_participant : (id actor : ℕ) → Action Done
assert_participant id actor = do
  access ← read (find_mission_for_participant id actor)
  throw_if (not (is_found access)) (dispute_error Code.mission_not_found)

unfoldable pub assert_admin : ℕ → Action Done
assert_admin actor = do
  admin ← read (is_request_admin actor)
  throw_if (not admin) (dispute_error Code.forbidden)

-- a text that is given and longer than MAX_TEXT is refused
unfoldable pub too_long : Option Text → Bool
too_long none = false
too_long (some t) = ltb max_text (length t)

abbrev pub sanitize_text : Option Text → Code → Action Done
sanitize_text value code = throw_if (too_long value) (dispute_error code)

unfoldable pub get_or_throw : ℕ → Action Dispute
get_or_throw id = do
  dispute ← read (λ db. db.disputes.row id)
  or_throw dispute (dispute_error Code.dispute_not_found)

-- `dispute.updateMany({ where: { missionId, status: from }, data: f })`
unfoldable pub update_dispute : ℕ → DisputeStatus → (Dispute → Dispute) → Action ℕ
update_dispute id from f w =
    let (t, n) = update_where id (λ d. is_dispute_status d.status from) f w.db.disputes in
    (Result.ok n, record w { db = record w.db { disputes = t } })

abbrev pub replay_or_conflict : DisputeStatus → Dispute → Action Dispute
replay_or_conflict to current =
    if is_dispute_status current.status to
    then pure current
    else throw (dispute_error Code.dispute_invalid_state)

-- `transition`, where `f` writes the status `to` and its date; `between` is what others commit
-- before the row is read again
unfoldable pub transition :
    (Db → Db) → ℕ → DisputeStatus → DisputeStatus → (Dispute → Dispute) → Action Dispute
unfolding update_dispute get_or_throw
transition between id from to f = do
  count ← update_dispute id from f
  others between
  current ← get_or_throw id
  if count == 1 then pure current else replay_or_conflict to current

abbrev pub new_dispute : ℕ → Option Text → Dispute
new_dispute actor reason = record {
  opened_by_id = actor;
  status = draft;
  reason = reason;
  resolution = none;
  opened_at = none;
  escalated_at = none;
  resolved_at = none;
  closed_at = none;
}

-- `dispute.create`, or the dispute of the mission where there is one
unfoldable pub create_or_get : (id actor : ℕ) → Option Text → Action Dispute
unfolding get_or_throw
create_or_get id actor reason w = elim (create id (new_dispute actor reason) w.db.disputes) [
  | none ↦ get_or_throw id w
  | some t ↦ (Result.ok (new_dispute actor reason), record w { db = record w.db { disputes = t } })
]

-- `createDispute`
unfoldable pub create_dispute : (Db → Db) → (id actor : ℕ) → Option Text → Action Dispute
unfolding assert_buyer create_or_get
create_dispute before id actor reason = do
  mission ← assert_buyer id actor
  sanitize_text reason Code.invalid_reason
  others before
  create_or_get id actor reason

abbrev pub opened : ℕ → Dispute → Dispute
opened t d = record d { status = open_; opened_at = some t }

abbrev pub escalated_at_time : ℕ → Dispute → Dispute
escalated_at_time t d = record d { status = escalated; escalated_at = some t }

-- the resolution is written only if it is given
abbrev pub resolved_with : ℕ → Option Text → Dispute → Dispute
resolved_with t resolution d = record d {
  status = resolved;
  resolved_at = some t;
  resolution = elim resolution [ none ↦ d.resolution | some r ↦ some r ];
}

abbrev pub closed_at_time : ℕ → Dispute → Dispute
closed_at_time t d = record d { status = closed; closed_at = some t }

-- `openDispute`
unfoldable pub open_dispute : (Db → Db) → (Db → Db) → (time id actor : ℕ) → Action Dispute
unfolding assert_buyer transition
open_dispute before between time id actor = do
  mission ← assert_buyer id actor
  others before
  transition between id draft open_ (opened time)

-- `escalateDispute`
unfoldable pub escalate_dispute : (Db → Db) → (Db → Db) → (time id actor : ℕ) → Action Dispute
unfolding assert_participant transition
escalate_dispute before between time id actor = do
  assert_participant id actor
  others before
  transition between id open_ escalated (escalated_at_time time)

abbrev pub is_arbitrable : DisputeStatus → Bool
is_arbitrable s = is_dispute_status s open_ || is_dispute_status s escalated

-- the decision on a dispute that is not resolved yet
unfoldable pub arbitrate :
    (Db → Db) → (Db → Db) → (time id : ℕ) → Option Text → Dispute → Action Dispute
unfolding transition
arbitrate before between time id resolution current = do
  throw_if (not (is_arbitrable current.status)) (dispute_error Code.dispute_invalid_state)
  others before
  transition between id current.status resolved (resolved_with time resolution)

-- `resolveDispute`
unfoldable pub resolve_dispute :
    (Db → Db) → (Db → Db) → (time id actor : ℕ) → Option Text → Action Dispute
unfolding assert_admin get_or_throw arbitrate
resolve_dispute before between time id actor resolution = do
  assert_admin actor
  sanitize_text resolution Code.invalid_resolution
  current ← get_or_throw id
  if is_dispute_status current.status resolved
      then pure current
      else arbitrate before between time id resolution current

-- `closeDispute`
unfoldable pub close_dispute : (Db → Db) → (Db → Db) → (time id actor : ℕ) → Action Dispute
unfolding assert_admin transition
close_dispute before between time id actor = do
  assert_admin actor
  others before
  transition between id resolved closed (closed_at_time time)

-- `getDispute`
unfoldable pub get_dispute : (id actor : ℕ) → Action Dispute
unfolding assert_participant get_or_throw
get_dispute id actor = do assert_participant id actor; get_or_throw id

-- `createDisputeInTx`: an upsert that changes nothing where there is a dispute
unfoldable pub create_dispute_in_tx : (id actor : ℕ) → Option Text → Action Done
create_dispute_in_tx id actor reason w = elim (create id (new_dispute actor reason) w.db.disputes) [
  | none ↦ (Result.ok tt, w)
  | some t ↦ (Result.ok tt, record w { db = record w.db { disputes = t } })
]

-- `openDisputeInTx`
unfoldable pub open_dispute_in_tx : (time id : ℕ) → Action Done
unfolding update_dispute
open_dispute_in_tx time id = do count ← update_dispute id draft (opened time); pure tt
