-- ===== src/Disputes/Requests/Examples.antt =====
-- A dispute that is escalated, resolved and closed.
use waylo_app.Base.{ℕ, ◌≡◌, ◌⊎◌, none, some, [], ◌∷◌, refl}
use waylo_app.Schema.Status.{MissionStatus, open_}
use waylo_app.Schema.Rows.{Dispute}
use waylo_app.App.{World, Code, err, dispute_error}
use waylo_app.Samples.{sample_world, single, undisturbed}
use waylo_app.Missions.Access.{find_mission_for_buyer}
use waylo_app.Disputes.{open_dispute}
use waylo_app.Disputes.Machine.{IsLater}
use waylo_app.Disputes.Steps.{steps-here}
use waylo_app.Disputes.Requests.{
  Request, open_it, escalate_it, Call, IsPolite, handle, handle_all, denial, disputes_history,
  dispute-IsEntitled, IsEntitled,
}

abbrev sample_dispute : Dispute
sample_dispute = record {
  opened_by_id = 1;
  status = open_;
  reason = none;
  resolution = none;
  opened_at = some 500;
  escalated_at = none;
  resolved_at = none;
  closed_at = none;
}

abbrev disputed_world : World
disputed_world =
    let w = sample_world MissionStatus.disputed in
    record w { db = record w.db { disputes = single 7 sample_dispute } }

abbrev call : Request → ℕ → Call
call r actor = record {
  request = r;
  before = undisturbed;
  between = undisturbed;
  time = 600;
  id = 7;
  actor = actor;
  text = none;
}

polite : (r : Request) (actor : ℕ) → IsPolite (call r actor)
polite r actor = record { before = steps-here; between = steps-here }

disputes_history_example :
    (d' : Dispute) × ((handle_all
          (call open_it 1 ∷ call escalate_it 2 ∷ [])
          disputed_world).db.disputes.row
        7
      ≡ some d')
    × IsLater sample_dispute d'
disputes_history_example =
    disputes_history (call open_it 1 ∷ call escalate_it 2 ∷ []) disputed_world 7 sample_dispute
      (polite open_it 1, (polite escalate_it 2, tt)) refl

dispute-IsEntitled_example :
    (handle (call open_it 3) disputed_world
      ≡ (err (dispute_error (denial open_it)), disputed_world))
    ⊎ IsEntitled disputed_world.db open_it 7 3
dispute-IsEntitled_example = dispute-IsEntitled (call open_it 3) disputed_world

-- A stranger is refused.
stranger_denied :
    handle (call open_it 3) disputed_world
    ≡ (err (dispute_error Code.mission_not_found), disputed_world)
unfolding open_dispute find_mission_for_buyer
stranger_denied = refl
