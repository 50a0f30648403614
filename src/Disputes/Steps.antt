-- ===== src/Disputes/Steps.antt =====
-- The functions of src/services/dispute.service.ts as steps of the disputes.
use waylo_app.Base.{
  ℕ, ◌≡◌, inl, inr, refl, sym, ap, ◌∙◌, arith, true, not, Option, some, Text, ◌==◌, Option-cases,
  Bool-cases,
}
use waylo_app.Schema.Status.{
  DisputeStatus, draft, open_, escalated, resolved, closed, is_dispute_status,
  is_dispute_status_iff,
}
use waylo_app.Schema.Rows.{Dispute}
use waylo_app.App.{Db, World, Code, dispute_error, others}
use waylo_app.App.Keeps.{
  Order, Keeps, pure-Keeps, throw-Keeps, read-Keeps, or_throw-Keeps, throw_if-Keeps, others-Keeps,
  if-Keeps, bind-Keeps,
}
use waylo_app.Disputes.Machine.{
  Step, Steps, here, next, open_draft, escalate, resolve, close, Steps-trans,
}
use waylo_app.Disputes.{
  update_dispute, transition, create_or_get, get_or_throw, create_dispute, open_dispute,
  escalate_dispute, resolve_dispute, arbitrate, close_dispute, assert_buyer, assert_participant,
  assert_admin, opened, escalated_at_time, resolved_with, closed_at_time, is_arbitrable, is_found,
  too_long, sanitize_text, replay_or_conflict,
}
use waylo_app.Missions.Access.{find_mission_for_buyer, find_mission_for_participant}
use waylo_app.Missions.Admin.{is_request_admin}

-- Every dispute is still there, after steps of the machine.
abbrev pub DisputeSteps : Db → Db → Type 0
DisputeSteps db db' =
    (k : ℕ) (d : Dispute)
    → db.disputes.row k ≡ some d
    → (d' : Dispute) × (db'.disputes.row k ≡ some d') × Steps d d'

pub steps-here : (db : Db) → DisputeSteps db db
steps-here db k d there = (d, there, here)

pub steps-along : (a b c : Db) → DisputeSteps a b → DisputeSteps b c → DisputeSteps a c
steps-along a b c p q k d there =
    let (e, there_e, ps) = p k d there in
    let (f, there_f, qs) = q k e there_e in (f, there_f, Steps-trans ps qs)

pub steps : Order DisputeSteps
steps = record { here = steps-here; along = steps-along }

-- A conditional update makes a step, where its test is the state that the step starts from.
update-row :
    (id : ℕ) (from : DisputeStatus) (f : Dispute → Dispute) (w : World)
    → ((d : Dispute) → d.status ≡ from → Step d (f d))
    → DisputeSteps w.db (update_dispute id from f w).1.db
unfolding update_dispute
update-row id from f w step k d there = elim (Option-cases (w.db.disputes.row id)) [
  | inl gone ↦ (d, ground (arith, gone, there), here)
  | inr (d0, there0) ↦ elim (Bool-cases (is_dispute_status d0.status from)) [
    | inr no_ ↦ (d, ground (arith, there0, no_, there), here)
    | inl yes_ ↦ elim (Bool-cases (k == id)) [
      | inr other ↦ (d, ground (arith, there0, yes_, there, other), here)
      | inl same ↦
          let e : d0 ≡ d = ground (arith, there0, there, same) in
          let from_ = (is_dispute_status_iff d0.status from).0 yes_ in
          (
            f d,
            ground (arith, e, there0, yes_, same),
            next here (step d (ap (λ x. x.status) (sym e) ∙ from_)),
          )
    ]
  ]
]

update-Keeps :
    (id : ℕ) (from : DisputeStatus) (f : Dispute → Dispute)
    → ((d : Dispute) → d.status ≡ from → Step d (f d))
    → Keeps DisputeSteps (update_dispute id from f)
update-Keeps id from f step = record { keeps = λ w. update-row id from f w step }

create_or_get-row :
    (id actor : ℕ) (reason : Option Text) (w : World)
    → DisputeSteps w.db (create_or_get id actor reason w).1.db
unfolding create_or_get get_or_throw
create_or_get-row id actor reason w k d there = elim (Option-cases (w.db.disputes.row id)) [
  | inl gone ↦ (d, ground (arith, gone, there), here)
  | inr (d0, there0) ↦ (d, ground (arith, there0, there), here)
]

create_or_get-Keeps :
    (id actor : ℕ) (reason : Option Text) → Keeps DisputeSteps (create_or_get id actor reason)
create_or_get-Keeps id actor reason = record { keeps = create_or_get-row id actor reason }

pub get-Keeps : (id : ℕ) → Keeps DisputeSteps (get_or_throw id)
unfolding get_or_throw
get-Keeps id =
    bind-Keeps steps (read-Keeps steps (λ db. db.disputes.row id))
      (λ o. or_throw-Keeps steps o (dispute_error Code.dispute_not_found))

buyer-Keeps : (id actor : ℕ) → Keeps DisputeSteps (assert_buyer id actor)
unfolding assert_buyer
buyer-Keeps id actor =
    bind-Keeps steps (read-Keeps steps (find_mission_for_buyer id actor))
      (λ o. or_throw-Keeps steps o (dispute_error Code.mission_not_found))

pub participant-Keeps : (id actor : ℕ) → Keeps DisputeSteps (assert_participant id actor)
unfolding assert_participant
participant-Keeps id actor =
    bind-Keeps steps (read-Keeps steps (find_mission_for_participant id actor))
      (λ o. throw_if-Keeps steps (not (is_found o)) (dispute_error Code.mission_not_found))

admin-Keeps : (actor : ℕ) → Keeps DisputeSteps (assert_admin actor)
unfolding assert_admin
admin-Keeps actor =
    bind-Keeps steps (read-Keeps steps (is_request_admin actor))
      (λ o. throw_if-Keeps steps (not o) (dispute_error Code.forbidden))

sanitize-Keeps : (t : Option Text) (c : Code) → Keeps DisputeSteps (sanitize_text t c)
sanitize-Keeps t c = throw_if-Keeps steps (too_long t) (dispute_error c)

replay-Keeps : (to : DisputeStatus) (d : Dispute) → Keeps DisputeSteps (replay_or_conflict to d)
replay-Keeps to d =
    if-Keeps steps (is_dispute_status d.status to) (pure-Keeps steps d)
      (throw-Keeps steps (dispute_error Code.dispute_invalid_state))

resolved_with-Step :
    (t : ℕ) (text : Option Text) (s : DisputeStatus) (d : Dispute)
    → is_arbitrable s ≡ true
    → d.status ≡ s
    → Step d (resolved_with t text d)
unfolding is_dispute_status
resolved_with-Step t text open_ d ok is = resolve t _ (inl is) refl
resolved_with-Step t text escalated d ok is = resolve t _ (inr is) refl
resolved_with-Step t text draft d ok is = absurd (ground (arith, ok))
resolved_with-Step t text resolved d ok is = absurd (ground (arith, ok))
resolved_with-Step t text closed d ok is = absurd (ground (arith, ok))

module _ (before between : Db → Db) (polite : (db : Db) → DisputeSteps db (before db))
    (polite' : (db : Db) → DisputeSteps db (between db)) (time id actor : ℕ) where
  before-Keeps : Keeps DisputeSteps (others before)
  before-Keeps = others-Keeps steps before polite

  transition-Keeps :
      (from to : DisputeStatus) (f : Dispute → Dispute)
      → ((d : Dispute) → d.status ≡ from → Step d (f d))
      → Keeps DisputeSteps (transition between id from to f)
  unfolding transition
  transition-Keeps from to f step = bind-Keeps steps (update-Keeps id from f step) (λ count.
      bind-Keeps steps (others-Keeps steps between polite') (λ _.
        bind-Keeps steps (get-Keeps id)
          (λ d. if-Keeps steps (count == 1) (pure-Keeps steps d) (replay-Keeps to d))))

  pub create-Keeps :
      (reason : Option Text) → Keeps DisputeSteps (create_dispute before id actor reason)
  unfolding create_dispute
  create-Keeps reason = bind-Keeps steps (buyer-Keeps id actor) (λ m.
      bind-Keeps steps (sanitize-Keeps reason Code.invalid_reason)
        (λ _. bind-Keeps steps before-Keeps (λ _. create_or_get-Keeps id actor reason)))

  pub open-Keeps : Keeps DisputeSteps (open_dispute before between time id actor)
  unfolding open_dispute
  open-Keeps = bind-Keeps steps (buyer-Keeps id actor) (λ m.
      bind-Keeps steps before-Keeps
        (λ _. transition-Keeps draft open_ (opened time) (λ d is. open_draft time is refl)))

  pub escalate-Keeps : Keeps DisputeSteps (escalate_dispute before between time id actor)
  unfolding escalate_dispute
  escalate-Keeps = bind-Keeps steps (participant-Keeps id actor) (λ m.
      bind-Keeps steps before-Keeps (λ _.
        transition-Keeps open_ escalated (escalated_at_time time) (λ d is. escalate time is refl)))

  pub close-Keeps : Keeps DisputeSteps (close_dispute before between time id actor)
  unfolding close_dispute
  close-Keeps = bind-Keeps steps (admin-Keeps actor) (λ m.
      bind-Keeps steps before-Keeps
        (λ _. transition-Keeps resolved closed (closed_at_time time) (λ d is. close time is refl)))

  arbitrate-Keeps :
      (text : Option Text) (d : Dispute)
      → Keeps DisputeSteps (arbitrate before between time id text d)
  unfolding arbitrate
  arbitrate-Keeps text d = elim (Bool-cases (is_arbitrable d.status)) [
    | inl ok ↦
        bind-Keeps steps
          (throw_if-Keeps steps (not (is_arbitrable d.status))
            (dispute_error Code.dispute_invalid_state))
          (λ _. bind-Keeps steps before-Keeps (λ _.
            transition-Keeps d.status resolved (resolved_with time text)
              (λ e is. resolved_with-Step time text d.status e ok is)))
    | inr no_ ↦ rw no_ (record { keeps = λ w. steps-here w.db })
  ]

  pub resolve-Keeps :
      (text : Option Text) → Keeps DisputeSteps (resolve_dispute before between time id actor text)
  unfolding resolve_dispute
  resolve-Keeps text = bind-Keeps steps (admin-Keeps actor) (λ _.
      bind-Keeps steps (sanitize-Keeps text Code.invalid_resolution) (λ _.
        bind-Keeps steps (get-Keeps id) (λ d.
          if-Keeps steps (is_dispute_status d.status resolved) (pure-Keeps steps d)
            (arbitrate-Keeps text d))))
