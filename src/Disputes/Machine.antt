-- ===== src/Disputes/Machine.antt =====
-- The life of a dispute as the header of src/services/dispute.service.ts describes it: DRAFT → OPEN →
-- ESCALATED → RESOLVED → CLOSED, and never back.
use waylo_app.Base.{ℕ, ◌≤◌, ◌≡◌, ◌⊎◌, ◌∙◌, arith, Option, some, Text}
use waylo_app.Schema.Status.{DisputeStatus, draft, open_, escalated, resolved, closed}
use waylo_app.Schema.Rows.{Dispute}

pub data Step (d d' : Dispute) : Type 0 where
  open_draft :
      (t : ℕ) → d.status ≡ draft → d' ≡ record d { status = open_; opened_at = some t } → Step d d'
  escalate :
      (t : ℕ)
      → d.status ≡ open_
      → d' ≡ record d { status = escalated; escalated_at = some t }
      → Step d d'
  resolve :
      (t : ℕ) (text : Option Text)
      → (d.status ≡ open_) ⊎ (d.status ≡ escalated)
      → d' ≡ record d { status = resolved; resolved_at = some t; resolution = text }
      → Step d d'
  close :
      (t : ℕ)
      → d.status ≡ resolved
      → d' ≡ record d { status = closed; closed_at = some t }
      → Step d d'

pub data Steps (d : Dispute) : Dispute → Type 0 where
  here : Steps d d
  next : {e f : Dispute} → Steps d e → Step e f → Steps d f

pub Steps-trans : {d e f : Dispute} → Steps d e → Steps e f → Steps d f
Steps-trans p here = p
Steps-trans p (next q s) = next (Steps-trans p q) s

abbrev pub rank : DisputeStatus → ℕ
rank draft = 0
rank open_ = 1
rank escalated = 2
rank resolved = 3
rank closed = 4

-- What may have become of the dispute `d`: it is not back in an earlier state, its opener and its
-- reason are the same, and whatever its state has settled has not changed.
pub record IsLater (d d' : Dispute) : Type 0 where
  pub forward : rank d.status ≤ rank d'.status
  pub opener : d'.opened_by_id ≡ d.opened_by_id
  pub motive : d'.reason ≡ d.reason
  pub opening : 1 ≤ rank d.status → d'.opened_at ≡ d.opened_at
  pub escalation : 2 ≤ rank d.status → d'.escalated_at ≡ d.escalated_at
  pub decision :
      3 ≤ rank d.status → (d'.resolved_at ≡ d.resolved_at) × (d'.resolution ≡ d.resolution)
  pub end : 4 ≤ rank d.status → d' ≡ d

Step-IsLater : {d d' : Dispute} → Step d d' → IsLater d d'
Step-IsLater (open_draft t from e) = ground arith
Step-IsLater (escalate t from e) = ground arith
Step-IsLater (resolve t text from e) = ground arith
Step-IsLater (close t from e) = ground arith

IsLater-trans : {d e f : Dispute} → IsLater d e → IsLater e f → IsLater d f
IsLater-trans {d} {e} {f} p q = record {
  forward = omega arith;
  opener = q.opener ∙ p.opener;
  motive = q.motive ∙ p.motive;
  opening = λ h. q.opening (omega arith) ∙ p.opening h;
  escalation = λ h. q.escalation (omega arith) ∙ p.escalation h;
  decision = λ h.
      let (date, text) = p.decision h in
      let (date', text') = q.decision (omega arith) in (date' ∙ date, text' ∙ text);
  end = λ h. q.end (omega arith) ∙ p.end h;
}

pub Steps-IsLater : {d d' : Dispute} → Steps d d' → IsLater d d'
Steps-IsLater here = ground arith
Steps-IsLater (next p s) = IsLater-trans (Steps-IsLater p) (Step-IsLater s)
