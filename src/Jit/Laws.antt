-- ===== src/Jit/Laws.antt =====
-- What an approval means, and how refusals are ordered.
use waylo_app.Base.{
  ℕ, ◌≤◌, ◌<◌, ◌≡◌, ◌≢◌, ◌↔◌, ◌⊎◌, true, some, none, Option-cases, inl, inr, arith,
}
use waylo_app.Schema.Status.{MissionStatus, EscrowStatus, is_status_iff, is_escrow_status_iff}
use waylo_app.Money.{substitution_hard_cap_cents}
use waylo_app.Jit.{
  JitEscrow, JitMission, JitDecisionInput, JitInternalReason, jit_ceiling_cents,
  decide_jit_authorization, to_webhook_reply,
}

-- The conditions of an approval, as `decideJitAuthorization` tests them.
pub record IsApprovable (i : JitDecisionInput) (a : ℕ) (e : JitEscrow) (m : JitMission)
    : Type 0 where
  pub requested : i.requested_amount_cents ≡ some a
  pub card : i.escrow ≡ some e
  pub known : i.mission ≡ some m
  pub positive : 0 < a
  pub not_disputed : m.status ≢ MissionStatus.disputed
  pub not_cancelled : m.status ≢ MissionStatus.cancelled
  pub is_held : e.status ≡ EscrowStatus.held
  pub below_cap : a ≤ substitution_hard_cap_cents m.budget_cents
  pub below_ceiling : a ≤ jit_ceiling_cents e m

approved_of_IsApprovable :
    (i : JitDecisionInput) (a : ℕ) (e : JitEscrow) (m : JitMission)
    → IsApprovable i a e m
    → to_webhook_reply (decide_jit_authorization i) ≡ true
unfolding decide_jit_authorization to_webhook_reply
approved_of_IsApprovable i a e m h = ground (
  arith,
  is_status_iff m.status MissionStatus.disputed,
  is_status_iff m.status MissionStatus.cancelled,
  is_escrow_status_iff e.status EscrowStatus.held,
)

known_card_approved :
    (i : JitDecisionInput) (a : ℕ) (e : JitEscrow) (m : JitMission)
    → i.requested_amount_cents ≡ some a
    → i.escrow ≡ some e
    → i.mission ≡ some m
    → to_webhook_reply (decide_jit_authorization i) ≡ true
    → IsApprovable i a e m
unfolding decide_jit_authorization to_webhook_reply
known_card_approved i a e m ha he hm h = ground (
  arith,
  is_status_iff m.status MissionStatus.disputed,
  is_status_iff m.status MissionStatus.cancelled,
  is_escrow_status_iff e.status EscrowStatus.held,
)

jit_lacks_fact :
    (i : JitDecisionInput)
    → (i.requested_amount_cents ≡ none) ⊎ (i.escrow ≡ none) ⊎ (i.mission ≡ none)
    → to_webhook_reply (decide_jit_authorization i) ≢ true
unfolding decide_jit_authorization to_webhook_reply
jit_lacks_fact i h = ground arith

IsApprovable-of_approved :
    (i : JitDecisionInput)
    → to_webhook_reply (decide_jit_authorization i) ≡ true
    → (a : ℕ) × (e : JitEscrow) × (m : JitMission) × IsApprovable i a e m
IsApprovable-of_approved i h = elim (Option-cases i.requested_amount_cents) [
  | inl no_amount ↦ absurd (jit_lacks_fact i (inl no_amount) h)
  | inr (a, ha) ↦ elim (Option-cases i.escrow) [
    | inl no_card ↦ absurd (jit_lacks_fact i (inr (inl no_card)) h)
    | inr (e, he) ↦ elim (Option-cases i.mission) [
      | inl no_mission ↦ absurd (jit_lacks_fact i (inr (inr no_mission)) h)
      | inr (m, hm) ↦ (a, e, m, known_card_approved i a e m ha he hm h)
    ]
  ]
]

-- An authorisation is answered with approval exactly when a positive amount is requested on a card
-- whose escrow and mission are known, the mission is neither DISPUTED nor CANCELLED, the escrow is
-- held, and the amount is within both the ceiling of the mission and 150% of its budget.
pub jit_approved_iff :
    (i : JitDecisionInput)
    → (to_webhook_reply (decide_jit_authorization i) ≡ true)
      ↔ ((a : ℕ) × (e : JitEscrow) × (m : JitMission) × IsApprovable i a e m)
jit_approved_iff i = (IsApprovable-of_approved i, λ h. approved_of_IsApprovable i h.0 h.1 h.2 h.3)

-- The decline code is absent exactly on approval, and so is every audit reason but WITHIN_BUDGET.
jit_decline_iff :
    (i : JitDecisionInput)
    → let d = decide_jit_authorization i in
      ((d.approved ≡ true) ↔ (d.decline_code ≡ none))
      × ((d.approved ≡ true) ↔ (d.reason ≡ JitInternalReason.within_budget))
unfolding decide_jit_authorization
jit_decline_iff i = ground arith
