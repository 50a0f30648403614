-- ===== src/Jit/Examples.antt =====
-- Tests of src/services/stripe/jit-handler.service.ts.
use waylo_app.Base.{ℕ, ◌≡◌, ◌↔◌, refl, true, some}
use waylo_app.Schema.Status.{MissionStatus, EscrowStatus, is_status, is_escrow_status}
use waylo_app.Money.{substitution_hard_cap_cents}
use waylo_app.Jit.{
  JitEscrow, JitMission, JitDecisionInput, JitInternalReason, jit_ceiling_cents,
  decide_jit_authorization, to_webhook_reply,
}
use waylo_app.Jit.Laws.{IsApprovable, jit_approved_iff}

abbrev purchase : ℕ → JitDecisionInput
purchase amount = record {
  requested_amount_cents = some amount;
  escrow = some (record { status = EscrowStatus.held; spending_limit_cents = 10_000 });
  mission = some (record {
    status = MissionStatus.in_progress;
    substitution_authorized = true;
    budget_cents = 10_000;
  });
}

within_substitution : to_webhook_reply (decide_jit_authorization (purchase 12_000)) ≡ true
unfolding to_webhook_reply decide_jit_authorization is_status is_escrow_status
    substitution_hard_cap_cents jit_ceiling_cents
within_substitution = refl

over_budget : (decide_jit_authorization (purchase 12_001)).reason ≡ JitInternalReason.over_budget
unfolding decide_jit_authorization is_status is_escrow_status substitution_hard_cap_cents
    jit_ceiling_cents
over_budget = refl

jit_approved_iff_example :
    (to_webhook_reply (decide_jit_authorization (purchase 12_000)) ≡ true)
    ↔ ((a : ℕ) × (e : JitEscrow) × (m : JitMission) × IsApprovable (purchase 12_000) a e m)
jit_approved_iff_example = jit_approved_iff (purchase 12_000)
