-- ===== src/Jit.antt =====
-- The decision on a just-in-time card authorisation: src/services/stripe/jit-handler.service.ts.
pub mod Laws
mod Examples
use waylo_app.Base.{
  ℕ, ◌*◌, ◌/◌, Bool, true, false, ◌||◌, Option, none, some, ltb, leb, if◌then◌else◌,
}
use waylo_app.Schema.Status.{MissionStatus, EscrowStatus, is_status, is_escrow_status}
use waylo_app.Money.{substitution_hard_cap_cents}

pub data StripeDeclineReason : Type 0 where
  insufficient_funds spending_controls not_allowed card_inactive : StripeDeclineReason

pub data JitInternalReason : Type 0 where
  within_budget no_pending_amount unknown_card mission_disputed : JitInternalReason
  mission_cancelled escrow_not_held over_budget hard_cap_exceeded : JitInternalReason

pub record JitEscrow : Type 0 where
  pub status : EscrowStatus
  pub spending_limit_cents : ℕ

pub record JitMission : Type 0 where
  pub status : MissionStatus
  pub substitution_authorized : Bool
  pub budget_cents : ℕ

-- A requested amount of 0 stands for every amount that is not positive.
pub record JitDecisionInput : Type 0 where
  pub requested_amount_cents : Option ℕ
  pub escrow : Option JitEscrow
  pub mission : Option JitMission

pub record JitAuthorizationDecision : Type 0 where
  pub approved : Bool
  pub reason : JitInternalReason
  pub decline_code : Option StripeDeclineReason

abbrev refuse : JitInternalReason → StripeDeclineReason → JitAuthorizationDecision
refuse r d = record { approved = false; reason = r; decline_code = some d }

-- the ceiling of one authorisation: 120% of the budget under substitution, else the frozen limit
unfoldable pub jit_ceiling_cents : JitEscrow → JitMission → ℕ
jit_ceiling_cents e m =
    if m.substitution_authorized then m.budget_cents * 12 / 10 else e.spending_limit_cents

-- the guards that follow the look-up of the card, for a positive amount
unfoldable pub decide_known_card : ℕ → JitEscrow → JitMission → JitAuthorizationDecision
decide_known_card amount e m =
    if is_status m.status MissionStatus.disputed
    then refuse JitInternalReason.mission_disputed StripeDeclineReason.not_allowed
    else if is_status m.status MissionStatus.cancelled
    then refuse JitInternalReason.mission_cancelled StripeDeclineReason.not_allowed
    else if is_escrow_status e.status EscrowStatus.held
    then (if ltb (substitution_hard_cap_cents m.budget_cents) amount
        then refuse JitInternalReason.hard_cap_exceeded StripeDeclineReason.spending_controls
        else if ltb (jit_ceiling_cents e m) amount
        then refuse JitInternalReason.over_budget StripeDeclineReason.insufficient_funds
        else record {
          approved = true;
          reason = JitInternalReason.within_budget;
          decline_code = none;
        })
    else refuse JitInternalReason.escrow_not_held StripeDeclineReason.insufficient_funds

known_card : ℕ → Option JitEscrow → Option JitMission → JitAuthorizationDecision
unfolding decide_known_card
known_card amount (some e) (some m) = decide_known_card amount e m
known_card amount none _ = refuse JitInternalReason.unknown_card StripeDeclineReason.card_inactive
known_card amount (some e) none =
    refuse JitInternalReason.unknown_card StripeDeclineReason.card_inactive

pending_amount : Option ℕ → Option JitEscrow → Option JitMission → JitAuthorizationDecision
unfolding known_card
pending_amount none _ _ = refuse JitInternalReason.no_pending_amount StripeDeclineReason.not_allowed
pending_amount (some a) e m =
    if leb a 0
    then refuse JitInternalReason.no_pending_amount StripeDeclineReason.not_allowed
    else known_card a e m

unfoldable pub decide_jit_authorization : JitDecisionInput → JitAuthorizationDecision
unfolding pending_amount
decide_jit_authorization i = pending_amount i.requested_amount_cents i.escrow i.mission

-- `toWebhookReply`
unfoldable pub to_webhook_reply : JitAuthorizationDecision → Bool
to_webhook_reply d = d.approved
