-- ===== src/App/Monad.antt =====
-- Actions that read and write the world and may throw.
use waylo_app.Base.{
  ℕ, Bool, Option, none, some, [], ◌∷◌, ◌++◌, if◌then◌else◌, ◌≡◌, refl, ap, ◌⊎◌, inl, inr,
}
use waylo_app.Base.Table.{update_where}
use waylo_app.Schema.Rows.{Mission, Escrow, LedgerEntry, AuditEntry}
use waylo_app.App.Store.{Db, AlertCode, StripeCall, World}

-- The error codes that the modelled code throws.
pub data Code : Type 0 where
  mission_not_found forbidden rate_limited : Code
  cannot_match_own_mission mission_not_matchable mission_already_matched : Code
  traveler_card_missing mission_not_matched receipt_amount_exceeds_budget : Code
  mission_not_in_progress substitution_price_exceeds_limit receipt_already_submitted : Code
  no_inner_seal invalid_qr_proof escrow_not_held escrow_not_found : Code
  substitution_hard_cap_exceeded escrow_capture_failed : Code
  mission_not_customs_locked invalid_mission_state mission_not_terminal : Code
  no_traveler_assigned review_already_submitted customs_review_pending : Code
  mission_not_awaiting_validation version_conflict mission_already_funded : Code
  mission_not_fundable checkout_unavailable invalid_authorization_amount : Code
  insufficient_funds_for_mission mission_not_customs_review : Code
  escrow_invariant_violated mission_not_disputed refund_unavailable : Code
  traveler_not_assigned invalid_input expires_at_in_past : Code
  dispute_not_found dispute_invalid_state invalid_reason invalid_resolution : Code

pub data Fault : Type 0 where
  app_error : Code → ℕ → Fault  -- AppError(code, statusCode)
  capture_error : Code → Fault  -- EscrowCaptureError(code)
  dispute_error : Code → Fault  -- DisputeError(code)
  checkout_error : Code → Fault  -- CheckoutValidationError(code)
  watchdog_exhausted : Fault
  webhook_abort : Fault  -- WebhookAbortError
  unique_violation : Fault
  concurrent_change : Fault  -- ConcurrentChangeError
  unexpected : Fault  -- any other error, answered with 500

pub data Result {ℓ} (A : Type ℓ) : Type ℓ where
  ok : A → Result A
  err : Fault → Result A

abbrev pub Action {ℓ} : Type ℓ → Type ℓ
Action A = World → Result A × World

abbrev pub Done : Type 0
Done = Unit

infixl 5 ◌>>=◌ ◌>>◌
abbrev pub ◌>>=◌ {ℓ κ} : {A : Type ℓ} {B : Type κ} → Action A → (A → Action B) → Action B
◌>>=◌ m k w = let (r, w') = m w in elim r [ ok a ↦ k a w' | err e ↦ (err e, w') ]

abbrev pub ◌>>◌ {ℓ κ} : {A : Type ℓ} {B : Type κ} → Action A → Action B → Action B
m >> k = m >>= λ _. k

module _ {ℓ} {A : Type ℓ} where
  abbrev pub pure : A → Action A
  pure a w = (ok a, w)

  abbrev pub throw : Fault → Action A
  throw e w = (err e, w)

  -- a read of the database
  abbrev pub read : (Db → A) → Action A
  read f w = (ok (f w.db), w)

  abbrev pub or_throw : Option A → Fault → Action A
  or_throw none e = throw e
  or_throw (some a) e = pure a

  -- `prisma.$transaction`: a throw rolls the database back, and nothing else.
  abbrev pub transaction : Action A → Action A
  transaction m w =
      let (r, w') = m w in elim r [ ok a ↦ (ok a, w') | err e ↦ (err e, record w' { db = w.db }) ]

  -- the same, where others have committed before the transaction ends
  abbrev pub transaction_among : (Db → Db) → Action A → Action A
  transaction_among committed m w =
      let (r, w') = m w in
      elim r [ ok a ↦ (ok a, w') | err e ↦ (err e, record w' { db = committed w.db }) ]

  -- `try { m } catch (err) { handle(err) }`
  abbrev pub catch : Action A → (Fault → Action A) → Action A
  catch m handle w = let (r, w') = m w in elim r [ ok a ↦ (ok a, w') | err e ↦ handle e w' ]

abbrev pub throw_if : Bool → Fault → Action Done
throw_if b e w = if b then (err e, w) else (ok tt, w)

abbrev pub modify : (Db → Db) → Action Done
modify f w = (ok tt, record w { db = f w.db })

-- What other requests commit while this one waits.
abbrev pub others : (Db → Db) → Action Done
others f = modify f

-- `safeEmit`
abbrev pub emit : AlertCode → Action Done
emit a w = (ok tt, record w { alerts = w.alerts ++ (a ∷ []) })

abbrev pub stripe_call : StripeCall → Action Done
stripe_call c w = (ok tt, record w { calls = w.calls ++ (c ∷ []) })

-- `mission.updateMany({ where: { id, …test }, data: f })`
abbrev pub update_mission : ℕ → (Mission → Bool) → (Mission → Mission) → Action ℕ
update_mission id test f w =
    let (t, n) = update_where id test f w.db.missions in
    (ok n, record w { db = record w.db { missions = t } })

-- `escrowTransaction.updateMany({ where: { missionId, …test }, data: f })`
abbrev pub update_escrow : ℕ → (Escrow → Bool) → (Escrow → Escrow) → Action ℕ
update_escrow id test f w =
    let (t, n) = update_where id test f w.db.escrows in
    (ok n, record w { db = record w.db { escrows = t } })

abbrev pub add_ledger : LedgerEntry → Action Done
add_ledger x = modify (λ db. record db { ledger = db.ledger ++ (x ∷ []) })

abbrev pub audit : AuditEntry → Action Done
audit a = modify (λ db. record db { audit_log = db.audit_log ++ (a ∷ []) })

pub Result-cases {ℓ} :
    {A : Type ℓ} (r : Result A) → ((a : A) × (r ≡ ok a)) ⊎ ((e : Fault) × (r ≡ err e))
Result-cases (ok a) = inl (a, refl)
Result-cases (err e) = inr (e, refl)

-- What follows a step that has returned, or thrown.
module _ {ℓ κ} {A : Type ℓ} {B : Type κ} (m : Action A) (k : A → Action B) where
  abbrev continue : Result A × World → Result B × World
  continue p = elim p.0 [ ok a ↦ k a p.1 | err e ↦ (err e, p.1) ]

  pub >>=-ok : {w w' : World} {a : A} → m w ≡ (ok a, w') → (m >>= k) w ≡ k a w'
  >>=-ok h = ap continue h

  pub >>=-err : {w w' : World} {e : Fault} → m w ≡ (err e, w') → (m >>= k) w ≡ (err e, w')
  >>=-err h = ap continue h
