-- ===== src/Webhook/Settle.antt =====
-- Step 3 of `handleCapture` in src/stripe/webhook.route.ts: the release of a captured escrow.
use waylo_app.Base.{
  ℕ, ◌+◌, ◌-◌, Bool, true, not, ◌&&◌, ◌||◌, Option, none, some, List, [], ◌∷◌, ltb, ◌==◌,
  if◌then◌else◌, get_or,
}
use waylo_app.Base.Table.{create}
use waylo_app.Schema.Status.{
  MissionStatus, EscrowStatus, LedgerType, TransferStatus, is_status, is_escrow_status, status_in,
}
use waylo_app.Schema.Rows.{Mission, LedgerEntry}
use waylo_app.App.{
  AlertCode, Fault, Result, Action, Done, ◌>>=◌, ◌>>◌, pure, read, update_mission, update_escrow,
  add_ledger,
}
use waylo_app.Webhook.Effects.{EffectOutcome, NotificationAlias, DeferredNotification, abort_if}

-- `spendableCents` is split into the payout of the traveler and the credit of the buyer's wallet.
unfoldable pub payout_cents : Mission → ℕ → ℕ
payout_cents m spendable = elim m.purchase_amount_cents [
  | none ↦ spendable
  | some purchase ↦
      if m.substitution_authorized && ltb purchase spendable then purchase else spendable
]

unfoldable pub wallet_credit_cents : Mission → ℕ → ℕ
wallet_credit_cents m spendable = elim m.purchase_amount_cents [
  | none ↦ 0
  | some purchase ↦
      if m.substitution_authorized && ltb purchase spendable then spendable - purchase else 0
]

abbrev pub entry : ℕ → LedgerType → ℕ → LedgerEntry
entry id t amount = record { escrow_id = id; type = t; amount_cents = amount }

-- the wallet is created on the fly; a second transaction of the mission is a unique violation
unfoldable pub credit_wallet : ℕ → Mission → ℕ → Action Done
credit_wallet id m credit w =
    elim (create id (record { user_id = m.buyer_id; amount_cents = credit })
      w.db.wallet_transactions) [
        | none ↦ (Result.err Fault.unique_violation, w)
        | some txs ↦ (
          Result.ok tt,
          record w {
            db = record w.db {
              wallet_transactions = txs;
              wallets = λ u.
                  if u == m.buyer_id
                  then some (get_or (w.db.wallets m.buyer_id) 0 + credit)
                  else w.db.wallets u;
            };
          },
        )
      ]

unfoldable pub create_transfer : ℕ → ℕ → ℕ → Action Done
create_transfer id account payout w =
    elim (create id
      (record {
        destination_account_id = account;
        amount_cents = payout;
        status = TransferStatus.pending;
        attempts = 0;
        stripe_transfer_id = none;
      })
      w.db.transfers) [
        | none ↦ (Result.err Fault.unique_violation, w)
        | some ts ↦ (Result.ok tt, record w { db = record w.db { transfers = ts } })
      ]

abbrev is_locked_row : Option Mission → Bool
is_locked_row none = Bool.false
is_locked_row (some m) =
    is_status m.status MissionStatus.escrow_locked_customs
    || is_status m.status MissionStatus.pending_customs_review

abbrev pub traveler_notification : ℕ → Mission → ℕ → List DeferredNotification
traveler_notification id m captured = elim m.traveler_id [
  | none ↦ []
  | some t ↦
      record {
        alias = NotificationAlias.released_traveler;
        mission_id = id;
        recipient_id = t;
        amount_cents = captured;
      }
      ∷ []
]

abbrev pub released_outcome : ℕ → Mission → ℕ → EffectOutcome
released_outcome id m captured = record {
  handled = true;
  deferred_alerts = [];
  deferred_notifications =
      record {
        alias = NotificationAlias.released_buyer;
        mission_id = id;
        recipient_id = m.buyer_id;
        amount_cents = captured;
      }
      ∷ traveler_notification id m captured;
}

-- the residual of a substitution, if there is any
unfoldable pub credit_residual : ℕ → Mission → ℕ → Action Done
unfolding credit_wallet
credit_residual id m credit =
    if ltb 0 credit
    then add_ledger (entry id LedgerType.buyer_wallet_credit credit) >> credit_wallet id m credit
    else pure tt

-- the journal, the wallet and the intention to transfer
unfoldable pub distribute : ℕ → Mission → ℕ → ℕ → Action Done
unfolding payout_cents wallet_credit_cents credit_residual create_transfer
distribute id m account captured = do
  let spendable = captured - m.commission_cents
  let payout = payout_cents m spendable
  let credit = wallet_credit_cents m spendable
  add_ledger (entry id LedgerType.payout payout)
  add_ledger (entry id LedgerType.commission m.commission_cents)
  credit_residual id m credit
  create_transfer id account payout

-- the mission is released, unless the customs lock holds it
unfoldable pub release_mission : ℕ → Action Done
release_mission id = do
  current ← read (λ db. db.missions.row id)
  abort_if (is_locked_row current) AlertCode.customs_lock_captured
  count ←
      update_mission id
        (λ m. status_in m.status (MissionStatus.awaiting_validation ∷ MissionStatus.validated ∷ []))
        (λ m. record m { status = MissionStatus.released })
  pure tt

-- `m` is the mission as it was read with the escrow, `account` the traveler's Connect account
unfoldable pub release : ℕ → Mission → ℕ → ℕ → Action EffectOutcome
unfolding distribute release_mission
release id m account captured = do
  count ←
      update_escrow id (λ e. is_escrow_status e.status EscrowStatus.held)
        (λ e. record e { status = EscrowStatus.released })
  abort_if (not (count == 1)) AlertCode.webhook_abort_non_recoverable
  abort_if (ltb captured m.commission_cents) AlertCode.webhook_abort_non_recoverable
  distribute id m account captured
  release_mission id
  pure (released_outcome id m captured)
