-- ===== src/Books/Settling.antt =====
-- What the settlement of a capture does to the books.
use waylo_app.Base.{
  ℕ, ◌+◌, ◌-◌, ◌≤◌, ◌≡◌, ◌≢◌, List, [], ◌∷◌, ◌++◌, ◌==◌, ltb, if◌then◌else◌, arith, inl, inr,
  Bool-cases, Option-cases, none, some, ◌⊎◌, get_or, refl,
}
use mathlib.Core.Path.{ap, ◌∙◌}
use waylo_app.Base.Totals.{==-refl}
use waylo_app.Schema.Status.{LedgerType, TransferStatus}
use waylo_app.Schema.Rows.{Mission, LedgerEntry, TransferOutbox}
use waylo_app.App.{Db, World, Fault, err}
use waylo_app.Webhook.{
  sum_of, entry, payout_cents, wallet_credit_cents, credit_wallet, credit_residual, create_transfer,
  distribute, release_mission,
}
use waylo_app.Books.Defs.{paid_out}
use waylo_app.Books.Ledger.{sum_of-append}

-- The two parts of what is spendable make it up.
pub payout_split : (m : Mission) (s : ℕ) → payout_cents m s + wallet_credit_cents m s ≡ s
unfolding payout_cents wallet_credit_cents
payout_split m s = ground arith

-- the journal after a settlement
abbrev pub settled_ledger : List LedgerEntry → ℕ → Mission → ℕ → List LedgerEntry
settled_ledger l id m captured =
    let spendable = captured - m.commission_cents in
    let l' =
      (l ++ (entry id LedgerType.payout (payout_cents m spendable) ∷ []))
      ++ (entry id LedgerType.commission m.commission_cents ∷ []) in
    if ltb 0 (wallet_credit_cents m spendable)
    then l' ++ (entry id LedgerType.buyer_wallet_credit (wallet_credit_cents m spendable) ∷ [])
    else l'

module _ (id : ℕ) (m : Mission) (w : World) where
  credit_wallet_keeps :
      (credit : ℕ)
      → let v = (credit_wallet id m credit w).1 in
        (v.db.ledger ≡ w.db.ledger) × (v.db.escrows ≡ w.db.escrows)
  unfolding credit_wallet
  credit_wallet_keeps credit = ground arith

  create_transfer_keeps :
      (account payout : ℕ)
      → let v = (create_transfer id account payout w).1 in
        (v.db.ledger ≡ w.db.ledger) × (v.db.escrows ≡ w.db.escrows)
  unfolding create_transfer
  create_transfer_keeps account payout = ground arith

  pub release_mission_keeps :
      let v = (release_mission id w).1 in
      (v.db.ledger ≡ w.db.ledger) × (v.db.escrows ≡ w.db.escrows)
  unfolding release_mission
  release_mission_keeps = ground arith

  -- Whether it ends well or not, a settlement has written its journal and no escrow.
  pub distribute_writes :
      (account captured : ℕ)
      → let v = (distribute id m account captured w).1 in
        (v.db.ledger ≡ settled_ledger w.db.ledger id m captured) × (v.db.escrows ≡ w.db.escrows)
  unfolding distribute
  distribute_writes account captured = ground arith

-- What the journal of a settlement adds to each sum.
pub settled_ledger_sums :
    (l : List LedgerEntry) (id : ℕ) (m : Mission) (captured n : ℕ)
    → m.commission_cents ≤ captured
    → (paid_out (settled_ledger l id m captured) n
        ≡ paid_out l n + (if id == n then captured else 0))
      × (sum_of (settled_ledger l id m captured) n LedgerType.capture
          ≡ sum_of l n LedgerType.capture)
      × (sum_of (settled_ledger l id m captured) n LedgerType.refund ≡ sum_of l n LedgerType.refund)
unfolding paid_out
settled_ledger_sums l id m captured n h =
    elim (Bool-cases (ltb 0 (wallet_credit_cents m (captured - m.commission_cents)))) [
      | inl more ↦
          rw more
            (simp sum_of-append (ground (arith, payout_split m (captured - m.commission_cents))))
      | inr none_left ↦
          rw none_left
            (simp sum_of-append (ground (arith, payout_split m (captured - m.commission_cents))))
    ]

-- Beside the escrow that is settled, no sum changes.
pub settled_other :
    (l : List LedgerEntry) (id : ℕ) (m : Mission) (captured n : ℕ) (t : LedgerType)
    → n ≢ id
    → sum_of (settled_ledger l id m captured) n t ≡ sum_of l n t
settled_other l id m captured n t other =
    elim (Bool-cases (ltb 0 (wallet_credit_cents m (captured - m.commission_cents)))) [
      | inl more ↦ rw more (simp sum_of-append (ground arith))
      | inr none_left ↦ rw none_left (simp sum_of-append (ground arith))
    ]

-- What each of the two parts adds to the journal.
settled_ledger_parts :
    (l : List LedgerEntry) (id : ℕ) (m : Mission) (captured : ℕ)
    → let spendable = captured - m.commission_cents in
      (sum_of (settled_ledger l id m captured) id LedgerType.payout
        ≡ sum_of l id LedgerType.payout + payout_cents m spendable)
      × (sum_of (settled_ledger l id m captured) id LedgerType.buyer_wallet_credit
          ≡ sum_of l id LedgerType.buyer_wallet_credit + wallet_credit_cents m spendable)
settled_ledger_parts l id m captured =
    elim (Bool-cases (ltb 0 (wallet_credit_cents m (captured - m.commission_cents)))) [
      | inl more ↦ rw more (simp (sum_of-append, ==-refl id) (ground arith))
      | inr none_left ↦ rw none_left (simp (sum_of-append, ==-refl id) (ground arith))
    ]

-- What the database `db` shows the traveler and the buyer to have received since `start` is what the
-- journal says: the transfer carries the payout, and the buyer's wallet has grown by the credit.
pub record IsDelivered (start db : Db) (id buyer account : ℕ) : Type 0 where
  pub transfer : TransferOutbox
  pub sent : db.transfers.row id ≡ some transfer
  pub to : transfer.destination_account_id ≡ account
  pub paid :
      sum_of db.ledger id LedgerType.payout
      ≡ sum_of start.ledger id LedgerType.payout + transfer.amount_cents
  pub credited :
      sum_of db.ledger id LedgerType.buyer_wallet_credit + get_or (start.wallets buyer) 0
      ≡ sum_of start.ledger id LedgerType.buyer_wallet_credit + get_or (db.wallets buyer) 0

module _ (id : ℕ) (m : Mission) (account captured : ℕ) (w : World) where
  abbrev spendable : ℕ
  spendable = captured - m.commission_cents

  distribute_pays :
      let (r, v) = distribute id m account captured w in
      (r ≡ err Fault.unique_violation)
      ⊎ ((v.db.transfers.row id
            ≡ some (record {
              destination_account_id = account;
              amount_cents = payout_cents m spendable;
              status = TransferStatus.pending;
              attempts = 0;
              stripe_transfer_id = none;
            }))
          × (get_or (v.db.wallets m.buyer_id) 0
              ≡ get_or (w.db.wallets m.buyer_id) 0 + wallet_credit_cents m spendable))
  unfolding distribute credit_residual credit_wallet create_transfer
  distribute_pays = elim (Bool-cases (ltb 0 (wallet_credit_cents m spendable))) [
    | inl more ↦ elim (Option-cases (w.db.wallet_transactions.row id)) [
      | inl new ↦ elim (Option-cases (w.db.transfers.row id)) [
        | inl first ↦ inr (ground (arith, more, new, first), ground (arith, more, new, first))
        | inr (t, there) ↦ inl (ground (arith, more, new, there))
      ]
      | inr (x, there) ↦ inl (ground (arith, more, there))
    ]
    | inr none_left ↦ elim (Option-cases (w.db.transfers.row id)) [
      | inl first ↦ inr (ground (arith, none_left, first), ground (arith, none_left, first))
      | inr (t, there) ↦ inl (ground (arith, none_left, there))
    ]
  ]

  distribute_delivers :
      let (r, v) = distribute id m account captured w in
      (r ≡ err Fault.unique_violation) ⊎ IsDelivered w.db v.db id m.buyer_id account
  distribute_delivers =
      let (journal, _) = distribute_writes id m w account captured in
      let (paid, credited) = settled_ledger_parts w.db.ledger id m captured in
      elim distribute_pays [
        | inl fails ↦ inl fails
        | inr (sent, grown) ↦ inr (record {
          transfer = _;
          sent = sent;
          to = refl;
          paid = ap (λ l. sum_of l id LedgerType.payout) journal ∙ paid;
          credited = omega (
            arith,
            ap (λ l. sum_of l id LedgerType.buyer_wallet_credit) journal,
            credited,
            grown,
          );
        })
      ]

  -- Where the commission is within what was captured, a settlement journals exactly what was captured
  -- on its escrow as paid out, to the traveler, the platform and the wallet, and changes neither what
  -- another escrow has paid out, nor a sum of captures or refunds, nor an escrow. Unless it fails on a
  -- transfer or a wallet transaction that the mission already has, the transfer to the traveler's
  -- account carries what the journal pays out, and the buyer's wallet has grown by what the journal
  -- credits.
  pub distribute_sums :
      (n : ℕ)
      → m.commission_cents ≤ captured
      → let (r, v) = distribute id m account captured w in
        (paid_out v.db.ledger n ≡ paid_out w.db.ledger n + (if id == n then captured else 0))
        × (sum_of v.db.ledger n LedgerType.capture ≡ sum_of w.db.ledger n LedgerType.capture)
        × (sum_of v.db.ledger n LedgerType.refund ≡ sum_of w.db.ledger n LedgerType.refund)
        × (v.db.escrows ≡ w.db.escrows)
        × ((r ≡ err Fault.unique_violation) ⊎ IsDelivered w.db v.db id m.buyer_id account)
  distribute_sums n h =
      let (journal, same) = distribute_writes id m w account captured in
      let (out, captures, refunds) = settled_ledger_sums w.db.ledger id m captured n h in
      (
        ap (λ l. paid_out l n) journal ∙ out,
        ap (λ l. sum_of l n LedgerType.capture) journal ∙ captures,
        ap (λ l. sum_of l n LedgerType.refund) journal ∙ refunds,
        same,
        distribute_delivers,
      )
