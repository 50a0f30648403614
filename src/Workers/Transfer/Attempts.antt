-- ===== src/Workers/Transfer/Attempts.antt =====
-- One iteration of the loop of src/workers/transfer-worker.ts.
use waylo_app.Base.{
  ℕ, suc, ◌+◌, ◌≡◌, ◌⊎◌, inl, inr, ◌∙◌, arith, true, false, Option, none, some, [], ◌∷◌, ◌++◌, List,
  leb, Bool-cases, Option-cases,
}
use waylo_app.Base.Table.{put}
use waylo_app.Schema.Status.{TransferStatus}
use waylo_app.Schema.Rows.{TransferOutbox}
use waylo_app.App.{
  World, StripeCall, AlertCode, Fault, ok, err, Action, ◌>>=◌, pure, >>=-ok, >>=-err,
}
use waylo_app.Workers.Outbox.{next_row}
use waylo_app.Workers.Transfer.{
  TransferRound, Counts, attempt, count, transfer_loop, claim_next, transfer_outbox,
}

-- the world after an attempt in which the row `k` has become `r`
abbrev pub after :
    TransferRound → ℕ → TransferOutbox → TransferOutbox → List AlertCode → World → World
after round k claimed r alerts w =
    let db = round.others w.db in
    record {
      db = record db { transfers = put k r db.transfers };
      alerts = alerts;
      calls =
          w.calls
          ++ (StripeCall.make_transfer k claimed.amount_cents claimed.destination_account_id ∷ []);
    }

-- the world after an attempt whose row others have deleted
abbrev pub lost : TransferRound → ℕ → TransferOutbox → World → World
lost round k claimed w = record {
  db = round.others w.db;
  alerts = w.alerts;
  calls =
      w.calls
      ++ (StripeCall.make_transfer k claimed.amount_cents claimed.destination_account_id ∷ []);
}

pub attempt-gone :
    (max : ℕ) (round : TransferRound) (k : ℕ) (claimed : TransferOutbox) (w : World)
    → (round.others w.db).transfers.row k ≡ none
    → attempt max round k claimed w ≡ (err Fault.unexpected, lost round k claimed w)
unfolding attempt
attempt-gone max round k claimed w gone = elim (Option-cases round.response) [
  | inl no_ ↦ ground (arith, gone, no_)
  | inr (i, yes_) ↦ ground (arith, gone, yes_)
]

-- the world in which the row `k` has been claimed
abbrev pub claimed_world : ℕ → TransferOutbox → World → World
claimed_world k r w = record w {
  db = record w.db { transfers = put k (transfer_outbox.submit r) w.db.transfers };
}

module _ (max : ℕ) (round : TransferRound) (k : ℕ) (claimed r : TransferOutbox) (w : World)
    (there : (round.others w.db).transfers.row k ≡ some r) where
  pub attempt-settles :
      (i : ℕ)
      → round.response ≡ some i
      → attempt max round k claimed w
        ≡ (ok TransferStatus.settled, after round k claimed (transfer_outbox.settle i r) w.alerts w)
  unfolding attempt transfer_outbox
  attempt-settles i yes_ = ground (arith, there, yes_)

  pub attempt-abandons :
      round.response ≡ none
      → leb max (claimed.attempts + 1) ≡ true
      → attempt max round k claimed w ≡ (
        ok TransferStatus.abandoned,
        after round k claimed
            (transfer_outbox.refuse TransferStatus.abandoned r)
            (w.alerts ++ (AlertCode.transfer_abandoned ∷ []))
            w,
      )
  unfolding attempt transfer_outbox
  attempt-abandons no_ many = ground (arith, there, no_, many)

  pub attempt-fails :
      round.response ≡ none
      → leb max (claimed.attempts + 1) ≡ false
      → attempt max round k claimed w ≡ (
        ok TransferStatus.failed,
        after round k claimed (transfer_outbox.refuse TransferStatus.failed r) w.alerts w,
      )
  unfolding attempt transfer_outbox
  attempt-fails no_ few = ground (arith, there, no_, few)

-- To split on one attempt: its row is gone, or the transfer settles, or the failure is the last one
-- that is allowed, or an earlier one.
pub attempt_cases :
    (max : ℕ) (round : TransferRound) (k : ℕ) (claimed : TransferOutbox) (w : World)
    → ((round.others w.db).transfers.row k ≡ none)
        × (attempt max round k claimed w ≡ (err Fault.unexpected, lost round k claimed w))
      ⊎ ((r : TransferOutbox) × ((round.others w.db).transfers.row k ≡ some r)
          × (((i : ℕ) × (attempt max round k claimed w ≡ (
            ok TransferStatus.settled,
            after round k claimed (transfer_outbox.settle i r) w.alerts w,
          )))
              ⊎ (leb max (claimed.attempts + 1) ≡ true)
                × (attempt max round k claimed w ≡ (
                  ok TransferStatus.abandoned,
                  after round k claimed
                      (transfer_outbox.refuse TransferStatus.abandoned r)
                      (w.alerts ++ (AlertCode.transfer_abandoned ∷ []))
                      w,
                ))
              ⊎ (leb max (claimed.attempts + 1) ≡ false)
                × (attempt max round k claimed w ≡ (
                  ok TransferStatus.failed,
                  after round k claimed (transfer_outbox.refuse TransferStatus.failed r) w.alerts w,
                ))))
attempt_cases max round k claimed w = elim (Option-cases ((round.others w.db).transfers.row k)) [
  | inl gone ↦ inl (gone, attempt-gone max round k claimed w gone)
  | inr (r, there) ↦ inr (
    r,
    there,
    elim (Option-cases round.response) [
      | inr (i, yes_) ↦ inl (i, attempt-settles max round k claimed r w there i yes_)
      | inl no_ ↦ inr (elim (Bool-cases (leb max (claimed.attempts + 1))) [
        | inl many ↦ inl (many, attempt-abandons max round k claimed r w there no_ many)
        | inr few ↦ inr (few, attempt-fails max round k claimed r w there no_ few)
      ])
    ],
  )
]

module _ (max n : ℕ) (rounds : ℕ → TransferRound) (c : Counts) (w : World) where
  abbrev then_loop : TransferStatus → Action Counts
  then_loop outcome = transfer_loop max n (λ i. rounds (suc i)) (count outcome c)

  abbrev then_attempt : Option (ℕ × TransferOutbox) → Action Counts
  then_attempt none = pure c
  then_attempt (some (k, r)) = attempt max (rounds 0) k r >>= then_loop

  pub loop-idle :
      next_row transfer_outbox max (rounds 0) w.db.transfers ≡ none
      → transfer_loop max (suc n) rounds c w ≡ (ok c, w)
  unfolding transfer_loop claim_next
  loop-idle idle = ground (arith, idle)

  module _ {k : ℕ} {r : TransferOutbox}
      (found : next_row transfer_outbox max (rounds 0) w.db.transfers ≡ some (k, r)) where
    claim-found :
        claim_next max (rounds 0) w ≡ (ok (some (k, transfer_outbox.submit r)), claimed_world k r w)
    unfolding claim_next
    claim-found = ground (arith, found)

    pub loop-next :
        {s : TransferStatus} {w' : World}
        → attempt max (rounds 0) k (transfer_outbox.submit r) (claimed_world k r w) ≡ (ok s, w')
        → transfer_loop max (suc n) rounds c w
          ≡ transfer_loop max n (λ i. rounds (suc i)) (count s c) w'
    unfolding transfer_loop
    loop-next tried =
        >>=-ok (claim_next max (rounds 0)) then_attempt claim-found
        ∙ >>=-ok (attempt max (rounds 0) k _) then_loop tried

    pub loop-lost :
        {f : Fault} {w' : World}
        → attempt max (rounds 0) k (transfer_outbox.submit r) (claimed_world k r w) ≡ (err f, w')
        → transfer_loop max (suc n) rounds c w ≡ (err f, w')
    unfolding transfer_loop
    loop-lost tried =
        >>=-ok (claim_next max (rounds 0)) then_attempt claim-found
        ∙ >>=-err (attempt max (rounds 0) k _) then_loop tried
