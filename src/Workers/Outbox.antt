-- ===== src/Workers/Outbox.antt =====
-- What src/workers/transfer-worker.ts and src/workers/penalty.worker.ts share: the query that claims
-- the next row of an outbox, and the answer to a failure.
pub mod Machine
pub mod Refines
pub mod Work
use waylo_app.Base.{
  ℕ, ◌+◌, ◌*◌, ◌^◌, ◌≡◌, Bool, true, false, not, ◌&&◌, ◌||◌, Option, none, some, List, [], ◌∷◌, ltb,
  leb, ◌==◌, if◌then◌else◌,
}
use waylo_app.Base.Table.{Table, put}
use waylo_app.Schema.Status.{TransferStatus}
use waylo_app.App.{Db}

-- A table whose rows are an outbox, with the changes that a worker makes to a row.
pub record Outbox (R : Type 0) : Type 0 where
  pub status : R → TransferStatus
  pub attempts : R → ℕ
  pub submit : R → R
  pub settle : ℕ → R → R
  pub refuse : TransferStatus → R → R
  pub status-submit : (r : R) → status (submit r) ≡ TransferStatus.submitted
  pub attempts-submit : (r : R) → attempts (submit r) ≡ attempts r
  pub status-settle : (i : ℕ) (r : R) → status (settle i r) ≡ TransferStatus.settled
  pub attempts-settle : (i : ℕ) (r : R) → attempts (settle i r) ≡ attempts r
  pub status-refuse : (s : TransferStatus) (r : R) → status (refuse s r) ≡ s
  pub attempts-refuse : (s : TransferStatus) (r : R) → attempts (refuse s r) ≡ attempts r + 1

-- What one iteration of a worker meets: the seconds since a row was last written, the rows that
-- another transaction has locked, the answers from outside, and what others commit meanwhile.
pub record Round (A : Type 0) : Type 0 where
  pub age : ℕ → ℕ
  pub locked : ℕ → Bool
  pub response : A
  pub others : Db → Db

-- STALE_SUBMITTED_MINUTES, DEFAULT_MAX_ATTEMPTS and DEFAULT_BATCH_LIMIT
abbrev pub stale_submitted_minutes : ℕ
stale_submitted_minutes = 15

abbrev pub default_max_attempts : ℕ
default_max_attempts = 5

abbrev pub default_batch_limit : ℕ
default_batch_limit = 50

-- the WHERE clause of the claim, on a row's status, its attempts and its age
unfoldable pub eligible : ℕ → ℕ → TransferStatus → ℕ → Bool
eligible max_attempts age TransferStatus.pending attempts = true
eligible max_attempts age TransferStatus.failed attempts =
    ltb attempts max_attempts && ltb (60 * 2 ^ attempts) age
eligible max_attempts age TransferStatus.submitted attempts = ltb (stale_submitted_minutes * 60) age
eligible max_attempts age TransferStatus.settled attempts = false
eligible max_attempts age TransferStatus.abandoned attempts = false

-- what the M-th failure makes of a row, and an earlier one
unfoldable pub failure_status : ℕ → ℕ → TransferStatus
failure_status max_attempts attempts =
    if leb max_attempts (attempts + 1) then TransferStatus.abandoned else TransferStatus.failed

module _ {R : Type 0} where
  -- ORDER BY "createdAt" LIMIT 1 FOR UPDATE SKIP LOCKED
  unfoldable pub first_row : (ℕ → R → Bool) → (ℕ → Option R) → List ℕ → Option (ℕ × R)
  first_row test row [] = none
  first_row test row (k ∷ ks) =
      let rest = first_row test row ks in
      elim (row k) [ none ↦ rest | some r ↦ if test k r then some (k, r) else rest ]

  unfoldable pub next_row : {A : Type 0} → Outbox R → ℕ → Round A → Table R → Option (ℕ × R)
  unfolding first_row
  next_row o max_attempts round t =
      first_row
        (λ k r.
          not (round.locked k) && eligible max_attempts (round.age k) (o.status r) (o.attempts r))
        t.row t.keys

  -- `update({ where: { id }, data })`: `none` where there is no such row
  unfoldable pub update_row : ℕ → (R → R) → Table R → Option (Table R)
  update_row k f t = elim (t.row k) [ none ↦ none | some r ↦ some (put k (f r) t) ]
