-- ===== src/Workers/Outbox/Machine.antt =====
-- The life of a row of an outbox, as the comments of src/workers/transfer-worker.ts and
-- `requeueFailedTransfer` of src/workers/reconciliation.ts describe it.
use waylo_app.Base.{
  ℕ, ◌+◌, ◌≤◌, ◌<◌, ◌≡◌, ◌⊎◌, inl, inr, refl, sym, ◌∙◌, arith, Bool, true, false, ltb,
}
use mathlib.Core.Path.{subst}
use waylo_app.Schema.Status.{TransferStatus, pending, submitted, settled, failed, abandoned}

pub record State : Type 0 where
  pub status : TransferStatus
  pub attempts : ℕ

-- A row that a worker may still claim.
abbrev pub is_live : ℕ → State → Bool
is_live max s = elim s.status [
  | pending ↦ true
  | submitted ↦ true
  | failed ↦ ltb s.attempts max
  | settled ↦ false
  | abandoned ↦ false
]

-- One event in the life of a row, where `max` failures abandon it.
pub data Step (max : ℕ) (s s' : State) : Type 0 where
  claim : is_live max s ≡ true → s' ≡ record s { status = submitted } → Step max s s'
  settle : s.status ≡ submitted → s' ≡ record s { status = settled } → Step max s s'
  fail :
      s.status ≡ submitted
      → s.attempts + 1 < max
      → s' ≡ record { status = failed; attempts = s.attempts + 1 }
      → Step max s s'
  abandon :
      s.status ≡ submitted
      → max ≤ s.attempts + 1
      → s' ≡ record { status = abandoned; attempts = s.attempts + 1 }
      → Step max s s'
  requeue : s.status ≡ failed → s' ≡ record s { status = pending } → Step max s s'

pub data Steps (max : ℕ) (s : State) : State → Type 0 where
  here : Steps max s s
  next : {t u : State} → Steps max s t → Step max t u → Steps max s u

pub Steps-trans : {max : ℕ} {s t u : State} → Steps max s t → Steps max t u → Steps max s u
Steps-trans p here = p
Steps-trans p (next q st) = next (Steps-trans p q) st

-- A row has fewer failures than `max`, unless it is settled or was abandoned at the last of them.
abbrev pub IsSound : ℕ → State → Type 0
IsSound max s = elim s.status [
  | pending ↦ s.attempts < max
  | submitted ↦ s.attempts < max
  | failed ↦ s.attempts < max
  | settled ↦ s.attempts < max
  | abandoned ↦ s.attempts ≡ max
]

Step-IsSound : {max : ℕ} {s s' : State} → Step max s s' → IsSound max s → IsSound max s'
Step-IsSound (claim live e) h = ground arith
Step-IsSound (settle from e) h = ground arith
Step-IsSound (fail from few e) h = ground arith
Step-IsSound (abandon from many e) h = ground arith
Step-IsSound (requeue from e) h = ground arith

pub Steps-IsSound : {max : ℕ} {s s' : State} → Steps max s s' → IsSound max s → IsSound max s'
Steps-IsSound here h = h
Steps-IsSound (next p st) h = Step-IsSound st (Steps-IsSound p h)

-- The states that nothing leaves: settled and abandoned.
abbrev pub IsTerminal : State → Type 0
IsTerminal s = (s.status ≡ settled) ⊎ (s.status ≡ abandoned)

Step-IsTerminal : {max : ℕ} {s s' : State} → IsTerminal s → Step max s s' → s' ≡ s
Step-IsTerminal t (claim live e) = ground arith
Step-IsTerminal t (settle from e) = ground arith
Step-IsTerminal t (fail from few e) = ground arith
Step-IsTerminal t (abandon from many e) = ground arith
Step-IsTerminal t (requeue from e) = ground arith

pub Steps-IsTerminal : {max : ℕ} {s s' : State} → IsTerminal s → Steps max s s' → s' ≡ s
Steps-IsTerminal t here = refl
Steps-IsTerminal {s = s} t (next {t = u} p st) =
    let same = Steps-IsTerminal t p in Step-IsTerminal (subst IsTerminal (sym same) t) st ∙ same

-- A sound row that can no longer be claimed has ended.
pub IsSound-IsTerminal :
    (max : ℕ) (s : TransferStatus) (n : ℕ)
    → IsSound max (record { status = s; attempts = n })
    → is_live max (record { status = s; attempts = n }) ≡ false
    → IsTerminal (record { status = s; attempts = n })
IsSound-IsTerminal max pending n sound dead = cc
IsSound-IsTerminal max submitted n sound dead = cc
IsSound-IsTerminal max failed n sound dead = absurd (ground (arith, sound, dead))
IsSound-IsTerminal max settled n sound dead = inl refl
IsSound-IsTerminal max abandoned n sound dead = inr refl
