-- ===== src/Workers/Transfer/Bounds.antt =====
-- How often a tick of src/workers/transfer-worker.ts calls Stripe, and what it reports.
use waylo_app.Base.{
  ℕ, zero, suc, ◌+◌, ◌≤◌, ◌≡◌, inl, inr, sym, refl, ap, arith, List, [], ◌∷◌, ◌++◌, some, length,
  Option-cases,
}
use mathlib.Core.Path.{subst}
use waylo_app.Schema.Status.{TransferStatus}
use waylo_app.App.{World, Result, ok, err, transfer_abandoned}
use waylo_app.Schema.Rows.{TransferOutbox}
use waylo_app.Workers.Outbox.{next_row}
use waylo_app.Workers.Transfer.{
  TransferRound, Counts, no_counts, attempt, count, transfer_outbox, transfer_loop,
  run_transfer_worker_once,
}
use waylo_app.Workers.Transfer.Attempts.{
  attempt_cases, loop-idle, loop-next, loop-lost, claimed_world,
}

abbrev all_counts : Counts → ℕ
all_counts c = c.settled + c.failed + c.abandoned

-- From the counts `c` and the world `w`, with `n` iterations left.
abbrev Tally : ℕ → Counts → World → Result Counts × World → Type 0
Tally n c w p = elim p.0 [
  | ok c' ↦
      (length p.1.calls + all_counts c ≡ length w.calls + all_counts c')
      × (all_counts c' ≤ all_counts c + n)
      × (length p.1.alerts + c.abandoned ≡ length w.alerts + c'.abandoned)
  | err e ↦ length p.1.calls ≤ length w.calls + n
]

pub length-snoc {ℓ} : {A : Type ℓ} (xs : List A) (x : A) → length (xs ++ (x ∷ [])) ≡ suc (length xs)
length-snoc [] x = refl
length-snoc (y ∷ xs) x = ap suc (length-snoc xs x)

-- An iteration makes one call, counts one outcome, and alerts if that is an abandonment.
abbrev Advances : Counts → World → Counts → World → Type 0
Advances c w c' w' =
    (length w'.calls ≡ suc (length w.calls))
    × (all_counts c' ≡ suc (all_counts c))
    × (length w'.alerts + c.abandoned ≡ length w.alerts + c'.abandoned)

Tally-step :
    (n : ℕ) (c c' : Counts) (w w' : World) (p : Result Counts × World)
    → Advances c w c' w'
    → Tally n c' w' p
    → Tally (suc n) c w p
Tally-step n c c' w w' (ok c'', w'') a t = omega arith
Tally-step n c c' w w' (err e, w'') a t = omega arith

Tally-next :
    (max n : ℕ) (rounds : ℕ → TransferRound) (c : Counts) (w : World)
    → ((c' : Counts) (w' : World) → Tally n c' w' (transfer_loop max n (λ i. rounds (suc i)) c' w'))
    → {k : ℕ} {r : TransferOutbox}
    → next_row transfer_outbox max (rounds 0) w.db.transfers ≡ some (k, r)
    → {s : TransferStatus} {w' : World}
    → attempt max (rounds 0) k (transfer_outbox.submit r) (claimed_world k r w) ≡ (ok s, w')
    → Advances c w (count s c) w'
    → Tally (suc n) c w (transfer_loop max (suc n) rounds c w)
Tally-next max n rounds c w rest found {s} {w'} e a =
    subst (Tally (suc n) c w) (sym (loop-next max n rounds c w found e)) (
      Tally-step n c (count s c) w w' (transfer_loop max n (λ i. rounds (suc i)) (count s c) w') a
        (rest (count s c) w'))

transfer_loop-Tally :
    (max n : ℕ) (rounds : ℕ → TransferRound) (c : Counts) (w : World)
    → Tally n c w (transfer_loop max n rounds c w)
unfolding transfer_loop count
transfer_loop-Tally max zero rounds c w = (refl, omega arith, refl)
transfer_loop-Tally max (suc n) rounds c w =
    elim (Option-cases (next_row transfer_outbox max (rounds 0) w.db.transfers)) [
      | inl idle ↦
          subst (Tally (suc n) c w) (sym (loop-idle max n rounds c w idle))
            (refl, omega arith, refl)
      | inr ((k, r), found) ↦
          elim (attempt_cases max (rounds 0) k (transfer_outbox.submit r) (claimed_world k r w)) [
            | inl (gone, e) ↦
                subst (Tally (suc n) c w) (sym (loop-lost max n rounds c w found e))
                  (omega (arith, length-snoc w.calls _))
            | inr (r', there, inl (i, e)) ↦
                Tally-next max n rounds c w (transfer_loop-Tally max n (λ i. rounds (suc i))) found
                  e (length-snoc w.calls _, omega arith, omega arith)
            | inr (r', there, inr (inl (many, e))) ↦
                Tally-next max n rounds c w (transfer_loop-Tally max n (λ i. rounds (suc i))) found
                  e
                  (
                    length-snoc w.calls _,
                    omega arith,
                    omega (arith, length-snoc w.alerts transfer_abandoned),
                  )
            | inr (r', there, inr (inr (few, e))) ↦
                Tally-next max n rounds c w (transfer_loop-Tally max n (λ i. rounds (suc i))) found
                  e (length-snoc w.calls _, omega arith, omega arith)
          ]
    ]

-- What a tick that starts in `w` and ends in `p` has done.
abbrev pub TickTally : ℕ → World → Result Counts × World → Type 0
TickTally batch_limit w p = elim p.0 [
  | ok c ↦
      (length p.1.calls ≡ length w.calls + (c.settled + c.failed + c.abandoned))
      × (c.settled + c.failed + c.abandoned ≤ batch_limit)
      × (length p.1.alerts ≡ length w.alerts + c.abandoned)
  | err e ↦ length p.1.calls ≤ length w.calls + batch_limit
]

tallied : (n : ℕ) (w : World) (p : Result Counts × World) → Tally n no_counts w p → TickTally n w p
tallied n w (ok c, w') t = omega arith
tallied n w (err e, w') t = omega arith

-- A tick makes one call of Stripe for each transfer that it counts as settled, failed or abandoned,
-- and at most as many as the batch limit; it emits one alert for each that it counts as abandoned,
-- and no other. A tick that throws has made at most as many calls as the batch limit. This holds
-- whatever Stripe answers, and whatever others write meanwhile.
transfer_tick_bounded :
    (max batch_limit : ℕ) (rounds : ℕ → TransferRound) (w : World)
    → TickTally batch_limit w (run_transfer_worker_once max batch_limit rounds w)
unfolding run_transfer_worker_once
transfer_tick_bounded max batch_limit rounds w =
    tallied batch_limit w (transfer_loop max batch_limit rounds no_counts w)
      (transfer_loop-Tally max batch_limit rounds no_counts w)
