-- ===== src/Workers/Transfer/Ends.antt =====
-- Enough ticks of the worker, one after the other, leave no transfer to be made.
use waylo_app.Base.{
  ℕ, suc, ◌≤◌, ◌<◌, ◌≡◌, ◌⊎◌, inl, inr, refl, sym, ◌∙◌, ap, arith, true, false, some, List, [], ◌∷◌,
  elem, length, Option-cases, Bool-cases,
}
use mathlib.Core.Path.{subst}
use waylo_app.Schema.Rows.{TransferOutbox}
use waylo_app.App.{World}
use waylo_app.Workers.Outbox.{next_row}
use waylo_app.Workers.Outbox.Machine.{IsSound, IsTerminal, is_live, IsSound-IsTerminal}
use waylo_app.Workers.Outbox.Refines.{state, IsPatient, next_row-none}
use waylo_app.Workers.Outbox.Work.{work, live-work, ended-work}
use waylo_app.Workers.Transfer.{
  TransferRound, count, transfer_outbox, run_transfer_worker_once, no_counts,
}
use waylo_app.Workers.Transfer.Attempts.{loop-idle, loop-next}
use waylo_app.Workers.Transfer.Life.{iteration-Attempted}
use waylo_app.Workers.Transfer.History.{History, start, tick, transfer_history}
use waylo_app.Workers.Transfer.Liveness.{
  IsAlone, Alone-IsPolite, transfer_loop-Lessens, done, work-done,
}

-- A tick with a batch limit of at least one, and what its iterations meet.
pub record Tick : Type 0 where
  pub more : ℕ
  pub rounds : ℕ → TransferRound

abbrev pub run_tick : ℕ → Tick → World → World
run_tick max t w = (run_transfer_worker_once max (suc t.more) t.rounds w).1

abbrev pub run_ticks : ℕ → List Tick → World → World
run_ticks max [] w = w
run_ticks max (t ∷ ts) w = run_ticks max ts (run_tick max t w)

-- No one else writes the transfers, and when the tick starts no row is locked and every row was last
-- written longer ago than the longest back-off.
pub record IsQuiet (max : ℕ) (t : Tick) : Type 0 where
  pub alone : (i : ℕ) → IsAlone (t.rounds i)
  pub free : (k : ℕ) → (t.rounds 0).locked k ≡ false
  pub old : (k : ℕ) → IsPatient max ((t.rounds 0).age k)

abbrev pub AllQuiet : ℕ → List Tick → Type 0
AllQuiet max [] = Unit
AllQuiet max (t ∷ ts) = IsQuiet max t × AllQuiet max ts

module _ (max : ℕ) where
  -- A quiet tick that finds work does some of it.
  tick-progress :
      (t : Tick) (w : World)
      → IsQuiet max t
      → (work transfer_outbox max (run_tick max t w).db.transfers ≡ 0)
        ⊎ (work transfer_outbox max (run_tick max t w).db.transfers
            < work transfer_outbox max w.db.transfers)
  unfolding run_transfer_worker_once
  tick-progress t w q =
      elim (Option-cases (next_row transfer_outbox max (t.rounds 0) w.db.transfers)) [
        | inl idle ↦ inl (
            ap (λ p. work transfer_outbox max p.1.db.transfers)
              (loop-idle max t.more t.rounds no_counts w idle)
            ∙ ended-work transfer_outbox max w.db.transfers (λ k r among there.
              next_row-none transfer_outbox max (t.rounds 0) w.db.transfers k r idle among there
                (q.free k) (q.old k)))
        | inr ((k, r), found) ↦
            let a =
              iteration-Attempted max (t.rounds 0) (Alone-IsPolite max (t.rounds 0) (q.alone 0)) w
                found in
            let less = work-done max (t.rounds 0) (q.alone 0) w found a in
            let rest =
              transfer_loop-Lessens max t.more (λ i. t.rounds (suc i)) (count a.outcome no_counts)
                (done max (t.rounds 0) (q.alone 0) w found a) (λ i. q.alone (suc i)) in
            inr (
              subst
                (λ p.
                  work transfer_outbox max p.1.db.transfers
                  < work transfer_outbox max w.db.transfers)
                (sym (loop-next max t.more t.rounds no_counts w found a.returns))
                (omega (arith, rest.1, less)))
      ]

  run_ticks-work :
      (ts : List Tick) (w : World)
      → AllQuiet max ts
      → work transfer_outbox max w.db.transfers ≤ length ts
      → work transfer_outbox max (run_ticks max ts w).db.transfers ≡ 0
  run_ticks-work [] w q enough = omega arith
  run_ticks-work (t ∷ ts) w q enough = elim (tick-progress t w q.0) [
    | inl nothing ↦ run_ticks-work ts (run_tick max t w) q.1 (omega (arith, nothing))
    | inr less ↦ run_ticks-work ts (run_tick max t w) q.1 (omega (arith, less))
  ]

  run_ticks-History :
      (ts : List Tick) (w u : World)
      → AllQuiet max ts
      → History max w u
      → History max w (run_ticks max ts u)
  run_ticks-History [] w u q h = h
  run_ticks-History (t ∷ ts) w u q h =
      run_ticks-History ts w (run_tick max t u) q.1
        (tick (suc t.more) t.rounds (λ i. Alone-IsPolite max (t.rounds i) (q.0.alone i)) h refl)

  run_ticks-keys :
      (ts : List Tick) (w : World)
      → AllQuiet max ts
      → (run_ticks max ts w).db.transfers.keys ≡ w.db.transfers.keys
  unfolding run_transfer_worker_once
  run_ticks-keys [] w q = refl
  run_ticks-keys (t ∷ ts) w q =
      run_ticks-keys ts (run_tick max t w) q.1
      ∙ (transfer_loop-Lessens max (suc t.more) t.rounds no_counts w q.0.alone).0

  -- If no one else writes the transfers, and every tick starts long enough after the last failure,
  -- then after as many ticks as the transfers that can still be claimed have failures left, counting
  -- one more for each, every transfer is settled or abandoned, whatever Stripe answers.
  pub transfers_end :
      (ts : List Tick) (w : World) (k : ℕ) (r : TransferOutbox)
      → AllQuiet max ts
      → work transfer_outbox max w.db.transfers ≤ length ts
      → w.db.transfers.row k ≡ some r
      → elem k w.db.transfers.keys ≡ true
      → IsSound max (state transfer_outbox r)
      → (r' : TransferOutbox) × ((run_ticks max ts w).db.transfers.row k ≡ some r')
        × IsTerminal (state transfer_outbox r')
  transfers_end ts w k r q enough there among sound =
      let (r', there', sound', kept) =
        transfer_history k r (run_ticks-History ts w w q start) there sound in
      let t' = (run_ticks max ts w).db.transfers in
      let among' : elem k t'.keys ≡ true = ap (elem k) (run_ticks-keys ts w q) ∙ among in
      (
        r',
        there',
        elim (Bool-cases (is_live max (state transfer_outbox r'))) [
          | inl live ↦ absurd (
              omega (
                arith,
                live-work transfer_outbox max t' there' among' live,
                run_ticks-work ts w q enough,
              ))
          | inr dead ↦
              IsSound-IsTerminal max (transfer_outbox.status r') (transfer_outbox.attempts r')
                sound' dead
        ],
      )
