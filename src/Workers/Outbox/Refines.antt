-- ===== src/Workers/Outbox/Refines.antt =====
-- The tables of an outbox, row by row: what a write makes of the rows, and whom a claim chooses.
use waylo_app.Base.{
  ℕ, ◌*◌, ◌^◌, ◌<◌, ◌≡◌, inl, inr, refl, sym, arith, Bool, true, false, Option, none, some, List,
  [], ◌∷◌, ◌==◌, elem, Bool-cases,
}
use waylo_app.Base.Table.{Table, put}
use mathlib.Core.Path.{subst}
use waylo_app.Schema.Status.{TransferStatus}
use waylo_app.App.{Db}
use waylo_app.Workers.Outbox.{Outbox, Round, stale_submitted_minutes, eligible, first_row, next_row}
use waylo_app.Workers.Outbox.Machine.{State, Step, Steps, here, next, Steps-trans, is_live}

module _ {R : Type 0} (o : Outbox R) where
  abbrev pub state : R → State
  state r = record { status = o.status r; attempts = o.attempts r }

  -- Every row of `t` is still there in `t'`, after steps of the machine.
  abbrev pub RowSteps : ℕ → Table R → Table R → Type 0
  RowSteps max t t' =
      (k : ℕ) (r : R)
      → t.row k ≡ some r
      → (r' : R) × (t'.row k ≡ some r') × Steps max (state r) (state r')

  -- What others do to the outbox while a worker waits: steps of the machine, and none on a row that
  -- is submitted.
  abbrev pub IsPolite : ℕ → (Db → Table R) → (Db → Db) → Type 0
  IsPolite max table others =
      (db : Db)
      → RowSteps max (table db) (table (others db))
        × ((k : ℕ) (r : R)
            → (table db).row k ≡ some r
            → o.status r ≡ TransferStatus.submitted
            → (table (others db)).row k ≡ some r)

  module _ {max : ℕ} where
    pub RowSteps-refl : (t : Table R) → RowSteps max t t
    RowSteps-refl t k r there = (r, there, here)

    pub RowSteps-trans : (t u v : Table R) → RowSteps max t u → RowSteps max u v → RowSteps max t v
    RowSteps-trans t u v p q k r there =
        let (s, there_s, ps) = p k r there in
        let (s', there_s', qs) = q k s there_s in (s', there_s', Steps-trans ps qs)

    chosen :
        (t : Table R) (k : ℕ) (r r' : R)
        → t.row k ≡ some r
        → Step max (state r) (state r')
        → (j : ℕ) (s : R) → t.row j ≡ some s
        → j == k ≡ true
        → Steps max (state s) (state r')
    chosen t k r r' there st j s there_s same =
        let e : s ≡ r = ground arith in
        subst (λ x. Steps max (state x) (state r')) (sym e) (next here st)

    pub put-RowSteps :
        (t : Table R) (k : ℕ) (r r' : R)
        → t.row k ≡ some r
        → Step max (state r) (state r')
        → RowSteps max t (put k r' t)
    put-RowSteps t k r r' there st j s there_s = elim (Bool-cases (j == k)) [
      | inl same ↦ (r', rw same refl, chosen t k r r' there st j s there_s same)
      | inr other ↦ (s, rw other there_s, here)
    ]

module _ {R : Type 0} (test : ℕ → R → Bool) (row : ℕ → Option R) where
  pub first_row_sound :
      (ks : List ℕ) {k : ℕ} {r : R}
      → first_row test row ks ≡ some (k, r)
      → (row k ≡ some r) × (test k r ≡ true) × (elem k ks ≡ true)
  unfolding first_row
  first_row_sound [] h = ground arith
  first_row_sound (j ∷ ks) {k} {r} h = ground (arith, first_row_sound ks {k = k} {r = r})

  pub first_row_complete :
      (ks : List ℕ) (k : ℕ) (r : R)
      → first_row test row ks ≡ none
      → elem k ks ≡ true
      → row k ≡ some r
      → test k r ≡ false
  unfolding first_row
  first_row_complete [] k r h e there = ground arith
  first_row_complete (j ∷ ks) k r h e there = ground (arith, first_row_complete ks k r)

-- Long enough for every back-off before the last failure, and for a stale submission.
abbrev pub IsPatient : ℕ → ℕ → Type 0
IsPatient max age = (stale_submitted_minutes * 60 < age) × ((n : ℕ) → n < max → 60 * 2 ^ n < age)

eligible-live :
    (max age : ℕ) (s : TransferStatus) (n : ℕ)
    → eligible max age s n ≡ true
    → is_live max (record { status = s; attempts = n }) ≡ true
unfolding eligible
eligible-live max age s n h = ground arith

not_eligible-live :
    (max age : ℕ) (s : TransferStatus) (n : ℕ)
    → (stale_submitted_minutes * 60 < age) × (n < max → 60 * 2 ^ n < age)
    → eligible max age s n ≡ false
    → is_live max (record { status = s; attempts = n }) ≡ false
unfolding eligible
not_eligible-live max age s n old h = ground arith

module _ {R A : Type 0} (o : Outbox R) (max : ℕ) (round : Round A) (t : Table R) where
  -- A claimed row is there, among the keys, and live.
  pub next_row_sound :
      {k : ℕ} {r : R}
      → next_row o max round t ≡ some (k, r)
      → (t.row k ≡ some r) × (is_live max (state o r) ≡ true) × (elem k t.keys ≡ true)
  unfolding next_row eligible
  next_row_sound {k} {r} h =
      let (there, chosen, among) = first_row_sound _ t.row t.keys h in
      (
        there,
        eligible-live max (round.age k) (o.status r) (o.attempts r) (ground (arith, chosen)),
        among,
      )

  -- No claim, where nothing is locked and every row is older than its back-off: no row is live.
  pub next_row-none :
      (k : ℕ) (r : R)
      → next_row o max round t ≡ none
      → elem k t.keys ≡ true
      → t.row k ≡ some r
      → round.locked k ≡ false
      → IsPatient max (round.age k)
      → is_live max (state o r) ≡ false
  unfolding next_row
  next_row-none k r h among there free old =
      not_eligible-live max (round.age k) (o.status r) (o.attempts r) (old.0, old.1 (o.attempts r))
        (ground (arith, first_row_complete _ t.row t.keys k r h among there))
