-- ===== src/Workers/Outbox/Work.antt =====
-- The failures that the rows of an outbox can still meet.
use waylo_app.Base.{
  ℕ, suc, ◌-◌, ◌≤◌, ◌<◌, ◌≡◌, arith, true, false, Option, none, some, ◌==◌, if◌then◌else◌, elem,
  Bool-cases, inl, inr, refl, Option-cases,
}
use waylo_app.Base.Table.{Table, put}
use waylo_app.Base.Totals.{total, total_strict, total_zero, total-ge, ==-refl}
use waylo_app.Workers.Outbox.{Outbox}
use waylo_app.Workers.Outbox.Machine.{State, is_live}
use waylo_app.Workers.Outbox.Refines.{state}

-- one more than the failures that a live row can still meet
abbrev pub outstanding : ℕ → State → ℕ
outstanding max s = if is_live max s then suc (max - s.attempts) else 0

abbrev pub outstanding_at : {R : Type 0} → Outbox R → ℕ → (ℕ → Option R) → ℕ → ℕ
outstanding_at o max row k = elim (row k) [ none ↦ 0 | some r ↦ outstanding max (state o r) ]

unfoldable pub work : {R : Type 0} → Outbox R → ℕ → Table R → ℕ
unfolding total
work o max t = total (outstanding_at o max t.row) t.keys

module _ {R : Type 0} (o : Outbox R) (max : ℕ) (t : Table R) {k : ℕ} {r : R}
    (there : t.row k ≡ some r) (among : elem k t.keys ≡ true) where
  at_key :
      (done : R)
      → outstanding max (state o done) < outstanding max (state o r)
      → (j : ℕ) → j == k ≡ true
      → outstanding max (state o done) ≤ outstanding_at o max t.row j
  at_key done less j same =
      let e : j ≡ k = ground (arith, same) in
      rw (e, outstanding_at) (rw there (omega (arith, less)))

  left_le :
      (claimed done : R)
      → outstanding max (state o done) < outstanding max (state o r)
      → (j : ℕ)
      → outstanding_at o max (put k done (put k claimed t)).row j ≤ outstanding_at o max t.row j
  left_le claimed done less j = elim (Bool-cases (j == k)) [
    | inl same ↦ rw (same, outstanding_at) (at_key done less j same)
    | inr other ↦ rw (other, outstanding_at) (omega arith)
  ]

  -- A claim and an outcome that leaves less to do leave less to do in the table.
  pub work-put :
      (claimed done : R)
      → outstanding max (state o done) < outstanding max (state o r)
      → work o max (put k done (put k claimed t)) < work o max t
  unfolding work
  work-put claimed done less =
      total_strict (outstanding_at o max (put k done (put k claimed t)).row)
        (outstanding_at o max t.row) t.keys k (left_le claimed done less)
        (rw (==-refl k, outstanding_at) (rw (there, outstanding_at) less)) among

  -- A live row is work.
  pub live-work : is_live max (state o r) ≡ true → 0 < work o max t
  unfolding work
  live-work live = ground (arith, there, live, total-ge (outstanding_at o max t.row) t.keys k among)

module _ {R : Type 0} (o : Outbox R) (max : ℕ) (t : Table R)
    (ended : (k : ℕ) (r : R)
      → elem k t.keys ≡ true
      → t.row k ≡ some r
      → is_live max (state o r) ≡ false) where
  none_at : (k : ℕ) → elem k t.keys ≡ true → outstanding_at o max t.row k ≡ 0
  none_at k among = elim (Option-cases (t.row k)) [
    | inl gone ↦ rw (gone, outstanding_at) refl
    | inr (r, there) ↦ rw (there, outstanding_at) (rw (ended k r among there) refl)
  ]

  -- No live row is no work.
  pub ended-work : work o max t ≡ 0
  unfolding work
  ended-work = total_zero (outstanding_at o max t.row) t.keys none_at
