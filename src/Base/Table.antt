-- ===== src/Base/Table.antt =====
-- A database table with a unique key: its keys in order of creation, and the row of each key.
-- Prisma's `findUnique`, `updateMany` on a unique column, `findMany`, `create` and `upsert`.
use Prim.Native.Nat.{ℕ}
use mathlib.Core.Path.{◌≡◌}
use mathlib.Core.Bool.{Bool, true, false}
use mathlib.Core.Option.{Option, none, some}
use mathlib.Core.List.{List, [], ◌∷◌, ◌++◌}
use native.Mathlib.Omega.{arith}
use waylo_app.Base.Tests.{◌==◌, if◌then◌else◌, elem}

pub record Table {ℓ} (R : Type ℓ) : Type ℓ where
  pub keys : List ℕ
  pub row : ℕ → Option R

module _ {ℓ} {R : Type ℓ} where
  -- `findUnique({ where: { key } })`
  abbrev pub find_unique : ℕ → Table R → Option R
  find_unique k t = t.row k

  -- the row of `k` becomes `r`
  abbrev pub put : ℕ → R → Table R → Table R
  put k r t = record t { row = λ j. if j == k then some r else t.row j }

  -- `create`: `none` is a unique violation (P2002)
  abbrev pub create : ℕ → R → Table R → Option (Table R)
  create k r t = elim (t.row k) [
    | none ↦
        some (record { keys = t.keys ++ (k ∷ []); row = λ j. if j == k then some r else t.row j })
    | some _ ↦ none
  ]

  abbrev pub holds : (R → Bool) → Option R → Bool
  holds test none = false
  holds test (some r) = test r

  -- `updateMany({ where: { key, …test }, data: f })`, with the count of rows changed. The key is
  -- unique, so the count is 0 or 1.
  abbrev pub update_where : ℕ → (R → Bool) → (R → R) → Table R → Table R × ℕ
  update_where k test f t = elim (t.row k) [
    | none ↦ (t, 0)
    | some r ↦ if test r then (put k (f r) t, 1) else (t, 0)
  ]

  find_among : (R → Bool) → (ℕ → Option R) → List ℕ → Option (ℕ × R)
  find_among test row [] = none
  find_among test row (k ∷ ks) = elim (row k) [
    | none ↦ find_among test row ks
    | some r ↦ if test r then some (k, r) else find_among test row ks
  ]

  -- `findUnique` on a unique column other than the key
  unfoldable pub find_first : (R → Bool) → Table R → Option (ℕ × R)
  unfolding find_among
  find_first test t = find_among test t.row t.keys

  select_among : (R → Bool) → (ℕ → Option R) → List ℕ → List ℕ
  select_among test row [] = []
  select_among test row (k ∷ ks) =
      let rest = select_among test row ks in if holds test (row k) then k ∷ rest else rest

  -- `findMany({ where: test, select: { id: true } })`
  unfoldable pub find_many : (R → Bool) → Table R → List ℕ
  unfolding select_among
  find_many test t = select_among test t.row t.keys

  find_among_sound :
      (test : R → Bool) (row : ℕ → Option R) (ks : List ℕ) {k : ℕ} {r : R}
      → find_among test row ks ≡ some (k, r)
      → (row k ≡ some r) × (test r ≡ true)
  unfolding find_among
  find_among_sound test row [] h = ground arith
  find_among_sound test row (j ∷ ks) {k} {r} h =
      ground (arith, find_among_sound test row ks {k = k} {r = r})

  -- What `find_first` returns is the row of its key, and satisfies the test.
  pub find_first_sound :
      (test : R → Bool) (t : Table R) {k : ℕ} {r : R}
      → find_first test t ≡ some (k, r)
      → (t.row k ≡ some r) × (test r ≡ true)
  unfolding find_first
  find_first_sound test t h = find_among_sound test t.row t.keys h

  -- A key has one row.
  pub same_row : {k : ℕ} {a b : R} (t : Table R) → t.row k ≡ some a → t.row k ≡ some b → a ≡ b
  same_row t p q = cc

  pub row-put_self : (k : ℕ) (r : R) (t : Table R) → (put k r t).row k ≡ some r
  row-put_self k r t = ground arith

  select_among_sound :
      (test : R → Bool) (row : ℕ → Option R) (ks : List ℕ) (k : ℕ)
      → elem k (select_among test row ks) ≡ true
      → (elem k ks ≡ true) × (holds test (row k) ≡ true)
  unfolding select_among
  select_among_sound test row [] k h = ground arith
  select_among_sound test row (j ∷ ks) k h = ground (arith, select_among_sound test row ks k)

  select_among_complete :
      (test : R → Bool) (row : ℕ → Option R) (ks : List ℕ) (k : ℕ)
      → elem k ks ≡ true
      → holds test (row k) ≡ true
      → elem k (select_among test row ks) ≡ true
  unfolding select_among
  select_among_complete test row [] k e h = ground arith
  select_among_complete test row (j ∷ ks) k e h =
      ground (arith, select_among_complete test row ks k)

  -- `find_many` returns the keys whose rows satisfy the test.
  pub find_many_sound :
      (test : R → Bool) (t : Table R) (k : ℕ)
      → elem k (find_many test t) ≡ true
      → (elem k t.keys ≡ true) × (holds test (t.row k) ≡ true)
  unfolding find_many
  find_many_sound test t k h = select_among_sound test t.row t.keys k h

  pub find_many_complete :
      (test : R → Bool) (t : Table R) (k : ℕ)
      → elem k t.keys ≡ true
      → holds test (t.row k) ≡ true
      → elem k (find_many test t) ≡ true
  unfolding find_many
  find_many_complete test t k e h = select_among_complete test t.row t.keys k e h
