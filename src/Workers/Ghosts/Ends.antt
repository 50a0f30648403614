-- ===== src/Workers/Ghosts/Ends.antt =====
-- How many batches the sweep of src/workers/mission-lifecycle.ts takes.
use waylo_app.Base.{
  ℕ, zero, suc, ◌+◌, ◌≤◌, ◌<◌, ◌≡◌, inl, inr, refl, ◌∙◌, ap, arith, true, false, Option, none, some,
  List, [], ◌∷◌, ◌++◌, elem, length, take, ltb, ◌==◌, if◌then◌else◌, Bool-cases, Option-cases,
}
use waylo_app.Base.Table.{Table, update_where, find_many, holds, find_many_sound}
use waylo_app.Base.Totals.{total, total_strict, total_zero, total-append, ==-refl}
use waylo_app.Schema.Status.{is_status}
use waylo_app.Schema.Rows.{Mission}
use waylo_app.App.{Db}
use waylo_app.Workers.Ghosts.{is_ghost, to_expired, expire_all, expire_ghost_missions}

module _ (now : ℕ) where
  -- 1 where the row is a ghost
  abbrev pub ghost_in : Option Mission → ℕ
  ghost_in none = 0
  ghost_in (some m) = if is_ghost now m then 1 else 0

  abbrev pub ghost_at : Table Mission → ℕ → ℕ
  ghost_at t k = ghost_in (t.row k)

  -- the missions of a table that are ghosts
  unfoldable pub ghosts : Table Mission → ℕ
  unfolding total
  ghosts t = total (ghost_at t) t.keys

  pub expired_once : (m : Mission) → is_ghost now (to_expired m) ≡ false
  unfolding is_ghost is_status
  expired_once m = ground arith

  -- One update of the batch changes no key, makes no ghost, and leaves none in its row.
  update-keys :
      (id : ℕ) (t : Table Mission) → (update_where id (is_ghost now) to_expired t).0.keys ≡ t.keys
  update-keys id t = elim (Option-cases (t.row id)) [
    | inl gone ↦ ground (arith, gone)
    | inr (m, there) ↦ ground (arith, there)
  ]

  update-ghost_at :
      (id : ℕ) (t : Table Mission) (k : ℕ)
      → (ghost_at (update_where id (is_ghost now) to_expired t).0 k ≤ ghost_at t k)
        × (k == id ≡ true → ghost_at (update_where id (is_ghost now) to_expired t).0 k ≡ 0)
  update-ghost_at id t k = elim (Option-cases (t.row id)) [
    | inl gone ↦ (ground (arith, gone), λ e. ground (arith, gone))
    | inr (m, there) ↦ elim (Bool-cases (is_ghost now m)) [
      | inl yes_ ↦ (
        ground (arith, there, yes_, expired_once m),
        λ e. ground (arith, there, yes_, expired_once m),
      )
      | inr no_ ↦ (ground (arith, there, no_), λ e. ground (arith, there, no_))
    ]
  ]

  pub expire_all-keys : (ids : List ℕ) (t : Table Mission) → (expire_all now ids t).0.keys ≡ t.keys
  unfolding expire_all
  expire_all-keys [] t = refl
  expire_all-keys (id ∷ ids) t = expire_all-keys ids _ ∙ update-keys id t

  pub expire_all-ghost_at :
      (ids : List ℕ) (t : Table Mission) (k : ℕ)
      → (ghost_at (expire_all now ids t).0 k ≤ ghost_at t k)
        × (elem k ids ≡ true → ghost_at (expire_all now ids t).0 k ≡ 0)
  unfolding expire_all
  expire_all-ghost_at [] t k = (omega arith, λ e. ground arith)
  expire_all-ghost_at (id ∷ ids) t k =
      let t1 = (update_where id (is_ghost now) to_expired t).0 in
      let first = update-ghost_at id t k in
      let rest = expire_all-ghost_at ids t1 k in
      (
        omega (arith, first.0, rest.0),
        λ e. elim (Bool-cases (k == id)) [
          | inl same ↦ omega (arith, first.1 same, rest.0)
          | inr other ↦ rest.1 (ground (arith, e, other))
        ],
      )

-- What others may commit meanwhile: missions that are new, and changes that make no mission a ghost.
pub record IsTame (now : ℕ) (others : Db → Db) : Type 0 where
  pub created : Db → List ℕ
  pub appended : (db : Db) → (others db).missions.keys ≡ db.missions.keys ++ created db
  pub fresh : (db : Db) (k : ℕ) → elem k (created db) ≡ true → db.missions.row k ≡ none
  pub no_ghost :
      (db : Db) (k : ℕ) → ghost_at now (others db).missions k ≤ ghost_at now db.missions k

pub elem-take : (n : ℕ) (xs : List ℕ) (k : ℕ) → elem k (take n xs) ≡ true → elem k xs ≡ true
elem-take zero xs k h = ground arith
elem-take (suc n) [] k h = ground arith
elem-take (suc n) (x ∷ xs) k h = ground (arith, elem-take n xs k)

pub first_of : (xs : List ℕ) → 0 < length xs → (k : ℕ) × (elem k xs ≡ true)
first_of [] h = absurd (omega arith)
first_of (x ∷ xs) h = (x, rw (==-refl x) refl)

module _ (now : ℕ) (others : Db → Db) (tame : IsTame now others) (db : Db) where
  fresh-ghost_at : (k : ℕ) → elem k (tame.created db) ≡ true → ghost_at now db.missions k ≡ 0
  fresh-ghost_at k among = rw (tame.fresh db k among, ghost_at) refl

  after : List ℕ → Table Mission
  after ids = (expire_all now ids (others db).missions).0

  after-ghost_at : (ids : List ℕ) (j : ℕ) → ghost_at now (after ids) j ≤ ghost_at now db.missions j
  unfolding after
  after-ghost_at ids j =
      omega (arith, (expire_all-ghost_at now ids (others db).missions j).0, tame.no_ghost db j)

  after-keys : (ids : List ℕ) → (after ids).keys ≡ db.missions.keys ++ tame.created db
  unfolding after
  after-keys ids = expire_all-keys now ids (others db).missions ∙ tame.appended db

  -- Each batch that is not empty leaves fewer ghosts, whatever the others commit meanwhile.
  pub batch_lessens :
      (ids : List ℕ) (k : ℕ)
      → elem k ids ≡ true
      → elem k db.missions.keys ≡ true
      → ghost_at now db.missions k ≡ 1
      → ghosts now (expire_all now ids (others db).missions).0 < ghosts now db.missions
  unfolding ghosts after
  batch_lessens ids k chosen among ghost =
      let f = ghost_at now (after ids) in
      omega (
        arith,
        ap (total f) (after-keys ids),
        total-append f db.missions.keys (tame.created db),
        total_zero f (tame.created db)
            (λ j new. omega (arith, after-ghost_at ids j, fresh-ghost_at j new)),
        total_strict f (ghost_at now db.missions) db.missions.keys k (after-ghost_at ids)
            (omega (arith, ghost, (expire_all-ghost_at now ids (others db).missions k).1 chosen))
            among,
      )

pub holds-ghost :
    (now : ℕ) (row : Option Mission) → holds (is_ghost now) row ≡ true → ghost_in now row ≡ 1
holds-ghost now none h = ground arith
holds-ghost now (some m) h = ground (arith, h)

-- The sweep ends: as many batches as there are ghosts, and one more, are enough, if what others commit
-- meanwhile makes no mission a ghost.
pub expire_ghost_missions_ends :
    (fuel : ℕ) (others : ℕ → Db → Db) (now batch_size sum : ℕ) (db : Db)
    → ((i : ℕ) → IsTame now (others i))
    → ghosts now db.missions < fuel
    → (r : ℕ × Db) × (expire_ghost_missions fuel others now batch_size sum db ≡ some r)
unfolding expire_ghost_missions
expire_ghost_missions_ends zero others now batch_size sum db tame enough = absurd (omega arith)
expire_ghost_missions_ends (suc fuel) others now batch_size sum db tame enough =
    let found = find_many (is_ghost now) db.missions in
    let batch = take batch_size found in
    let (missions, n) = expire_all now batch (others 0 db).missions in
    let db2 = record (others 0 db) { missions = missions } in
    elim (Bool-cases (ltb 0 (length batch))) [
      | inr empty ↦ ((sum, db), rw empty refl)
      | inl some_ ↦ elim (Bool-cases (ltb (length batch) batch_size)) [
        | inl partial ↦ ((sum + n, db2), rw some_ (rw partial refl))
        | inr full ↦
            let (k, chosen) = first_of batch (ground (arith, some_)) in
            let (among, ghost) =
              find_many_sound (is_ghost now) db.missions k (elem-take batch_size found k chosen) in
            let less =
              batch_lessens now (others 0) (tame 0) db batch k chosen among
                (holds-ghost now (db.missions.row k) ghost) in
            let (r, returns) =
              expire_ghost_missions_ends fuel (λ i. others (suc i)) now batch_size (sum + n) db2
                (λ i. tame (suc i)) (omega arith) in
            (r, rw some_ (rw full returns))
      ]
    ]
