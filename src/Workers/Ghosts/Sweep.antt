-- ===== src/Workers/Ghosts/Sweep.antt =====
-- What the sweep of src/workers/mission-lifecycle.ts makes of the missions, where no one else writes.
use waylo_app.Base.{
  ℕ, zero, suc, ◌+◌, ◌<◌, ◌≡◌, ◌⊎◌, inl, inr, refl, sym, ap, ◌∙◌, arith, true, false, Option, none,
  some, List, [], ◌∷◌, elem, length, take, ltb, ◌==◌, if◌then◌else◌, Bool-cases, Option-cases,
}
use mathlib.Core.Path.{subst}
use mathlib.Core.List.{append-nil}
use waylo_app.Base.Table.{
  Table, update_where, find_many, holds, find_many_sound, find_many_complete,
}
use waylo_app.Schema.Rows.{Mission}
use waylo_app.App.{Db}
use waylo_app.Samples.{undisturbed}
use waylo_app.Workers.Ghosts.{is_ghost, to_expired, expire_all, expire_ghost_missions}
use waylo_app.Workers.Ghosts.Ends.{
  IsTame, ghost_in, ghosts, expired_once, expire_all-keys, expire_all-ghost_at, batch_lessens,
  holds-ghost, first_of, elem-take,
}

module _ (now : ℕ) where
  -- the row of a mission after the sweep
  abbrev pub expire_row : Option Mission → Option Mission
  expire_row none = none
  expire_row (some m) = some (if is_ghost now m then to_expired m else m)

  -- A row is as it was, or was a ghost and has expired.
  abbrev Swept : Option Mission → Option Mission → Type 0
  Swept before after =
      (after ≡ before)
      ⊎ ((m : Mission) × (before ≡ some m)
          × (is_ghost now m ≡ true)
          × (after ≡ some (to_expired m)))

  Swept-trans : (a b c : Option Mission) → Swept a b → Swept b c → Swept a c
  Swept-trans a b c p (inl same) = rw same p
  Swept-trans a b c (inl same) (inr (m, there, ghost, done)) =
      inr (m, sym same ∙ there, ghost, done)
  Swept-trans a b c (inr (m0, there0, ghost0, done0)) (inr (m, there, ghost, done)) =
      absurd (ground (arith, expired_once now m0))

  update-Swept :
      (id : ℕ) (t : Table Mission) (k : ℕ)
      → Swept (t.row k) ((update_where id (is_ghost now) to_expired t).0.row k)
  update-Swept id t k = elim (Option-cases (t.row id)) [
    | inl gone ↦ inl (ground (arith, gone))
    | inr (m, there) ↦ elim (Bool-cases (is_ghost now m)) [
      | inl yes_ ↦ elim (Bool-cases (k == id)) [
        | inl same ↦ inr (m, ground (arith, there, same), yes_, ground (arith, there, yes_, same))
        | inr other ↦ inl (ground (arith, there, yes_, other))
      ]
      | inr no_ ↦ inl (ground (arith, there, no_))
    ]
  ]

  expire_all-Swept :
      (ids : List ℕ) (t : Table Mission) (k : ℕ) → Swept (t.row k) ((expire_all now ids t).0.row k)
  unfolding expire_all
  expire_all-Swept [] t k = inl refl
  expire_all-Swept (id ∷ ids) t k =
      Swept-trans _ _ _ (update-Swept id t k)
        (expire_all-Swept ids (update_where id (is_ghost now) to_expired t).0 k)

  -- no ghost left among the keys
  Swept-expire_row :
      (a b : Option Mission) → Swept a b → holds (is_ghost now) b ≡ false → b ≡ expire_row a
  Swept-expire_row none b (inl same) h = same
  Swept-expire_row (some m) b (inl same) h = ground (arith, same, h)
  Swept-expire_row a b (inr (m, there, ghost, done)) h = ground (arith, there, ghost, done)

  take_all : (n : ℕ) (xs : List ℕ) → ltb (length (take n xs)) n ≡ true → take n xs ≡ xs
  take_all zero xs h = absurd (ground (arith, h))
  take_all (suc n) [] h = refl
  take_all (suc n) (x ∷ xs) h = ground (arith, take_all n xs)

  pub alone : IsTame now undisturbed
  alone = record {
    created = λ db. [];
    appended = λ db. sym (append-nil db.missions.keys);
    fresh = λ db k h. absurd (ground (arith, h));
    no_ghost = λ db k. omega arith;
  }

  ghost-holds : (row : Option Mission) → 0 < ghost_in now row → holds (is_ghost now) row ≡ true
  ghost-holds none h = ground arith
  ghost-holds (some m) h = ground (arith, h)

  expire_row-Swept : (a b : Option Mission) → Swept a b → expire_row b ≡ expire_row a
  expire_row-Swept a b (inl same) = ap expire_row same
  expire_row-Swept a b (inr (m, there, ghost, done)) =
      ground (arith, there, ghost, done, expired_once now m)

  -- A batch that is not full holds every ghost.
  last_batch :
      (batch_size : ℕ) (t : Table Mission) (k : ℕ)
      → ltb (length (take batch_size (find_many (is_ghost now) t))) batch_size ≡ true
      → elem k t.keys ≡ true
      → holds
          (is_ghost now)
          ((expire_all now (take batch_size (find_many (is_ghost now) t)) t).0.row k)
        ≡ false
  last_batch batch_size t k partial among =
      elim (Bool-cases (
        holds (is_ghost now)
          ((expire_all now (take batch_size (find_many (is_ghost now) t)) t).0.row k))) [
            | inr no_ ↦ no_
            | inl yes_ ↦ absurd (
                let ids = take batch_size (find_many (is_ghost now) t) in
                let now_ghost = holds-ghost now ((expire_all now ids t).0.row k) yes_ in
                let was_ghost =
                  ghost-holds (t.row k)
                    (omega (arith, now_ghost, (expire_all-ghost_at now ids t k).0)) in
                let chosen : elem k ids ≡ true =
                  ap (elem k) (take_all batch_size (find_many (is_ghost now) t) partial)
                  ∙ find_many_complete (is_ghost now) t k among was_ghost in
                omega (arith, now_ghost, (expire_all-ghost_at now ids t k).1 chosen))
          ]

no_element : (xs : List ℕ) → ltb 0 (length xs) ≡ false → xs ≡ []
no_element [] h = refl
no_element (x ∷ xs) h = absurd (ground (arith, h))

-- Where no one else writes, with a batch size of at least one and fuel for more batches than there are
-- ghosts, the sweep ends, and has made every mission of the table that was created and has passed its
-- deadline EXPIRED, and changed no other.
pub expire_ghost_missions_sweeps :
    (fuel now batch_size sum : ℕ) (db : Db)
    → 0 < batch_size
    → ghosts now db.missions < fuel
    → (n : ℕ) × (db' : Db) × (expire_ghost_missions fuel (λ i. undisturbed) now batch_size sum db
        ≡ some (n, db'))
      × ((k : ℕ)
          → elem k db.missions.keys ≡ true
          → db'.missions.row k ≡ expire_row now (db.missions.row k))
unfolding expire_ghost_missions expire_all
expire_ghost_missions_sweeps zero now batch_size sum db some_size enough = absurd (omega arith)
expire_ghost_missions_sweeps (suc fuel) now batch_size sum db some_size enough =
    let found = find_many (is_ghost now) db.missions in
    let batch = take batch_size found in
    let (missions, n) = expire_all now batch db.missions in
    let db2 = record db { missions = missions } in
    elim (Bool-cases (ltb 0 (length batch))) [
      | inr empty ↦ (
        sum,
        db,
        rw empty refl,
        λ k among. Swept-expire_row now (db.missions.row k) (db.missions.row k) (inl refl) (
            subst (λ ids. holds (is_ghost now) ((expire_all now ids db.missions).0.row k) ≡ false)
              (no_element batch empty)
              (last_batch now batch_size db.missions k (ground (arith, some_size, empty)) among)),
      )
      | inl some_ ↦ elim (Bool-cases (ltb (length batch) batch_size)) [
        | inl partial ↦ (
          sum + n,
          db2,
          rw some_ (rw partial refl),
          λ k among.
              Swept-expire_row now (db.missions.row k) (missions.row k)
                (expire_all-Swept now batch db.missions k)
                (last_batch now batch_size db.missions k partial among),
        )
        | inr full ↦
            let (k, chosen) = first_of batch (ground (arith, some_)) in
            let (among, ghost) =
              find_many_sound (is_ghost now) db.missions k (elem-take batch_size found k chosen) in
            let less =
              batch_lessens now undisturbed (alone now) db batch k chosen among
                (holds-ghost now (db.missions.row k) ghost) in
            let (m, db', returns, swept) =
              expire_ghost_missions_sweeps fuel now batch_size (sum + n) db2 some_size
                (omega arith) in
            (
              m,
              db',
              rw some_ (rw full returns),
              λ j here.
                  swept j (ap (elem j) (expire_all-keys now batch db.missions) ∙ here)
                  ∙ expire_row-Swept now (db.missions.row j) (missions.row j)
                      (expire_all-Swept now batch db.missions j),
            )
      ]
    ]
