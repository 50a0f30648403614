-- ===== src/Workers/Ghosts.antt =====
-- `expireGhostMissions` of src/workers/mission-lifecycle.ts.
pub mod Ends
pub mod Sweep
mod Examples
use waylo_app.Base.{
  ℕ, zero, suc, ◌+◌, Bool, ◌&&◌, Option, none, some, List, [], ◌∷◌, ltb, if◌then◌else◌, length,
  take,
}
use waylo_app.Base.Table.{Table, update_where, find_many}
use waylo_app.Schema.Status.{MissionStatus, is_status}
use waylo_app.Schema.Rows.{Mission}
use waylo_app.App.{Db}

abbrev pub default_batch_size : ℕ
default_batch_size = 50

-- `{ status: CREATED, expiresAt: { lt: now } }`
unfoldable pub is_ghost : ℕ → Mission → Bool
is_ghost now m = is_status m.status MissionStatus.created && ltb m.expires_at now

abbrev pub to_expired : Mission → Mission
to_expired m = record m { status = MissionStatus.expired }

-- `updateMany({ where: { id: { in: ids }, …ghost }, data: { status: EXPIRED } })`, with its count
unfoldable pub expire_all : ℕ → List ℕ → Table Mission → Table Mission × ℕ
expire_all now [] t = (t, 0)
expire_all now (id ∷ ids) t =
    let (t1, n1) = update_where id (is_ghost now) to_expired t in
    let (t2, n2) = expire_all now ids t1 in (t2, n1 + n2)

-- The loop, on fuel: `none` means that the fuel ran out. `others i` is what other requests commit
-- between the SELECT and the UPDATE of the i-th batch.
unfoldable pub expire_ghost_missions : ℕ → (ℕ → Db → Db) → ℕ → ℕ → ℕ → Db → Option (ℕ × Db)
unfolding expire_all
expire_ghost_missions zero others now batch_size sum db = none
expire_ghost_missions (suc fuel) others now batch_size sum db =
    let batch = take batch_size (find_many (is_ghost now) db.missions) in
    let db1 = others 0 db in
    let (missions, n) = expire_all now batch db1.missions in
    let db2 = record db1 { missions = missions } in
    let rest = expire_ghost_missions fuel (λ i. others (suc i)) now batch_size (sum + n) db2 in
    if ltb 0 (length batch)
    then (if ltb (length batch) batch_size then some (sum + n, db2) else rest)
    else some (sum, db)
