-- ===== src/Workers/Ghosts/Examples.antt =====
-- A sweep of a small database.
use waylo_app.Base.{ℕ, ◌≡◌, some, refl, elem, true, arith}
use waylo_app.Schema.Status.{MissionStatus, is_status}
use waylo_app.App.{Db}
use waylo_app.Samples.{sample_db, sample_mission, undisturbed}
use waylo_app.Workers.Ghosts.{is_ghost, to_expired, expire_ghost_missions}
use waylo_app.Workers.Ghosts.Ends.{ghosts, expire_ghost_missions_ends}
use waylo_app.Workers.Ghosts.Sweep.{alone, expire_row, expire_ghost_missions_sweeps}

abbrev ghost_db : Db
ghost_db = sample_db MissionStatus.created

expire_ghost_missions_ends_example :
    (r : ℕ × Db) × (expire_ghost_missions 2 (λ i. undisturbed) 2_000 50 0 ghost_db ≡ some r)
unfolding ghosts is_ghost is_status
expire_ghost_missions_ends_example =
    expire_ghost_missions_ends 2 (λ i. undisturbed) 2_000 50 0 ghost_db (λ i. alone 2_000)
      (omega arith)

expire_ghost_missions_sweeps_example :
    (n : ℕ) × (db' : Db) × (expire_ghost_missions 2 (λ i. undisturbed) 2_000 50 0 ghost_db
      ≡ some (n, db'))
    × ((k : ℕ)
        → elem k ghost_db.missions.keys ≡ true
        → db'.missions.row k ≡ expire_row 2_000 (ghost_db.missions.row k))
unfolding ghosts is_ghost is_status
expire_ghost_missions_sweeps_example =
    expire_ghost_missions_sweeps 2 2_000 50 0 ghost_db (omega arith) (omega arith)

expired :
    expire_row 2_000 (ghost_db.missions.row 7)
    ≡ some (to_expired (sample_mission MissionStatus.created))
unfolding is_ghost is_status
expired = refl
