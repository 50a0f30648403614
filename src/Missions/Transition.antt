-- ===== src/Missions/Transition.antt =====
-- The conditional update that every route of src/missions/routes ends with: `updateMany` on the
-- mission with a test on its state, and an error unless one row was changed.
use waylo_app.Base.{
  ◌∙◌, ℕ, Bool, true, not, ◌≡◌, ◌⊎◌, inl, inr, some, ◌==◌, arith, Option-cases, Bool-cases,
}
use waylo_app.Base.Table.{put}
use waylo_app.Schema.Rows.{Mission}
use waylo_app.App.{Db, World, Fault, Result, ok, err, Action, Done, ◌>>=◌, throw_if, update_mission}

unfoldable pub move : ℕ → (Mission → Bool) → (Mission → Mission) → Fault → Action Done
move id test f fault = do count ← update_mission id test f; throw_if (not (count == 1)) fault

-- the world in which the mission has become `m`
abbrev pub moved : ℕ → Mission → World → World
moved id m w = record w { db = record w.db { missions = put id m w.db.missions } }

-- the world once others have committed
abbrev pub interrupted : (Db → Db) → World → World
interrupted f w = record w { db = f w.db }

-- To split on a conditional update.
pub move_cases :
    (id : ℕ) (test : Mission → Bool) (f : Mission → Mission) (fault : Fault) (w : World)
    → (move id test f fault w ≡ (err fault, w))
      ⊎ ((cur : Mission) × (w.db.missions.row id ≡ some cur)
          × (test cur ≡ true)
          × (move id test f fault w ≡ (ok tt, moved id (f cur) w)))
unfolding move
move_cases id test f fault w = elim (Option-cases (w.db.missions.row id)) [
  | inl gone ↦ inl (ground (arith, gone))
  | inr (cur, there) ↦ elim (Bool-cases (test cur)) [
    | inl yes_ ↦ inr (cur, there, yes_, ground (arith, there, yes_))
    | inr no_ ↦ inl (ground (arith, there, no_))
  ]
]

-- What a route that reads `w` and ends with a conditional update in `w'` can do: it is refused by its
-- guards, or by the update, or the mission that passes the test is changed, and nothing else.
abbrev pub Outcome :
    ℕ → (Mission → Bool) → (Mission → Mission) → World → World → Result Done × World → Type 0
Outcome id test f w w' result =
    ((x : Fault) × (result ≡ (err x, w)))
    ⊎ ((x : Fault) × (result ≡ (err x, w')))
    ⊎ ((cur : Mission) × (w'.db.missions.row id ≡ some cur)
        × (test cur ≡ true)
        × (result ≡ (ok tt, moved id (f cur) w')))

pub move-Outcome :
    (id : ℕ) (test : Mission → Bool) (f : Mission → Mission) (fault : Fault) (w w' : World)
    {result : Result Done × World}
    → result ≡ move id test f fault w'
    → Outcome id test f w w' result
move-Outcome id test f fault w w' {result} same = elim (move_cases id test f fault w') [
  | inl lost ↦ inr (inl (fault, same ∙ lost))
  | inr (cur, there, passes, won) ↦ inr (inr (cur, there, passes, same ∙ won))
]
