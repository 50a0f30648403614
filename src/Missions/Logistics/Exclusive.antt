-- ===== src/Missions/Logistics/Exclusive.antt =====
-- A mission is taken once: `/match` and `/accept` of src/missions/routes/logistics.route.ts.
use waylo_app.Base.{ℕ, refl, ◌≡◌, ◌∙◌, ap, inl, inr, true, some, arith}
use waylo_app.Base.Table.{same_row}
use waylo_app.Schema.Status.{MissionStatus, is_status}
use waylo_app.Schema.Rows.{Mission}
use waylo_app.App.{Db, World, Fault, Result, ok, err, Done}
use waylo_app.Missions.Logistics.Matching.{match_mission, to_matched}
use waylo_app.Missions.Logistics.Outcomes.{match_outcome}

refused_not_ok :
    {f : Fault} {p : Result Done × World} {w : World} → p ≡ (err f, w) → p.0 ≡ ok tt → ⊥
refused_not_ok same won = ground (arith, ap (λ q. q.0) same, won)

not_both :
    (m m' : Mission)
    → m ≡ m'
    → is_status m.status MissionStatus.funded ≡ true
    → m'.status ≡ MissionStatus.matched
    → ⊥
unfolding is_status
not_both m m' same funded matched = ground (arith, ap (λ x. x.status) same, funded, matched)

module _ (between between' : Db → Db) (user other id : ℕ) (w : World) where
  abbrev after : World
  after = (match_mission between user id w).1

  taken :
      (match_mission between user id w).0 ≡ ok tt
      → (m : Mission) × (after.db.missions.row id ≡ some m) × (m.status ≡ MissionStatus.matched)
  taken won = elim (match_outcome between user id w) [
    | inl (f, same) ↦ absurd (refused_not_ok same won)
    | inr (m, may, inl (f, same)) ↦ absurd (refused_not_ok same won)
    | inr (m, may, inr (inl (f, same))) ↦ absurd (refused_not_ok same won)
    | inr (m, may, inr (inr (cur, there, open_, same))) ↦
        (to_matched user cur, ap (λ p. p.1.db.missions.row id) same ∙ ground arith, refl)
  ]

  -- Once a user has taken a mission, every other attempt to take it is refused without any effect.
  match_once :
      (match_mission between user id w).0 ≡ ok tt
      → (f : Fault) × (match_mission between' other id after ≡ (err f, after))
  match_once won = elim (match_outcome between' other id after) [
    | inl refused ↦ refused
    | inr (m, may, _) ↦
        let (m', row, matched) = taken won in
        absurd (not_both m m' (same_row after.db.missions may.row row) may.funded matched)
  ]
