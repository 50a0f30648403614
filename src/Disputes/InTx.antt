-- ===== src/Disputes/InTx.antt =====
-- A dispute that is created and opened inside a transaction of another request:
-- src/services/dispute.service.ts.
use waylo_app.Base.{
  ℕ, ◌≡◌, ◌≢◌, inl, inr, arith, Option, some, Text, [], ◌∷◌, ◌++◌, ◌==◌, if◌then◌else◌, Bool-cases,
  Option-cases,
}
use waylo_app.Base.Table.{Table, put, row-put_self}
use waylo_app.Schema.Status.{draft, is_dispute_status}
use waylo_app.Schema.Rows.{Dispute}
use waylo_app.App.{World, ok}
use waylo_app.Disputes.{create_dispute_in_tx, open_dispute_in_tx, opened, new_dispute}

-- the world with these disputes
abbrev pub with_disputes : Table Dispute → World → World
with_disputes t w = record w { db = record w.db { disputes = t } }

abbrev created_row : (user id : ℕ) → Option Text → Table Dispute → Table Dispute
created_row user id reason t = record {
  keys = t.keys ++ (id ∷ []);
  row = λ j. if j == id then some (new_dispute user reason) else t.row j;
}

-- There is a dispute afterwards, and it is not a draft.
pub create_then_open :
    (time user id : ℕ) (reason : Option Text) (w : World)
    → (d : Dispute) × (t0 : Table Dispute) × (t : Table Dispute) × (create_dispute_in_tx id user
          reason w
        ≡ (ok tt, with_disputes t0 w))
      × (open_dispute_in_tx time id (with_disputes t0 w) ≡ (ok tt, with_disputes t w))
      × (t.row id ≡ some d)
      × (d.status ≢ draft)
unfolding create_dispute_in_tx open_dispute_in_tx is_dispute_status
create_then_open time user id reason w = elim (Option-cases (w.db.disputes.row id)) [
  | inl gone ↦
      let d = opened time (new_dispute user reason) in
      (
        d,
        created_row user id reason w.db.disputes,
        put id d (created_row user id reason w.db.disputes),
        ground (arith, gone),
        ground (arith, gone),
        row-put_self id d (created_row user id reason w.db.disputes),
        λ h. cc h,
      )
  | inr (d, there) ↦ elim (Bool-cases (is_dispute_status d.status draft)) [
    | inl is ↦ (
      opened time d,
      w.db.disputes,
      put id (opened time d) w.db.disputes,
      ground (arith, there, is),
      ground (arith, there, is),
      row-put_self id (opened time d) w.db.disputes,
      λ h. cc h,
    )
    | inr other ↦ (
      d,
      w.db.disputes,
      w.db.disputes,
      ground (arith, there, other),
      ground (arith, there, other),
      there,
      λ h. ground (arith, h, other),
    )
  ]
]
