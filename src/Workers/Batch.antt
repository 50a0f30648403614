-- ===== src/Workers/Batch.antt =====
-- `claimOutboxBatch` of src/workers/outbox-claim.ts: a batch of rows is selected, marked and read in one
-- transaction.
use waylo_app.Base.{ℕ, Bool, true, if◌then◌else◌, none, some, List, [], ◌∷◌}
use waylo_app.Base.Table.{Table, update_where}
use waylo_app.App.{Db, Action, ◌>>=◌, ◌>>◌, pure, read, modify, transaction}

-- `updateMany({ where: { id: { in: ids } }, data: f })`
unfoldable pub update_all {ℓ} : {R : Type ℓ} → List ℕ → (R → R) → Table R → Table R
update_all [] f t = t
update_all (id ∷ ids) f t = update_all ids f (update_where id (λ r. true) f t).0

-- `findMany({ where: { id: { in: ids } } })`
unfoldable pub fetch_all {ℓ} : {R : Type ℓ} → List ℕ → Table R → List (ℕ × R)
fetch_all [] t = []
fetch_all (id ∷ ids) t =
    let rest = fetch_all ids t in elim (t.row id) [ none ↦ rest | some r ↦ (id, r) ∷ rest ]

-- `FOR UPDATE SKIP LOCKED`: the rows that no one else has locked
unfoldable pub unlocked : (locked : ℕ → Bool) → List ℕ → List ℕ
unlocked locked [] = []
unlocked locked (id ∷ ids) = let rest = unlocked locked ids in if locked id then rest else id ∷ rest

module _ {ℓ} {T : Type ℓ} (select_ids : Db → List ℕ) (update_attempts : List ℕ → Db → Db)
    (fetch_claimed : List ℕ → Db → List T) where
  abbrev claim_ids : List ℕ → Action (List T)
  claim_ids [] = pure []
  claim_ids (id ∷ ids) = modify (update_attempts (id ∷ ids)) >> read (fetch_claimed (id ∷ ids))

  unfoldable pub claim_outbox_batch : Action (List T)
  claim_outbox_batch = transaction (do rows ← read select_ids; claim_ids rows)
