-- ===== src/Books/Capturing.antt =====
-- What `handleCapture` of src/stripe/webhook.route.ts does to the books.
use waylo_app.Base.{ℕ, ◌≤◌, ◌≡◌, Option, none, some, [], ◌∷◌, ◌++◌, ◌==◌, if◌then◌else◌, arith, ◌⊎◌}
use waylo_app.Base.Table.{put}
use waylo_app.Schema.Status.{EscrowStatus, LedgerType, is_escrow_status_iff}
use waylo_app.Schema.Rows.{Mission, Escrow}
use waylo_app.App.{Db, World, ok}
use waylo_app.Webhook.{
  entry, distribute, release, EffectOutcome, capture_locked, record_capture, pay_out,
}
use waylo_app.Books.Settling.{settled_ledger, distribute_writes, release_mission_keeps}

-- the world once the escrow is marked as released
abbrev pub marked : ℕ → Escrow → World → World
marked id e w = record w {
  db = record w.db { escrows = put id (record e { status = EscrowStatus.released }) w.db.escrows };
}

pub release_writes :
    (id : ℕ) (m : Mission) (account captured : ℕ) (w : World) {e : Escrow} {x : EffectOutcome}
    → w.db.escrows.row id ≡ some e
    → (release id m account captured w).0 ≡ ok x
    → let v = (release id m account captured w).1 in
      (m.commission_cents ≤ captured)
      × (v.db.ledger ≡ settled_ledger w.db.ledger id m captured)
      × (e.status ≡ EscrowStatus.held)
      × ((n : ℕ)
          → v.db.escrows.row n ≡ (
              if n == id
              then some (record e { status = EscrowStatus.released })
              else w.db.escrows.row n))
unfolding release
release_writes id m account captured w {e} found done = ground (
  arith,
  found,
  done,
  is_escrow_status_iff e.status EscrowStatus.held,
  distribute_writes id m (marked id e w) account captured,
  release_mission_keeps id m ((distribute id m account captured (marked id e w)).1),
)

-- the two journals a capture ends with, and the escrow each leaves
abbrev pub Captured : ℕ → ℕ → Escrow → Db → Db → Type 0
Captured id captured e db db' =
    (db'.ledger ≡ db.ledger ++ (entry id LedgerType.capture captured ∷ []))
    × ((n : ℕ)
        → db'.escrows.row n ≡ (
            if n == id
            then some (record e { captured_amount_cents = captured })
            else db.escrows.row n))

abbrev pub Settled : ℕ → Mission → ℕ → Escrow → Db → Db → Type 0
Settled id m captured e db db' =
    (m.commission_cents ≤ captured)
    × (db'.ledger
        ≡ settled_ledger (db.ledger ++ (entry id LedgerType.capture captured ∷ [])) id m captured)
    × ((n : ℕ)
        → db'.escrows.row n ≡ (
            if n == id
            then some
                (record e { status = EscrowStatus.released; captured_amount_cents = captured })
            else db.escrows.row n))

-- the world once the capture is journalled
abbrev pub journalled : ℕ → ℕ → Escrow → World → World
journalled id captured e w = record w {
  db = record w.db {
    escrows = put id (record e { captured_amount_cents = captured }) w.db.escrows;
    ledger = w.db.ledger ++ (entry id LedgerType.capture captured ∷ []);
  };
}

pub capture_locked_writes :
    (id : ℕ) (m : Mission) (account : Option ℕ) (captured : ℕ) (e : Escrow) (w : World)
    {x : EffectOutcome}
    → w.db.escrows.row id ≡ some e
    → (capture_locked id m account captured e w).0 ≡ ok x
    → let v = (capture_locked id m account captured e w).1 in
      (v.db ≡ w.db)
      ⊎ ((e.status ≡ EscrowStatus.held)
          × (e.captured_amount_cents ≡ 0)
          × (Captured id captured e w.db v.db ⊎ Settled id m captured e w.db v.db))
unfolding capture_locked record_capture pay_out
capture_locked_writes id m none captured e w {x} found done =
    ground (arith, found, done, is_escrow_status_iff e.status EscrowStatus.held)
capture_locked_writes id m (some account) captured e w {x} found done = ground (
  arith,
  found,
  done,
  is_escrow_status_iff e.status EscrowStatus.held,
  release_writes id m account captured (journalled id captured e w)
      {e = record e { captured_amount_cents = captured }} {x = x},
)
