-- ===== src/Books/Ledger.antt =====
-- Sums over a ledger that grows by one entry.
use waylo_app.Base.{ℕ, ◌+◌, ◌≡◌, ◌&&◌, List, [], ◌∷◌, ◌++◌, ◌==◌, if◌then◌else◌, arith}
use waylo_app.Schema.Status.{LedgerType, is_ledger_type}
use waylo_app.Schema.Rows.{LedgerEntry}
use waylo_app.Webhook.{sum_of, entry}

pub sum_of-append :
    (l : List LedgerEntry) (id a : ℕ) (k : LedgerType) (n : ℕ) (t : LedgerType)
    → sum_of (l ++ (entry id k a ∷ [])) n t
      ≡ sum_of l n t + (if (id == n) && is_ledger_type k t then a else 0)
unfolding sum_of
sum_of-append [] id a k n t = omega arith
sum_of-append (x ∷ l) id a k n t = omega (arith, sum_of-append l id a k n t)
