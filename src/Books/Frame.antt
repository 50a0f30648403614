-- ===== src/Books/Frame.antt =====
-- A change of one escrow and its ledger entries, and the books of every other.
use waylo_app.Base.{
  ℕ, ◌≡◌, ◌≢◌, Option, none, some, List, [], ◌∷◌, ◌++◌, ◌==◌, if◌then◌else◌, arith,
}
use mathlib.Core.Path.{sym, subst}
use native.Mathlib.Decide.{ℕ_discrete}
use waylo_app.Schema.Status.{LedgerType}
use waylo_app.Schema.Rows.{Escrow, LedgerEntry}
use waylo_app.App.{Db}
use waylo_app.Webhook.{sum_of, entry}
use waylo_app.Books.Defs.{paid_out, IsBalancedRow, BooksBalance}
use waylo_app.Books.Ledger.{sum_of-append}

pub if_same {ℓ} : {A : Type ℓ} (id : ℕ) (a b : A) → (if id == id then a else b) ≡ a
if_same id a b = ground arith

pub same_sums :
    (l l' : List LedgerEntry) (n : ℕ) (r : Option Escrow)
    → ((t : LedgerType) → sum_of l' n t ≡ sum_of l n t)
    → IsBalancedRow l n r
    → IsBalancedRow l' n r
unfolding paid_out
same_sums l l' n none sums b = simp sums b
same_sums l l' n (some e) sums b = record {
  captured = rw (sums LedgerType.capture) b.captured;
  within = simp sums b.within;
  released = simp sums b.released;
  refunded = simp sums b.refunded;
  unpaid = simp sums b.unpaid;
}

-- Only escrow `id` and its entries change, and it ends balanced.
pub rebalance :
    (db db' : Db) (id : ℕ)
    → BooksBalance db
    → ((n : ℕ) → n ≢ id → db'.escrows.row n ≡ db.escrows.row n)
    → ((n : ℕ) (t : LedgerType) → n ≢ id → sum_of db'.ledger n t ≡ sum_of db.ledger n t)
    → IsBalancedRow db'.ledger id (db'.escrows.row id)
    → BooksBalance db'
rebalance db db' id books rows sums own n = elim (ℕ_discrete n id) [
  | yes same ↦ subst (λ k. IsBalancedRow db'.ledger k (db'.escrows.row k)) (sym same) own
  | no other ↦
      rw (rows n other)
        (same_sums db.ledger db'.ledger n (db.escrows.row n) (λ t. sums n t other) (books n))
]

-- Beside `id`, an entry of `id` changes no sum.
pub sum_of-append_other :
    (l : List LedgerEntry) (id a : ℕ) (k : LedgerType) (n : ℕ) (t : LedgerType)
    → n ≢ id
    → sum_of (l ++ (entry id k a ∷ [])) n t ≡ sum_of l n t
sum_of-append_other l id a k n t other = ground (arith, sum_of-append l id a k n t)
