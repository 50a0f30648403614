-- ===== src/Books/Sample.antt =====
-- The books of the small database: its escrow is held and has no entries.
use waylo_app.Base.{ℕ, ◌==◌, refl, inl, inr, [], Bool-cases, arith}
use waylo_app.Schema.Status.{MissionStatus}
use waylo_app.Webhook.{sum_of}
use waylo_app.Books.Defs.{paid_out, IsBalanced, BooksBalance}
use waylo_app.Samples.{sample_escrow, sample_db}

sample_IsBalanced : (id : ℕ) → IsBalanced [] id sample_escrow
unfolding paid_out sum_of
sample_IsBalanced id = record {
  captured = refl;
  within = omega arith;
  released = λ h. refl;
  refunded = λ h. refl;
  unpaid = λ h. refl;
}

pub sample-BooksBalance : (s : MissionStatus) → BooksBalance (sample_db s)
unfolding paid_out sum_of
sample-BooksBalance s id = elim (Bool-cases (id == 7)) [
  | inl there ↦ rw there (sample_IsBalanced id)
  | inr gone ↦ rw gone (refl, refl, refl)
]
