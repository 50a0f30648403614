-- ===== src/Auth/Examples.antt =====
-- Tests of src/auth/auth.service.ts and src/rate-limit.ts.
use waylo_app.Base.{
  ℕ, ◌≡◌, List, [], ◌∷◌, none, some, refl, inl, arith, get_or, ◌==◌, if◌then◌else◌,
}
use waylo_app.App.{Done}
use waylo_app.Watchdog.{Attempt, resolves}
use waylo_app.Auth.{
  MagicLink, Accounts, accepted, refused, magic_link_invalid, magic_link_exhausted,
  verify_magic_link,
}
use waylo_app.Auth.Codes.{Guess, no_one, guess_all, used, wrong_guesses_exhaust, request-verify}
use waylo_app.Auth.Rate.{RateTable, admitted, least, admitted_in_window}

-- the code 1234, until 900
abbrev link : MagicLink
link = record { token = 49 ∷ 50 ∷ 51 ∷ 52 ∷ []; expires_at = 900; attempts = 1 }

abbrev start : Accounts
start = record {
  links = λ e. if e == 3 then some link else none;
  users = λ e. if e == 3 then some 8 else none;
}

abbrev wrong : Guess
wrong = record { now = 10; token = 49 ∷ 50 ∷ [] }

abbrev five : List Guess
five = wrong ∷ wrong ∷ wrong ∷ wrong ∷ wrong ∷ []

wrong_guesses_exhaust_example :
    verify_magic_link no_one 20 3 link.token (guess_all 3 five start)
    ≡ (refused magic_link_exhausted, guess_all 3 five start)
wrong_guesses_exhaust_example =
    wrong_guesses_exhaust 3 five link start 20 link.token refl
      (
        (refl, omega arith),
        (
          (refl, omega arith),
          ((refl, omega arith), ((refl, omega arith), ((refl, omega arith), tt))),
        ),
      )
      (omega arith)

abbrev mail : ℕ → Attempt Done
mail n = resolves 10 tt

request-verify_example :
    ((used 3 mail 100 200 9 (55 ∷ []) start).0 ≡ accepted (get_or (start.users 3) 9))
    × (verify_magic_link no_one 200 3 (55 ∷ []) (used 3 mail 100 200 9 (55 ∷ []) start).1
        ≡ (refused magic_link_invalid, (used 3 mail 100 200 9 (55 ∷ []) start).1))
request-verify_example = request-verify 3 mail 100 200 9 (55 ∷ []) start (omega arith)

abbrev no_rows : RateTable
no_rows k = none

admitted_in_window_example : admitted 2 60 1 (100 ∷ 110 ∷ 120 ∷ []) no_rows ≡ least 3 2
admitted_in_window_example =
    admitted_in_window 2 60 1 100 (110 ∷ 120 ∷ []) no_rows (inl refl) (omega arith)
      (omega arith, (omega arith, tt))
