-- ===== src/Auth/Codes.antt =====
-- What the codes that are sent to log in promise.
use waylo_app.Base.{
  ℕ, ◌+◌, ◌≤◌, ◌≡◌, refl, arith, true, false, some, List, [], ◌∷◌, length, leb, Text, text_eq,
  get_or, if◌then◌else◌,
}
use waylo_app.App.{Done}
use waylo_app.Watchdog.{Attempt}
use waylo_app.Auth.{
  MagicLink, Accounts, Answer, accepted, refused, magic_link_invalid, magic_link_exhausted,
  magic_link_ttl_ms, max_attempts, request_magic_link, verify_magic_link, verify_link,
  count_attempt, consume_link,
}

abbrev pub no_one : Accounts → Accounts
no_one s = s

pub record Guess : Type 0 where
  pub now : ℕ
  pub token : Text

-- one guess after the other
abbrev pub guess_all : ℕ → List Guess → Accounts → Accounts
guess_all email [] s = s
guess_all email (g ∷ gs) s = guess_all email gs (verify_magic_link no_one g.now email g.token s).1

-- A guess that is wrong, and in time.
abbrev pub IsWrong : (token : Text) → (expires_at : ℕ) → Guess → Type 0
IsWrong token expires_at g = (text_eq token g.token ≡ false) × (g.now ≤ expires_at)

abbrev pub AllWrong : (token : Text) → (expires_at : ℕ) → List Guess → Type 0
AllWrong token expires_at [] = Unit
AllWrong token expires_at (g ∷ gs) = IsWrong token expires_at g × AllWrong token expires_at gs

abbrev counted : MagicLink → MagicLink
counted link = record link {
  attempts = if leb max_attempts link.attempts then link.attempts else link.attempts + 1;
}

module _ (email : ℕ) where
  wrong_guess :
      (g : Guess) (link : MagicLink) (s : Accounts)
      → s.links email ≡ some link
      → IsWrong link.token link.expires_at g
      → (verify_magic_link no_one g.now email g.token s).1.links email ≡ some (counted link)
  unfolding verify_magic_link verify_link count_attempt
  wrong_guess g link s there wrong = ground (arith, there, wrong)

  wrong_guesses :
      (gs : List Guess) (link : MagicLink) (s : Accounts)
      → s.links email ≡ some link
      → AllWrong link.token link.expires_at gs
      → max_attempts ≤ length gs + link.attempts
      → (n : ℕ) × ((guess_all email gs s).links email ≡ some (record link { attempts = n }))
        × (max_attempts ≤ n)
  wrong_guesses [] link s there wrong many = (link.attempts, there, omega arith)
  wrong_guesses (g ∷ gs) link s there (wrong, all) many =
      wrong_guesses gs (counted link) (verify_magic_link no_one g.now email g.token s).1
        (wrong_guess g link s there wrong) all (ground arith)

  exhausted :
      (link : MagicLink) (now : ℕ) (token : Text) (s : Accounts)
      → s.links email ≡ some link
      → max_attempts ≤ link.attempts
      → verify_magic_link no_one now email token s ≡ (refused magic_link_exhausted, s)
  unfolding verify_magic_link verify_link
  exhausted link now token s there many = ground (arith, there, many)

  -- After five guesses that are wrong and in time, one after the other, every code is refused as
  -- exhausted, the right one too, and nothing changes.
  pub wrong_guesses_exhaust :
      (gs : List Guess) (link : MagicLink) (s : Accounts) (now : ℕ) (token : Text)
      → s.links email ≡ some link
      → AllWrong link.token link.expires_at gs
      → max_attempts ≤ length gs
      → verify_magic_link no_one now email token (guess_all email gs s)
        ≡ (refused magic_link_exhausted, guess_all email gs s)
  wrong_guesses_exhaust gs link s now token there wrong many =
      let (n, row, over) = wrong_guesses gs link s there wrong (omega arith) in
      exhausted (record link { attempts = n }) now token (guess_all email gs s) row over

  text_eq_refl : (t : Text) → text_eq t t ≡ true
  text_eq_refl [] = refl
  text_eq_refl (c ∷ t) = ground (arith, text_eq_refl t)

  module _ (transport : ℕ → Attempt Done) (now later id : ℕ) (token : Text) (s : Accounts) where
    abbrev requested : Accounts
    requested = (request_magic_link transport now email id token s).1

    -- what a verification in time gives
    abbrev pub used : Answer × Accounts
    used = verify_magic_link no_one later email token requested

    -- A code that was requested logs its user in once, until it expires, however the message was sent:
    -- the user that the email had, or the new one. The same code is refused afterwards.
    pub request-verify :
        later ≤ now + magic_link_ttl_ms
        → (used.0 ≡ accepted (get_or (s.users email) id))
          × (verify_magic_link no_one later email token used.1
              ≡ (refused magic_link_invalid, used.1))
    unfolding request_magic_link verify_magic_link verify_link consume_link
    request-verify in_time =
        (ground (arith, text_eq_refl token), ground (arith, text_eq_refl token))
