-- ===== src/Auth.antt =====
-- src/auth/auth.service.ts: the codes that are sent to log in. And src/rate-limit.ts.
pub mod Codes
pub mod Rate
mod Examples
use waylo_app.Base.{
  ℕ, ◌+◌, ◌*◌, Bool, true, false, not, Option, none, some, ltb, leb, is_some, get_or, ◌==◌, Text,
  text_eq, if◌then◌else◌,
}
use waylo_app.App.{Done}
use waylo_app.Watchdog.{Attempt, WatchdogOptions, Outcome, automate}

-- 15 minutes
abbrev pub magic_link_ttl_ms : ℕ
magic_link_ttl_ms = 15 * 60 * 1_000

abbrev pub max_attempts : ℕ
max_attempts = 5

pub record MagicLink : Type 0 where
  pub token : Text
  pub expires_at : ℕ
  pub attempts : ℕ

-- The link and the user of each email. An email is named by a number.
pub record Accounts : Type 0 where
  pub links : ℕ → Option MagicLink
  pub users : ℕ → Option ℕ

pub data AuthError : Type 0 where
  magic_link_invalid : AuthError  -- 401
  magic_link_exhausted : AuthError  -- 429
  magic_link_expired : AuthError  -- 401
  row_missing : AuthError  -- an update, a deletion or a read of a row that is gone

pub data Answer : Type 0 where
  accepted : (user : ℕ) → Answer
  refused : AuthError → Answer

abbrev pub put_link : ℕ → Option MagicLink → Accounts → Accounts
put_link email link s = record s { links = λ e. if e == email then link else s.links e }

abbrev pub upsert_user : (email id : ℕ) → Accounts → Accounts
upsert_user email id s = record s {
  users = λ e. if e == email then some (get_or (s.users e) id) else s.users e;
}

-- the configuration of the alias `email-send`
abbrev pub email_send_options : WatchdogOptions
email_send_options = record {
  max_retries = 2;
  backoff_ms = 1_000;
  timeout_ms = 10_000;
  exponential_factor = 2;
}

-- `requestMagicLink`. `token` is the generated code, `id` what a new user would be named, and
-- `transport` what the sending of the message does at each attempt.
unfoldable pub request_magic_link :
    (transport : ℕ → Attempt Done) → (now email id : ℕ) → Text → Accounts → Outcome Done × Accounts
request_magic_link transport now email id token s = (
  (automate email_send_options transport 0).outcome,
  put_link email
      (some (record { token = token; expires_at = now + magic_link_ttl_ms; attempts = 0 }))
      (upsert_user email id s),
)

-- the update of the attempts; `between` is what others commit since the link was read
unfoldable pub count_attempt : (Accounts → Accounts) → ℕ → Accounts → Answer × Accounts
count_attempt between email s =
    let s1 = between s in
    elim (s1.links email) [
      | none ↦ (refused row_missing, s1)
      | some link ↦ (
        refused magic_link_invalid,
        put_link email (some (record link { attempts = link.attempts + 1 })) s1,
      )
    ]

abbrev pub user_of : Option ℕ → Answer
user_of none = refused row_missing
user_of (some user) = accepted user

-- the deletion of the link, and the user
unfoldable pub consume_link : (Accounts → Accounts) → ℕ → Accounts → Answer × Accounts
consume_link between email s =
    let s1 = between s in
    elim (s1.links email) [
      | none ↦ (refused row_missing, s1)
      | some link ↦ (user_of (s1.users email), put_link email none s1)
    ]

-- a link that is there: two buffers of the same length whose bytes are equal are equal
unfoldable pub verify_link :
    (Accounts → Accounts) → (now email : ℕ) → Text → MagicLink → Accounts → Answer × Accounts
unfolding count_attempt consume_link
verify_link between now email token link s =
    if leb max_attempts link.attempts
    then (refused magic_link_exhausted, s)
    else if ltb link.expires_at now
    then (refused magic_link_expired, s)
    else if not (text_eq link.token token)
    then count_attempt between email s
    else consume_link between email s

-- `verifyMagicLink`
unfoldable pub verify_magic_link :
    (Accounts → Accounts) → (now email : ℕ) → Text → Accounts → Answer × Accounts
unfolding verify_link
verify_magic_link between now email token s = elim (s.links email) [
  | none ↦ (refused magic_link_invalid, s)
  | some link ↦ verify_link between now email token link s
]
