-- ===== src/Watchdog/Attempts.antt =====
-- How often the watchdog calls its function, and what it returns.
use waylo_app.Base.{
  ℕ, zero, suc, ◌+◌, ◌≤◌, ◌<◌, ◌≡◌, refl, sym, ◌⊎◌, inl, inr, List, ◌∷◌, [], ◌++◌, arith,
}
use mathlib.Core.List.{append_assoc}
use native.Mathlib.Nat.{add-zero}
use native.Mathlib.Decide.{dec_lt}
use waylo_app.Watchdog.{
  Attempt, Thrown, Settled, value, thrown, WatchdogOptions, Outcome, returned, exhausted_error,
  LogEvent, duration, delay_after, failure_log, ExhaustLog, AttemptLog, race_with_timeout,
  automate_from, automate,
}

pub Settled-cases {ℓ} :
    {A : Type ℓ} (s : Settled A) → ((v : A) × (s ≡ value v)) ⊎ ((e : Thrown) × (s ≡ thrown e))
Settled-cases (value v) = inl (v, refl)
Settled-cases (thrown e) = inr (e, refl)

module _ {ℓ} {A : Type ℓ} (o : WatchdogOptions) (fn : ℕ → Attempt A) where
  -- attempt `n` fails: it rejects or times out
  abbrev pub Fails : ℕ → Type ℓ
  Fails n = (e : Thrown) × (race_with_timeout o.timeout_ms (fn n) ≡ thrown e)

  -- A loop that stands at attempt `n` returns the value of the first attempt `k` that succeeds.
  automate_from_success :
      (left n k clock : ℕ) (xs : List ExhaustLog) (ls : List AttemptLog) (v : A)
      → n ≤ k
      → k ≤ n + left
      → ((i : ℕ) → n ≤ i → i < k → Fails i)
      → race_with_timeout o.timeout_ms (fn k) ≡ value v
      → let r = automate_from o fn left n clock xs ls in (r.outcome ≡ returned v) × (r.calls ≡ k)
  unfolding automate_from
  automate_from_success zero n k clock xs ls v lo hi fails ok =
      let here : k ≡ n = omega arith in
      let won : race_with_timeout o.timeout_ms (fn n) ≡ value v = (rw here at ok) in
      rw (won, automate_from) (refl, sym here)
  automate_from_success (suc left) n k clock xs ls v lo hi fails ok = elim (dec_lt n k) [
    | yes later ↦
        let (e, failed) = fails n (omega arith) later in
        rw (failed, automate_from)
          (automate_from_success left (n + 1) k _ _ _ v (omega arith) (omega arith)
            (λ i h. fails i (omega arith)) ok)
    | no now ↦
        let here : k ≡ n = omega arith in
        let won : race_with_timeout o.timeout_ms (fn n) ≡ value v = (rw here at ok) in
        rw (won, automate_from) (refl, sym here)
  ]

  -- If an attempt succeeds, and all attempts before it failed, then its value is returned, and the
  -- function has been called as often as its number says.
  automate_success :
      (start k : ℕ) (v : A)
      → 1 ≤ k
      → k ≤ o.max_retries + 1
      → ((i : ℕ) → 1 ≤ i → i < k → Fails i)
      → race_with_timeout o.timeout_ms (fn k) ≡ value v
      → let r = automate o fn start in (r.outcome ≡ returned v) × (r.calls ≡ k)
  unfolding automate
  automate_success start k v lo hi fails ok =
      automate_from_success o.max_retries 1 k start [] [] v lo (omega arith) fails ok

abbrev pub numbers_from : ℕ → ℕ → List ℕ
numbers_from zero n = n ∷ []
numbers_from (suc left) n = n ∷ numbers_from left (n + 1)

-- the numbers of the attempts that a journal lists
abbrev pub log_numbers : List ExhaustLog → List ℕ
log_numbers [] = []
log_numbers (x ∷ xs) = x.attempt ∷ log_numbers xs

log_numbers-append :
    (xs ys : List ExhaustLog) → log_numbers (xs ++ ys) ≡ log_numbers xs ++ log_numbers ys
log_numbers-append [] ys = refl
log_numbers-append (x ∷ xs) ys = rw (log_numbers-append xs ys)

journal_step :
    (xs : List ExhaustLog) (x : ExhaustLog) (ys : List ℕ)
    → log_numbers (xs ++ (x ∷ [])) ++ ys ≡ log_numbers xs ++ (x.attempt ∷ ys)
journal_step xs x ys = rw (log_numbers-append xs (x ∷ [])) (append_assoc (log_numbers xs) _ ys)

-- The error of exhaustion, with this many attempts, this last error and a journal of these attempts.
abbrev pub IsExhausted {ℓ} : {A : Type ℓ} → ℕ → Thrown → List ℕ → Outcome A → Type 0
IsExhausted n e ns (returned v) = ⊥
IsExhausted n e ns (exhausted_error m e' xs) = (m ≡ n) × (e' ≡ e) × (log_numbers xs ≡ ns)

module _ {ℓ} {A : Type ℓ} (o : WatchdogOptions) (fn : ℕ → Attempt A) where
  automate_from-IsExhausted :
      (left n clock : ℕ) (xs : List ExhaustLog) (ls : List AttemptLog) (e : Thrown)
      → ((i : ℕ) → n ≤ i → i < n + left → Fails o fn i)
      → race_with_timeout o.timeout_ms (fn (n + left)) ≡ thrown e
      → let r = automate_from o fn left n clock xs ls in
        IsExhausted (n + left) e (log_numbers xs ++ numbers_from left n) r.outcome
        × (r.calls ≡ n + left)
  unfolding automate_from
  automate_from-IsExhausted zero n clock xs ls e fails last =
      let lost : race_with_timeout o.timeout_ms (fn n) ≡ thrown e = (rw add-zero at last) in
      rw (lost, automate_from) ((omega arith, refl, log_numbers-append xs _), omega arith)
  automate_from-IsExhausted (suc left) n clock xs ls e fails last =
      let (e', failed) = fails n (omega arith) (omega arith) in
      let shift : n + suc left ≡ n + 1 + left = omega arith in
      let last' : race_with_timeout o.timeout_ms (fn (n + 1 + left)) ≡ thrown e =
        (rw shift at last) in
      let x : ExhaustLog = record {
        attempt = n;
        error = e';
        timestamp = clock + duration o.timeout_ms (fn n);
      } in
      let ih =
        automate_from-IsExhausted left (n + 1)
          (clock + duration o.timeout_ms (fn n) + delay_after o n) (xs ++ (x ∷ []))
          (ls ++ (failure_log o fn LogEvent.attempt_failure n e' ∷ [])) e
          (λ i h h'. fails i (omega arith) (omega arith)) last' in
      rw (failed, automate_from, shift)
        ((rw (journal_step xs x (numbers_from left (n + 1))) at ih.0), ih.1)

  automate_from-calls_bounded :
      (left n clock : ℕ) (xs : List ExhaustLog) (ls : List AttemptLog)
      → (automate_from o fn left n clock xs ls).calls ≤ n + left
  unfolding automate_from
  automate_from-calls_bounded zero n clock xs ls = ground arith
  automate_from-calls_bounded (suc left) n clock xs ls =
      elim (Settled-cases (race_with_timeout o.timeout_ms (fn n))) [
        | inl (v, won) ↦ ground arith
        | inr (e, lost) ↦
            rw (lost, automate_from) (omega (arith, automate_from-calls_bounded left (n + 1) _ _ _))
      ]

  -- The function is called at most once more than there are retries.
  pub automate-calls_bounded : (start : ℕ) → (automate o fn start).calls ≤ 1 + o.max_retries
  unfolding automate
  automate-calls_bounded start = automate_from-calls_bounded o.max_retries 1 start [] []

  -- If every attempt fails, the watchdog gives up after one more attempt than it has retries, with
  -- the error of the last attempt and a journal of all attempts in order.
  automate-IsExhausted :
      (start : ℕ) (e : Thrown)
      → ((i : ℕ) → 1 ≤ i → i < 1 + o.max_retries → Fails o fn i)
      → race_with_timeout o.timeout_ms (fn (1 + o.max_retries)) ≡ thrown e
      → let r = automate o fn start in
        IsExhausted (1 + o.max_retries) e (numbers_from o.max_retries 1) r.outcome
        × (r.calls ≡ 1 + o.max_retries)
  unfolding automate
  automate-IsExhausted start e fails last =
      automate_from-IsExhausted o.max_retries 1 start [] [] e fails last
