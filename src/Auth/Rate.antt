-- ===== src/Auth/Rate.antt =====
-- `isRateLimited` of src/rate-limit.ts: the counter of a key, written by one statement.
use waylo_app.Base.{
  ℕ, suc, ◌+◌, ◌≤◌, ◌<◌, ◌≡◌, ◌⊎◌, inl, inr, arith, Bool, true, false, Option, none, some, List, [],
  ◌∷◌, ltb, leb, ◌==◌, ◌-◌, length, if◌then◌else◌,
}

pub record RateRow : Type 0 where
  pub count : ℕ
  pub expires_at : ℕ

abbrev pub RateTable : Type 0
RateTable = ℕ → Option RateRow

-- `intEnv`: what the variable holds, if it is a positive integer
abbrev pub int_env : Option ℕ → ℕ → ℕ
int_env none fallback = fallback
int_env (some n) fallback = if ltb 0 n then n else fallback

-- the row of a key after INSERT … ON CONFLICT DO UPDATE
unfoldable pub upserted_row : (window now : ℕ) → Option RateRow → RateRow
upserted_row window now none = record { count = 1; expires_at = now + window }
upserted_row window now (some r) =
    if ltb r.expires_at now
    then record { count = 1; expires_at = now + window }
    else record { count = r.count + 1; expires_at = r.expires_at }

-- `isRateLimited`. `works`: the database answers; where it does not, no one is limited.
unfoldable pub is_rate_limited :
    (max window : ℕ) → (works : Bool) → (now key : ℕ) → RateTable → Bool × RateTable
unfolding upserted_row
is_rate_limited max window false now key t = (false, t)
is_rate_limited max window true now key t =
    let r = upserted_row window now (t key) in
    (ltb max r.count, λ k. if k == key then some r else t k)

abbrev pub least : ℕ → ℕ → ℕ
least a b = if leb a b then a else b

module _ (max window key : ℕ) where
  -- how many of the requests at these times are let through
  abbrev pub admitted : List ℕ → RateTable → ℕ
  admitted [] t = 0
  admitted (now ∷ times) t =
      let (limited, t1) = is_rate_limited max window true now key t in
      let rest = admitted times t1 in if limited then rest else suc rest

  abbrev pub AllBefore : ℕ → List ℕ → Type 0
  AllBefore end [] = Unit
  AllBefore end (now ∷ times) = (now ≤ end) × AllBefore end times

  row_after :
      (now : ℕ) (t : RateTable) (r : RateRow)
      → t key ≡ some r
      → now ≤ r.expires_at
      → (is_rate_limited max window true now key t).1 key
        ≡ some (record { count = r.count + 1; expires_at = r.expires_at })
  unfolding is_rate_limited upserted_row
  row_after now t r there early = ground (arith, there, early)

  limited_at :
      (now : ℕ) (t : RateTable) (r : RateRow)
      → t key ≡ some r
      → now ≤ r.expires_at
      → (is_rate_limited max window true now key t).0 ≡ ltb max (r.count + 1)
  unfolding is_rate_limited upserted_row
  limited_at now t r there early = ground (arith, there, early)

  counting :
      (times : List ℕ) (t : RateTable) (r : RateRow)
      → t key ≡ some r
      → AllBefore r.expires_at times
      → admitted times t ≡ least (length times) (max - r.count)
  counting [] t r there before = ground arith
  counting (now ∷ times) t r there (early, before) =
      let r1 : RateRow = record { count = r.count + 1; expires_at = r.expires_at } in
      let rest =
        counting times (is_rate_limited max window true now key t).1 r1
          (row_after now t r there early) before in
      ground (arith, limited_at now t r there early, rest)

  -- No window runs for the key: it has no row, or one that has expired.
  abbrev pub IsIdle : ℕ → RateTable → Type 0
  IsIdle now t = (t key ≡ none) ⊎ ((r : RateRow) × (t key ≡ some r) × (r.expires_at < now))

  fresh_row :
      (now : ℕ) (t : RateTable)
      → IsIdle now t
      → upserted_row window now (t key) ≡ record { count = 1; expires_at = now + window }
  unfolding upserted_row
  fresh_row now t (inl gone) = ground (arith, gone)
  fresh_row now t (inr (r, there, over)) = ground (arith, there, over)

  -- Where no window runs for a key, exactly the first `max` of the requests that follow within the
  -- window are let through.
  pub admitted_in_window :
      (now : ℕ) (times : List ℕ) (t : RateTable)
      → IsIdle now t
      → 1 ≤ max
      → AllBefore (now + window) times
      → admitted (now ∷ times) t ≡ least (suc (length times)) max
  unfolding is_rate_limited
  admitted_in_window now times t idle positive before =
      let r1 : RateRow = record { count = 1; expires_at = now + window } in
      let t1 = (is_rate_limited max window true now key t).1 in
      let rest = counting times t1 r1 (ground (arith, fresh_row now t idle)) before in
      ground (arith, fresh_row now t idle, rest)
