-- ===== src/AuthLimit/Laws.antt =====
-- What the limiter on logins guarantees.
use printer_repo.Prelude.{
  ap, subst, sym, ◌∙◌, ℕ, ◌*◌, or_else, ◌+◌, ◌-◌, ◌≤◌, ◌<◌, ◌≡◌, refl, inl, inr, Bool, false, List,
  [], ◌∷◌, Option, none, some, ltb, if◌then◌else◌, arith, Bool-cases,
}
use printer_repo.Prelude.Text.{Text, text_eq_refl}
use printer_repo.AuthLimit.{
  time_left, lock_at, new_row, BucketRow, Buckets, lock_duration_ms, locked_for, bump_row,
  bump_with, bump, read_bucket, account_key, RateLimitDecision, allowed, refused,
  inspect_auth_rate_limit, record_auth_failure,
}

-- More failures never shorten the lock; four failures lock nothing, the fifth locks, and no lock is
-- longer than an hour.
pub lock_duration_mono : (m n : ℕ) → m ≤ n → lock_duration_ms m ≤ lock_duration_ms n
unfolding lock_duration_ms
lock_duration_mono m n h = ground arith

-- After a failure at some time, the row that the key reads is the updated row.
pub read-bump :
    (key : Text) (now : ℕ) (rows : Buckets)
    → read_bucket key (bump key now rows).0 ≡ some (bump key now rows).1
unfolding bump bump_with read_bucket bump_row
read-bump key now [] = ground (arith, text_eq_refl key)
read-bump key now (r ∷ rows) = ground (arith, read-bump key now rows)

-- The earliest end of the lock, from the start of the window, once so many failures are counted.
abbrev waited : ℕ → ℕ
waited failures =
    if ltb failures 5
    then 0
    else if ltb failures 10
    then (failures - 4) * 30_000
    else 150_000 + (failures - 9) * 300_000

abbrev LockedPast : ℕ → Option ℕ → Type 0
LockedPast time none = ⊥
LockedPast time (some until) = time ≤ until

-- A row that only attempts that were not locked out have written.
record IsPaced (row : BucketRow) : Type 0 where
  started : row.window_started_at ≤ row.updated_at
  counted : row.failures ≤ 12
  locked :
      5 ≤ row.failures → LockedPast (row.window_started_at + waited row.failures) row.locked_until

-- A lock that is over has ended in the past.
resting :
    (time now : ℕ) (row : BucketRow)
    → LockedPast time row.locked_until
    → locked_for (some row) now ≡ 0
    → time ≤ now
unfolding locked_for
resting time now row p free = go row.locked_until p free
  where
    go : (until : Option ℕ) → LockedPast time until → time_left until now ≡ 0 → time ≤ now
    go none p free = absurd p
    go (some until) p free = ground arith

waited-step :
    (start now f : ℕ)
    → start ≤ now
    → now ≤ start + 900_000
    → f ≤ 12
    → (5 ≤ f → start + waited f ≤ now)
    → (f + 1 ≤ 12) × (5 ≤ f + 1 → start + waited (f + 1) ≤ now + lock_duration_ms (f + 1))
unfolding lock_duration_ms
waited-step start now f h w c p = ground arith

lock_positive : (f : ℕ) → 5 ≤ f → 0 < lock_duration_ms f
unfolding lock_duration_ms
lock_positive f h = ground arith

counted_row : (row : BucketRow) (start now f : ℕ) → BucketRow
counted_row row start now f = record row {
  failures = f;
  window_started_at = start;
  locked_until = lock_at now (lock_duration_ms f);
  updated_at = now;
}

counted_row-IsPaced :
    (row : BucketRow) (start now f : ℕ)
    → start ≤ now
    → f ≤ 12
    → (5 ≤ f → start + waited f ≤ now + lock_duration_ms f)
    → IsPaced (counted_row row start now f)
unfolding counted_row
counted_row-IsPaced row start now f h c p = record {
  started = h;
  counted = c;
  locked = λ five. lock_at-locked now (lock_duration_ms f) _ (p five) (lock_positive f five);
}
  where
    lock_at-locked :
        (now lock time : ℕ) → time ≤ now + lock → 0 < lock → LockedPast time (lock_at now lock)
    lock_at-locked now lock time h q = ground arith

bump_row-IsPaced :
    (now : ℕ) (row : BucketRow)
    → IsPaced row
    → row.updated_at ≤ now
    → locked_for (some row) now ≡ 0
    → IsPaced (bump_row 900_000 lock_duration_ms now row)
unfolding bump_row counted_row
bump_row-IsPaced now row v h free = elim (Bool-cases (ltb (row.window_started_at + 900_000) now)) [
  | inl e ↦ simp e (counted_row-IsPaced row now now 1 (ground arith) (ground arith) (ground arith))
  | inr e ↦ simp e (
      let (c, p) =
        waited-step row.window_started_at now row.failures (ground (arith, v.started))
          (ground arith) v.counted (λ five. resting _ now row (v.locked five) free) in
      counted_row-IsPaced row row.window_started_at now (row.failures + 1)
        (ground (arith, v.started)) c p)
]

new_row-IsPaced :
    (key : Text) (now : ℕ) → IsPaced (bump_row 900_000 lock_duration_ms now (new_row key now))
unfolding bump_row counted_row
new_row-IsPaced key now =
    counted_row-IsPaced (new_row key now) _ now _ (ground arith) (ground arith) (ground arith)

abbrev pub AllRead : (BucketRow → Type 0) → Option BucketRow → Type 0
AllRead P none = Unit
AllRead P (some row) = P row

-- The key's row after a failure is its row before, or a new one, with the failure counted.
bump-row :
    (key : Text) (now : ℕ) (rows : Buckets)
    → (bump key now rows).1
      ≡ bump_row 900_000 lock_duration_ms now (or_else (read_bucket key rows) (new_row key now))
unfolding bump bump_with read_bucket
bump-row key now [] = refl
bump-row key now (r ∷ rows) = ground (arith, bump-row key now rows)

-- The answer of POST of src/app/api/auth/manager/login/route.ts to a wrong password.
pub data LoginReply : Type 0 where
  too_many_attempts : (retry_after_sec : ℕ) → LoginReply
  invalid_credentials : LoginReply

-- When the handler inspects the limit, counts the failure and works out the answer.
pub record LoginTimes : Type 0 where
  pub seen : ℕ
  pub counted : ℕ
  pub answered : ℕ

abbrev counted_failure : Buckets × RateLimitDecision → Buckets × LoginReply
counted_failure (rows, allowed) = (rows, invalid_credentials)
counted_failure (rows, refused seconds) = (rows, too_many_attempts seconds)

abbrev by_inspection :
    RateLimitDecision → Buckets → Buckets × RateLimitDecision → Buckets × LoginReply
by_inspection allowed rows recorded = counted_failure recorded
by_inspection (refused seconds) rows recorded = (rows, too_many_attempts seconds)

-- The handler with a wrong password, from the inspection of the limit on.
unfoldable pub reject_login :
    (trust_proxy : Bool) → (ip username : Text) → LoginTimes → Buckets → Buckets × LoginReply
unfolding inspect_auth_rate_limit record_auth_failure
reject_login trust_proxy ip username times rows =
    by_inspection (inspect_auth_rate_limit trust_proxy ip username times.seen rows) rows
      (record_auth_failure trust_proxy ip username times.counted times.counted times.answered rows)

-- Attempts that run strictly one after the other, from addresses that are not told apart.
unfoldable pub guesses : Text → List LoginTimes → Buckets → Buckets
guesses username [] rows = rows
guesses username (t ∷ ts) rows = guesses username ts (reject_login false [] username t rows).0

-- The times of the attempts are in order.
abbrev pub Ordered : ℕ → List LoginTimes → Type 0
Ordered start [] = Unit
Ordered start (t ∷ ts) = (start ≤ t.seen) × (t.seen ≤ t.counted) × Ordered t.counted ts

abbrev Paced : ℕ → Option BucketRow → Type 0
Paced now none = Unit
Paced now (some row) = IsPaced row × (row.updated_at ≤ now)

Paced-later : (start now : ℕ) (o : Option BucketRow) → start ≤ now → Paced start o → Paced now o
Paced-later start now none h p = tt
Paced-later start now (some row) h (v, u) = (v, ground arith)

bumped-Paced :
    (key : Text) (start now : ℕ) (o : Option BucketRow)
    → start ≤ now
    → Paced start o
    → locked_for o now ≡ 0
    → Paced now (some (bump_row 900_000 lock_duration_ms now (or_else o (new_row key now))))
unfolding bump_row
bumped-Paced key start now none h p free = (new_row-IsPaced key now, ground arith)
bumped-Paced key start now (some row) h (v, u) free =
    (bump_row-IsPaced now row v (ground arith) free, ground arith)

-- A lock that is over stays over.
still_free :
    (o : Option BucketRow) (seen counted : ℕ)
    → seen ≤ counted
    → locked_for o seen ≡ 0
    → locked_for o counted ≡ 0
unfolding locked_for
still_free none seen counted h free = refl
still_free (some row) seen counted h free = go row.locked_until free
  where
    go : (until : Option ℕ) → time_left until seen ≡ 0 → time_left until counted ≡ 0
    go none free = refl
    go (some until) free = ground arith

answered_rows : (r : Buckets × RateLimitDecision) → (counted_failure r).0 ≡ r.0
answered_rows (rows, allowed) = refl
answered_rows (rows, refused seconds) = refl

reject_login-Paced :
    (username : Text) (t : LoginTimes) (rows : Buckets) (start : ℕ)
    → start ≤ t.seen
    → t.seen ≤ t.counted
    → Paced start (read_bucket (account_key username) rows)
    → Paced t.counted (read_bucket (account_key username) (reject_login false [] username t rows).0)
unfolding reject_login inspect_auth_rate_limit record_auth_failure
reject_login-Paced username t rows start h k p =
    let key = account_key username in
    elim (Bool-cases (ltb 0 (locked_for (read_bucket key rows) t.seen))) [
      | inl e ↦ rw e (Paced-later start t.counted (read_bucket key rows) (ground arith) p)
      | inr e ↦
          let free = still_free (read_bucket key rows) t.seen t.counted k (ground arith) in
          rw e (
            subst (λ (r : Buckets). Paced t.counted (read_bucket key r))
              (sym (
                answered_rows
                  (record_auth_failure false [] username t.counted t.counted t.answered rows)))
              (subst (Paced t.counted)
                (sym (read-bump key t.counted rows ∙ ap some (bump-row key t.counted rows)))
                (bumped-Paced key start t.counted (read_bucket key rows) (ground arith) p free)))
    ]

guesses-Paced :
    (username : Text) (ts : List LoginTimes) (rows : Buckets) (start : ℕ)
    → Ordered start ts
    → Paced start (read_bucket (account_key username) rows)
    → AllRead
        (λ row. row.failures ≤ 12)
        (read_bucket (account_key username) (guesses username ts rows))
unfolding guesses
guesses-Paced username [] rows start h p = read_le (read_bucket (account_key username) rows) p
  where
    read_le : (o : Option BucketRow) → Paced start o → AllRead (λ row. row.failures ≤ 12) o
    read_le none p = tt
    read_le (some row) (v, u) = v.counted
guesses-Paced username (t ∷ ts) rows start (h, k, hs) p =
    guesses-Paced username ts (reject_login false [] username t rows).0 t.counted hs
      (reject_login-Paced username t rows start h k p)

-- However many wrong passwords are tried for an account from addresses not told apart, each only after the one before was answered, its
-- row never counts more than 12 failures: by the time the lock of the twelfth ends, the window of 15 minutes is over,
-- and the count starts again. Attempts that run at once are not covered.
pub guesses-le :
    (username : Text) (ts : List LoginTimes)
    → Ordered 0 ts
    → AllRead
        (λ row. row.failures ≤ 12)
        (read_bucket (account_key username) (guesses username ts []))
unfolding read_bucket
guesses-le username ts h = guesses-Paced username ts [] 0 h tt
