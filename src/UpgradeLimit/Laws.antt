-- ===== src/UpgradeLimit/Laws.antt =====
-- What the limiter on upgrades guarantees.
use printer_repo.Prelude.{
  ℕ, ◌+◌, ◌≤◌, ◌≡◌, refl, sym, subst, Bool, true, false, List, [], ◌∷◌, Option, none, some, or_else,
  arith,
}
use printer_repo.Prelude.Text.{Text, text_eq_refl}
use printer_repo.AuthLimit.{BucketRow, Buckets, RateLimitDecision, allowed, refused, read_bucket}
use printer_repo.AuthLimit.Laws.{AllRead}
use printer_repo.UpgradeLimit.{
  LocalLocks, is_ws_upgrade_locally_locked, upgrade_key, by_row, by_local,
  inspect_ws_upgrade_rate_limit, first_failure, next_failure, upsert_failure,
  record_ws_upgrade_failure,
}

abbrev by_decision : Text → ℕ → Buckets → LocalLocks × RateLimitDecision → LocalLocks × Buckets
by_decision key now rows (locks, allowed) = record_ws_upgrade_failure key now now locks rows
by_decision key now rows (locks, refused s) = (locks, rows)

-- One upgrade without valid credentials: it is refused, or its failure is recorded at the same moment.
unfoldable pub attempt : Text → ℕ → LocalLocks × Buckets → LocalLocks × Buckets
attempt key now (locks, rows) =
    by_decision key now rows (inspect_ws_upgrade_rate_limit key now locks rows)

unfoldable pub attempts : Text → List ℕ → LocalLocks × Buckets → LocalLocks × Buckets
attempts key [] state = state
attempts key (t ∷ ts) state = attempts key ts (attempt key t state)

-- From the 20th failure on the row is locked for a minute from its last update.
record IsPaced (row : BucketRow) : Type 0 where
  started : row.window_started_at ≤ row.updated_at
  counted : row.failures ≤ 21
  locked : 20 ≤ row.failures → row.locked_until ≡ some (row.updated_at + 60_000)
  last : 21 ≤ row.failures → row.window_started_at + 60_000 ≤ row.updated_at

abbrev Paced : ℕ → Option BucketRow → Type 0
Paced now none = Unit
Paced now (some row) = IsPaced row × (row.updated_at ≤ now)

-- The attempt is not locked out by its row.
abbrev IsFree : ℕ → Option BucketRow → Type 0
IsFree now none = Unit
IsFree now (some row) = or_else row.locked_until 0 ≤ now

next_failure-IsPaced :
    (now : ℕ) (row : BucketRow)
    → IsPaced row
    → row.updated_at ≤ now
    → or_else row.locked_until 0 ≤ now
    → IsPaced (next_failure now row)
unfolding next_failure
next_failure-IsPaced now row v h free = ground (arith, v.started, v.counted, v.locked, v.last)

-- The row of a key after a failure.
abbrev next_row : Text → ℕ → Option BucketRow → BucketRow
next_row key now none = first_failure key now
next_row key now (some row) = next_failure now row

read-upsert :
    (key : Text) (now : ℕ) (rows : Buckets)
    → read_bucket key (upsert_failure key now rows) ≡ some (next_row key now (read_bucket key rows))
unfolding read_bucket upsert_failure next_failure
read-upsert key now [] = ground (arith, text_eq_refl key)
read-upsert key now (r ∷ rows) = ground (arith, read-upsert key now rows)

by_row-IsFree :
    (key : Text) (now : ℕ) (locks : LocalLocks) (o : Option BucketRow)
    → (by_row key now locks o).1 ≡ allowed
    → IsFree now o
by_row-IsFree key now locks none e = tt
by_row-IsFree key now locks (some row) e = ground arith

by_local-IsFree :
    (key : Text) (now : ℕ) (rows : Buckets) (checked : LocalLocks × Bool)
    → (by_local key now rows checked).1 ≡ allowed
    → IsFree now (read_bucket (upgrade_key key) rows)
by_local-IsFree key now rows (locks, true) e = absurd (ground arith)
by_local-IsFree key now rows (locks, false) e = by_row-IsFree key now locks _ e

next_row-Paced :
    (key : Text) (start now : ℕ) (o : Option BucketRow)
    → start ≤ now
    → Paced start o
    → IsFree now o
    → Paced now (some (next_row key now o))
unfolding next_failure
next_row-Paced key start now none h p free = (ground arith, omega arith)
next_row-Paced key start now (some row) h (v, u) free =
    (next_failure-IsPaced now row v (omega (arith, h, u)) free, omega arith)

Paced-later : (start now : ℕ) (o : Option BucketRow) → start ≤ now → Paced start o → Paced now o
Paced-later start now none h p = tt
Paced-later start now (some row) h (v, u) = (v, omega (arith, h, u))

-- The times of the attempts are in order.
abbrev pub Ordered : ℕ → List ℕ → Type 0
Ordered start [] = Unit
Ordered start (t ∷ ts) = (start ≤ t) × Ordered t ts

module _ (key : Text) where
  row_of : Buckets → Option BucketRow
  row_of rows = read_bucket (upgrade_key key) rows

  decided-Paced :
      (start now : ℕ) (rows : Buckets) (inspected : LocalLocks × RateLimitDecision)
      → start ≤ now
      → Paced start (row_of rows)
      → (inspected.1 ≡ allowed → IsFree now (row_of rows))
      → Paced now (row_of (by_decision key now rows inspected).1)
  unfolding row_of record_ws_upgrade_failure
  decided-Paced start now rows (locks, allowed) h p free =
      subst (Paced now) (sym (read-upsert (upgrade_key key) now rows))
        (next_row-Paced (upgrade_key key) start now (row_of rows) h p (free refl))
  decided-Paced start now rows (locks, refused s) h p free = Paced-later start now (row_of rows) h p

  attempts-Paced :
      (ts : List ℕ) (state : LocalLocks × Buckets) (start : ℕ)
      → Ordered start ts
      → Paced start (row_of state.1)
      → AllRead (λ row. row.failures ≤ 21) (row_of (attempts key ts state).1)
  unfolding attempts attempt inspect_ws_upgrade_rate_limit row_of
  attempts-Paced [] state start h p = read_le (row_of state.1) p
    where
      read_le : (o : Option BucketRow) → Paced start o → AllRead (λ row. row.failures ≤ 21) o
      read_le none p = tt
      read_le (some row) (v, u) = v.counted
  attempts-Paced (t ∷ ts) (locks, rows) start (h, hs) p =
      attempts-Paced ts (attempt key t (locks, rows)) t hs (
        decided-Paced start t rows (inspect_ws_upgrade_rate_limit key t locks rows) h p
          (by_local-IsFree key t rows (is_ws_upgrade_locally_locked key t locks)))

-- However many upgrades without credentials come one after the other from one client, whatever the
-- process remembers of earlier locks, the row of the client never counts more than 21 failures: the
-- 20th locks it for as long as its window lasts, and only a failure at the very end of both is still
-- counted in the window.
pub attempts-le :
    (key : Text) (ts : List ℕ) (locks : LocalLocks)
    → Ordered 0 ts
    → AllRead
        (λ row. row.failures ≤ 21)
        (read_bucket (upgrade_key key) (attempts key ts (locks, [])).1)
unfolding read_bucket row_of
attempts-le key ts locks h = attempts-Paced key ts (locks, []) 0 h tt
