-- ===== src/UpgradeLimit.antt =====
-- src/lib/ws-rate-limit.ts: the limiter on failed WebSocket upgrades. Its rows stand in the table
-- `auth_rate_limits` as well; `local` is the map `localLockedUntil` of the process.
pub mod Laws
mod Tests
use printer_repo.Prelude.{
  ℕ, ◌+◌, ◌-◌, ◌/◌, max, Bool, true, false, not, List, [], ◌∷◌, ◌++◌, Option, none, some,
  if◌then◌else◌, filter, ltb, leb, or_else,
}
use printer_repo.Prelude.Text.{Text, text, text_eq}
use printer_repo.AuthLimit.{BucketRow, Buckets, RateLimitDecision, allowed, refused, read_bucket}

abbrev pub window_ms : ℕ
window_ms = 60_000

abbrev pub max_failures : ℕ
max_failures = 20

abbrev pub lock_ms : ℕ
lock_ms = 60_000

abbrev pub LocalLocks : Type 0
LocalLocks = List (Text × ℕ)

unfoldable pub get_lock : Text → LocalLocks → Option ℕ
get_lock key [] = none
get_lock key ((k, until) ∷ rest) =
    let later = get_lock key rest in if text_eq k key then some until else later

unfoldable pub delete_lock : Text → LocalLocks → LocalLocks
delete_lock key locks = filter (λ (entry : Text × ℕ). not (text_eq entry.0 key)) locks

unfoldable pub set_lock : Text → ℕ → LocalLocks → LocalLocks
unfolding delete_lock
set_lock key until locks = (key, until) ∷ delete_lock key locks

-- `isWsUpgradeLocallyLocked`, which forgets a lock that is over.
unfoldable pub is_ws_upgrade_locally_locked : Text → ℕ → LocalLocks → LocalLocks × Bool
unfolding get_lock delete_lock
is_ws_upgrade_locally_locked key now locks =
    if leb (or_else (get_lock key locks) 0) now
    then (delete_lock key locks, false)
    else (locks, true)

unfoldable pub upgrade_key : Text → Text
upgrade_key key = text "ws-upgrade:" ++ key

abbrev wait : ℕ → ℕ → RateLimitDecision
wait until now = refused (max 1 ((until - now + 999) / 1000))

abbrev pub by_row : Text → ℕ → LocalLocks → Option BucketRow → LocalLocks × RateLimitDecision
by_row key now locks none = (locks, allowed)
by_row key now locks (some row) =
    if ltb now (or_else row.locked_until 0)
    then (set_lock key (or_else row.locked_until 0) locks, wait (or_else row.locked_until 0) now)
    else if leb (row.window_started_at + window_ms) now
    then (locks, allowed)
    else if leb max_failures row.failures
    then (set_lock key (now + lock_ms) locks, refused 60)
    else (locks, allowed)

abbrev pub by_local : Text → ℕ → Buckets → LocalLocks × Bool → LocalLocks × RateLimitDecision
by_local key now rows (locks, true) =
    (locks, wait (or_else (get_lock key locks) (now + lock_ms)) now)
by_local key now rows (locks, false) = by_row key now locks (read_bucket (upgrade_key key) rows)

unfoldable pub inspect_ws_upgrade_rate_limit :
    Text → ℕ → LocalLocks → Buckets → LocalLocks × RateLimitDecision
unfolding is_ws_upgrade_locally_locked upgrade_key set_lock
inspect_ws_upgrade_rate_limit key now locks rows =
    by_local key now rows (is_ws_upgrade_locally_locked key now locks)

abbrev pub first_failure : Text → ℕ → BucketRow
first_failure key now = record {
  key = key;
  failures = 1;
  window_started_at = now;
  locked_until = none;
  updated_at = now;
}

-- `ON CONFLICT (key) DO UPDATE`
unfoldable pub next_failure : ℕ → BucketRow → BucketRow
next_failure now row =
    let is_over = ltb (row.window_started_at + window_ms) now in
    record row {
      failures = if is_over then 1 else row.failures + 1;
      window_started_at = if is_over then now else row.window_started_at;
      locked_until =
          if is_over
          then none
          else if leb max_failures (row.failures + 1)
          then some (now + lock_ms)
          else none;
      updated_at = now;
    }

-- `INSERT INTO auth_rate_limits …`
unfoldable pub upsert_failure : Text → ℕ → Buckets → Buckets
unfolding next_failure
upsert_failure key now [] = first_failure key now ∷ []
upsert_failure key now (row ∷ rows) =
    let later = row ∷ upsert_failure key now rows in
    if text_eq row.key key then next_failure now row ∷ rows else later

abbrev lock_of : Option BucketRow → ℕ
lock_of none = 0
lock_of (some row) = or_else row.locked_until 0

-- `recordWsUpgradeFailure`, with the time of the update and that of the check after it.
unfoldable pub record_ws_upgrade_failure :
    Text → (now later : ℕ) → LocalLocks → Buckets → LocalLocks × Buckets
unfolding upsert_failure upgrade_key set_lock
record_ws_upgrade_failure key now later locks rows =
    let rows' = upsert_failure (upgrade_key key) now rows in
    let until = lock_of (read_bucket (upgrade_key key) rows') in
    (if ltb later until then set_lock key until locks else locks, rows')
