-- ===== src/AuthLimit.antt =====
-- src/lib/auth-rate-limit.ts: the limiter on logins and pairing attempts. Its rows are those of the
-- table `auth_rate_limits`; one update is one step, as the row is locked for it.
pub mod Laws
pub mod Answers
mod Tests
use printer_repo.Prelude.{
  ℕ, ◌+◌, ◌-◌, ◌/◌, max, Bool, true, false, not, ◌&&◌, ◌||◌, List, [], ◌∷◌, ◌++◌, Option, none,
  some, map, if◌then◌else◌, filter, ltb, leb, take, ◌==◌,
}
use printer_repo.Prelude.Text.{Text, text, text_eq, trim, to_lower}

abbrev pub auth_rate_window_ms : ℕ
auth_rate_window_ms = 900_000

abbrev pub auth_rate_retention_ms : ℕ
auth_rate_retention_ms = 86_400_000

unfoldable pub lock_duration_ms : ℕ → ℕ
lock_duration_ms failures =
    if ltb failures 5
    then 0
    else if ltb failures 10
    then 30_000
    else if ltb failures 15
    then 300_000
    else if ltb failures 20
    then 900_000
    else 3_600_000

-- `pairingLockDurationMs` has the same steps.
unfoldable pub pairing_lock_duration_ms : ℕ → ℕ
pairing_lock_duration_ms failures =
    if ltb failures 5
    then 0
    else if ltb failures 10
    then 30_000
    else if ltb failures 15
    then 300_000
    else if ltb failures 20
    then 900_000
    else 3_600_000

-- The text up to the next comma, and what is left after it.
unfoldable pub split_comma : Text → List Text
split_comma [] = [] ∷ []
split_comma (c ∷ s) = let rest = split_comma s in if c == b',' then [] ∷ rest else push c rest
  where
    push : ℕ → List Text → List Text
    push c [] = (c ∷ []) ∷ []
    push c (t ∷ ts) = (c ∷ t) ∷ ts

abbrev pub candidates : Option Text → List Text
candidates none = []
candidates (some header) = split_comma header

abbrev pub text_or_empty : Option Text → Text
text_or_empty none = []
text_or_empty (some t) = t

abbrev pub is_empty : Text → Bool
is_empty [] = true
is_empty (c ∷ t) = false

-- The first candidate that is an address.
unfoldable pub first_address : (Text → Bool) → List Text → Text
first_address is_ip [] = text "unknown"
first_address is_ip (t ∷ ts) =
    let later = first_address is_ip ts in
    if not (is_empty (trim t)) && is_ip (trim t) then take 128 (trim t) else later

-- `clientIpFrom`. `is_ip` is the test `isIP(…) !== 0` of node:net.
unfoldable pub client_ip_from :
    (is_ip : Text → Bool) → (trust_proxy : Bool) → (forwarded_for real_ip : Option Text) → Text
unfolding first_address
client_ip_from is_ip trust_proxy forwarded_for real_ip =
    if not trust_proxy
    then text "unknown"
    else first_address is_ip (candidates forwarded_for ++ (text_or_empty real_ip ∷ []))

unfoldable pub account_key : Text → Text
account_key username = text "acct:" ++ take 128 (to_lower (trim username))

unfoldable pub ip_key : Text → Text
ip_key ip = text "ip:" ++ take 128 ip

unfoldable pub pairing_ip_key : Text → Text
pairing_ip_key ip = text "pairing-ip:" ++ take 128 ip

pub record BucketRow : Type 0 where
  pub key : Text
  pub failures : ℕ
  pub window_started_at : ℕ
  pub locked_until : Option ℕ
  pub updated_at : ℕ

abbrev pub Buckets : Type 0
Buckets = List BucketRow

unfoldable pub read_bucket : Text → Buckets → Option BucketRow
read_bucket key [] = none
read_bucket key (row ∷ rows) =
    let later = read_bucket key rows in if text_eq row.key key then some row else later

abbrev pub time_left : Option ℕ → ℕ → ℕ
time_left none now = 0
time_left (some until) now = if leb until now then 0 else until - now

unfoldable pub locked_for : Option BucketRow → ℕ → ℕ
locked_for none now = 0
locked_for (some row) now = time_left row.locked_until now

pub data RateLimitDecision : Type 0 where
  allowed : RateLimitDecision
  refused : (retry_after_sec : ℕ) → RateLimitDecision

abbrev pub decide : ℕ → RateLimitDecision
decide remaining = if ltb 0 remaining then refused (max 1 ((remaining + 999) / 1000)) else allowed

-- The address takes part only behind a trusted proxy and when it is known.
abbrev pub account_only : Bool → Text → Bool
account_only trust_proxy ip = not trust_proxy || text_eq ip (text "unknown")

unfoldable pub inspect_auth_rate_limit :
    (trust_proxy : Bool) → (ip username : Text) → (now : ℕ) → Buckets → RateLimitDecision
unfolding read_bucket locked_for
inspect_auth_rate_limit trust_proxy ip username now rows =
    let account = locked_for (read_bucket (account_key username) rows) now in
    if account_only trust_proxy ip
    then decide account
    else decide (max (locked_for (read_bucket (ip_key ip) rows) now) account)

unfoldable pub inspect_pairing_rate_limit : (ip : Text) → (now : ℕ) → Buckets → RateLimitDecision
unfolding read_bucket locked_for
inspect_pairing_rate_limit ip now rows =
    decide (locked_for (read_bucket (pairing_ip_key ip) rows) now)

abbrev pub lock_at : ℕ → ℕ → Option ℕ
lock_at now lock_ms = if ltb 0 lock_ms then some (now + lock_ms) else none

-- The update of a locked row.
unfoldable pub bump_row : (window_ms : ℕ) → (lock : ℕ → ℕ) → (now : ℕ) → BucketRow → BucketRow
bump_row window_ms lock now row =
    let is_expired = ltb (row.window_started_at + window_ms) now in
    let new_failures = if is_expired then 1 else row.failures + 1 in
    record row {
      failures = new_failures;
      window_started_at = if is_expired then now else row.window_started_at;
      locked_until = lock_at now (lock new_failures);
      updated_at = now;
    }

abbrev pub new_row : Text → ℕ → BucketRow
new_row key now = record {
  key = key;
  failures = 0;
  window_started_at = now;
  locked_until = none;
  updated_at = now;
}

-- `bumpWith`: the rows, and the key's row after the update.
unfoldable pub bump_with :
    Text → (window_ms : ℕ) → (lock : ℕ → ℕ) → (now : ℕ) → Buckets → Buckets × BucketRow
unfolding bump_row
bump_with key window_ms lock now [] =
    let row = bump_row window_ms lock now (new_row key now) in (row ∷ [], row)
bump_with key window_ms lock now (row ∷ rows) =
    let later = bump_with key window_ms lock now rows in
    let bumped = bump_row window_ms lock now row in
    if text_eq row.key key then (bumped ∷ rows, bumped) else (row ∷ later.0, later.1)

unfoldable pub bump : Text → (now : ℕ) → Buckets → Buckets × BucketRow
unfolding bump_with
bump key now rows = bump_with key auth_rate_window_ms lock_duration_ms now rows

abbrev pub decide_until : Option ℕ → ℕ → RateLimitDecision
decide_until none later = allowed
decide_until (some until) later = decide (until - later)

-- `recordPairingFailure`, with the time of the update and the time of the answer.
unfoldable pub record_pairing_failure :
    (ip : Text) → (now later : ℕ) → Buckets → Buckets × RateLimitDecision
unfolding bump_with
record_pairing_failure ip now later rows =
    let bumped =
      bump_with (pairing_ip_key ip) auth_rate_window_ms pairing_lock_duration_ms now rows in
    (bumped.0, decide_until bumped.1.locked_until later)

abbrev pub latest : Option ℕ → Option ℕ → Option ℕ
latest none b = b
latest (some a) none = some a
latest (some a) (some b) = some (max a b)

-- `recordAuthFailure`, with the times of the two updates and of the answer.
unfoldable pub record_auth_failure :
    (trust_proxy : Bool)
    → (ip username : Text) → (account_now ip_now later : ℕ) → Buckets
    → Buckets × RateLimitDecision
unfolding bump
record_auth_failure trust_proxy ip username account_now ip_now later rows =
    let account = bump (account_key username) account_now rows in
    let address = bump (ip_key ip) ip_now account.0 in
    if account_only trust_proxy ip
    then (account.0, decide_until account.1.locked_until later)
    else (address.0, decide_until (latest address.1.locked_until account.1.locked_until) later)

abbrev delete_key : Text → Buckets → Buckets
delete_key key rows = filter (λ row. not (text_eq row.key key)) rows

unfoldable pub record_auth_success : (username : Text) → Buckets → Buckets
record_auth_success username rows = delete_key (account_key username) rows

unfoldable pub record_pairing_success : (ip : Text) → Buckets → Buckets
record_pairing_success ip rows = delete_key (pairing_ip_key ip) rows

unfoldable pub cleanup_auth_rate_limits : (now : ℕ) → Buckets → Buckets
cleanup_auth_rate_limits now rows =
    filter (λ row. not (ltb (row.updated_at + auth_rate_retention_ms) now)) rows
