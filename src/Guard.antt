-- ===== src/Guard.antt =====
-- src/server/request-guard.ts: admission of API requests by their declared length, and the budget of
-- bytes that the requests under way may hold.
pub mod Laws
mod Tests
use printer_repo.Prelude.{
  ℕ, ◌+◌, ◌-◌, Bool, true, false, not, ◌&&◌, ◌||◌, List, [], ◌∷◌, ◌++◌, Option, none, some,
  if◌then◌else◌, any, ltb, leb, ◌==◌,
}
use printer_repo.Prelude.Text.{Text, text, text_eq, starts_with, trim}

abbrev pub max_api_body_bytes : ℕ
max_api_body_bytes = 8_388_608

abbrev pub max_concurrent_chunked_bytes : ℕ
max_concurrent_chunked_bytes = 33_554_432

abbrev pub mutating_methods : List Text
mutating_methods = text "POST" ∷ text "PUT" ∷ text "PATCH" ∷ text "DELETE" ∷ []

-- `Number(content-length)`: an integer that is not negative, or anything else.
pub data DeclaredLength : Type 0 where
  whole : ℕ → DeclaredLength
  not_whole : DeclaredLength

-- A header is missing, one text, or several.
pub data Header : Type 0 where
  missing : Header
  single : Text → Header
  several : List Text → Header

pub record IncomingMessage : Type 0 where
  pub method : Option Text
  pub url : Option Text
  pub content_length : Option DeclaredLength
  pub authorization : Header
  pub api_key : Header
  pub cookie : Header

abbrev is_blank : Text → Bool
is_blank t = text_eq (trim t) []

abbrev is_filled : Header → Bool
is_filled missing = false
is_filled (single t) = not (is_blank t)
is_filled (several ts) = any (λ t. not (is_blank t)) ts

unfoldable pub has_auth_headers : IncomingMessage → Bool
has_auth_headers req = is_filled req.authorization || is_filled req.api_key || is_filled req.cookie

abbrev url_starts_with : Option Text → Text → Bool
url_starts_with none p = false
url_starts_with (some url) p = starts_with url p

unfoldable pub is_payload_bearing_endpoint : Option Text → Bool
is_payload_bearing_endpoint url =
    url_starts_with url (text "/api/agent/") || url_starts_with url (text "/api/print/")

abbrev is_mutating : Option Text → Bool
is_mutating none = false
is_mutating (some method) = any (λ m. text_eq m method) mutating_methods

pub data Rejection : Type 0 where
  unauthorized content_length_required request_body_too_large : Rejection
  request_body_capacity_exceeded : Rejection

-- The request goes on, with the bytes reserved for it, or it is rejected.
pub data Guarded : Type 0 where
  passes : Guarded
  reserves : ℕ → Guarded
  rejects : Rejection → Guarded

-- `reserve`: the new total of reserved bytes.
unfoldable pub reserve : (bytes reserved : ℕ) → Option ℕ
reserve bytes reserved =
    if ltb max_concurrent_chunked_bytes (reserved + bytes) then none else some (reserved + bytes)

-- `release`: `Math.max(0, reserved - bytes)`.
unfoldable pub release : (bytes reserved : ℕ) → ℕ
release bytes reserved = reserved - bytes

abbrev pub reserving : ℕ → ℕ → Option ℕ → ℕ × Guarded
reserving bytes reserved none = (reserved, rejects request_body_capacity_exceeded)
reserving bytes reserved (some total) = (total, reserves bytes)

abbrev pub by_length :
    IncomingMessage → (max_bytes reserved : ℕ) → Option DeclaredLength → ℕ × Guarded
by_length req max_bytes reserved none =
    if is_payload_bearing_endpoint req.url && not (has_auth_headers req)
    then (reserved, rejects unauthorized)
    else (reserved, rejects content_length_required)
by_length req max_bytes reserved (some not_whole) = (reserved, rejects request_body_too_large)
by_length req max_bytes reserved (some (whole n)) =
    if ltb max_bytes n
    then (reserved, rejects request_body_too_large)
    else if not (is_payload_bearing_endpoint req.url)
    then (reserved, passes)
    else if not (has_auth_headers req)
    then (reserved, passes)
    else reserving n reserved (reserve n reserved)

-- `guardApiRequest`, with the total of reserved bytes before and after.
unfoldable pub guard_api_request : IncomingMessage → (max_bytes reserved : ℕ) → ℕ × Guarded
unfolding has_auth_headers is_payload_bearing_endpoint reserve
guard_api_request req max_bytes reserved =
    if not (url_starts_with req.url (text "/api/"))
    then (reserved, passes)
    else if not (is_mutating req.method)
    then (reserved, passes)
    else by_length req max_bytes reserved req.content_length

-- A reservation and its `released` flag.
pub record Reservation : Type 0 where
  pub bytes : ℕ
  pub released : Bool

-- The guard's process: the total, and the reservations made so far, the newest first.
pub record GuardState : Type 0 where
  pub reserved : ℕ
  pub reservations : List Reservation

-- A request comes in, or one of the events `finish`, `close` and `error` ends the request whose
-- reservation has this place.
pub data GuardEvent : Type 0 where
  arrives : IncomingMessage → (max_bytes : ℕ) → GuardEvent
  ends : ℕ → GuardEvent

abbrev pub arrived : GuardState → ℕ × Guarded → GuardState
arrived s (total, reserves n) = record {
  reserved = total;
  reservations = record { bytes = n; released = false } ∷ s.reservations;
}
arrived s (total, passes) = record s { reserved = total }
arrived s (total, rejects r) = record s { reserved = total }

-- `releaseOnce`
unfoldable pub release_once : ℕ → (place : ℕ) → List Reservation → ℕ × List Reservation
unfolding release
release_once reserved place [] = (reserved, [])
release_once reserved place (r ∷ rs) =
    let later = release_once reserved (place - 1) rs in
    if place == 0
    then (if r.released
        then (reserved, r ∷ rs)
        else (release r.bytes reserved, record r { released = true } ∷ rs))
    else (later.0, r ∷ later.1)

unfoldable pub guard_step : GuardEvent → GuardState → GuardState
unfolding guard_api_request release_once
guard_step (arrives req max_bytes) s = arrived s (guard_api_request req max_bytes s.reserved)
guard_step (ends place) s =
    let ended = release_once s.reserved place s.reservations in
    record { reserved = ended.0; reservations = ended.1 }

unfoldable pub guard_run : List GuardEvent → GuardState → GuardState
unfolding guard_step
guard_run [] s = s
guard_run (e ∷ es) s = guard_run es (guard_step e s)
