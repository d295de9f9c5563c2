-- ===== src/Guard/Laws.antt =====
-- The budget of the request guard.
use printer_repo.Prelude.{
  ℕ, ◌∙◌, ◌+◌, ◌-◌, ◌≤◌, ◌≡◌, refl, inl, inr, Bool, true, false, not, List, [], ◌∷◌, Option, none,
  some, arith, if◌then◌else◌, ltb, Bool-cases,
}
use printer_repo.Guard.{
  reserving, is_payload_bearing_endpoint, has_auth_headers, Rejection, IncomingMessage,
  DeclaredLength, whole, not_whole, Guarded, passes, reserves, rejects, guard_api_request,
  Reservation, GuardState, GuardEvent, arrives, ends, release, release_once, guard_step, guard_run,
  reserve, by_length, arrived,
}

-- The bytes of the reservations that are not released.
unfoldable pub held : List Reservation → ℕ
held [] = 0
held (r ∷ rs) = if r.released then held rs else r.bytes + held rs

-- The total is the sum of what is held, within the budget of 32 MiB.
pub record IsBalanced (s : GuardState) : Type 0 where
  pub balanced : s.reserved ≡ held s.reservations
  pub bounded : s.reserved ≤ 33_554_432

-- A request reserves the bytes that it declares, within the budget, or the total stays.
abbrev FitsAt : ℕ → ℕ × Guarded → Type 0
FitsAt reserved (total, passes) = total ≡ reserved
FitsAt reserved (total, reserves n) = (total ≡ n + reserved) × (total ≤ 33_554_432)
FitsAt reserved (total, rejects r) = total ≡ reserved

record Fits (reserved : ℕ) (guarded : ℕ × Guarded) : Type 0 where
  fits : FitsAt reserved guarded

passes-Fits : (reserved : ℕ) → Fits reserved (reserved, passes)
passes-Fits reserved = record { fits = refl }

rejects-Fits : (reserved : ℕ) (r : Rejection) → Fits reserved (reserved, rejects r)
rejects-Fits reserved r = record { fits = refl }

Fits-if :
    (reserved : ℕ) (b : Bool) (x y : ℕ × Guarded)
    → Fits reserved x
    → Fits reserved y
    → Fits reserved (if b then x else y)
Fits-if reserved true x y h k = h
Fits-if reserved false x y h k = k

reserving-Fits : (n reserved : ℕ) → Fits reserved (reserving n reserved (reserve n reserved))
unfolding reserve
reserving-Fits n reserved = elim (Bool-cases (ltb 33_554_432 (reserved + n))) [
  | inl e ↦ rw e (rejects-Fits reserved _)
  | inr e ↦ rw e (record { fits = (ground arith, ground arith) })
]

by_length-Fits :
    (req : IncomingMessage) (max_bytes reserved : ℕ) (length : Option DeclaredLength)
    → Fits reserved (by_length req max_bytes reserved length)
by_length-Fits req max_bytes reserved none =
    Fits-if reserved _ _ _ (rejects-Fits reserved _) (rejects-Fits reserved _)
by_length-Fits req max_bytes reserved (some not_whole) = rejects-Fits reserved _
by_length-Fits req max_bytes reserved (some (whole n)) =
    Fits-if reserved (ltb max_bytes n) _ _ (rejects-Fits reserved _) (
      Fits-if reserved (not (is_payload_bearing_endpoint req.url)) _ _ (passes-Fits reserved) (
        Fits-if reserved (not (has_auth_headers req)) _ _ (passes-Fits reserved)
          (reserving-Fits n reserved)))

guard-Fits :
    (req : IncomingMessage) (max_bytes reserved : ℕ)
    → Fits reserved (guard_api_request req max_bytes reserved)
unfolding guard_api_request
guard-Fits req max_bytes reserved = Fits-if reserved _ _ _ (passes-Fits reserved) (
    Fits-if reserved _ _ _ (passes-Fits reserved)
      (by_length-Fits req max_bytes reserved req.content_length))

arrived-IsBalanced :
    (s : GuardState) (guarded : ℕ × Guarded)
    → Fits s.reserved guarded
    → IsBalanced s
    → IsBalanced (arrived s guarded)
unfolding held
arrived-IsBalanced s (total, passes) f v = record {
  balanced = f.fits ∙ v.balanced;
  bounded = ground (arith, v.bounded, f.fits);
}
arrived-IsBalanced s (total, reserves n) f v = record {
  balanced = ground (arith, v.balanced, f.fits);
  bounded = f.fits.1;
}
arrived-IsBalanced s (total, rejects r) f v = record {
  balanced = f.fits ∙ v.balanced;
  bounded = ground (arith, v.bounded, f.fits);
}

release_once-held :
    (reserved place : ℕ) (rs : List Reservation) (others : ℕ)
    → reserved ≡ others + held rs
    → (release_once reserved place rs).0 ≡ others + held (release_once reserved place rs).1
unfolding release_once release held
release_once-held reserved place [] others h = ground arith
release_once-held reserved place (r ∷ rs) others h = elim (Bool-cases r.released) [
  | inl e ↦ ground (arith, release_once-held reserved (place - 1) rs others)
  | inr e ↦ ground (arith, release_once-held reserved (place - 1) rs (others + r.bytes))
]

release_once-le :
    (reserved place : ℕ) (rs : List Reservation) → (release_once reserved place rs).0 ≤ reserved
unfolding release_once release
release_once-le reserved place [] = ground arith
release_once-le reserved place (r ∷ rs) = ground (arith, release_once-le reserved (place - 1) rs)

step-IsBalanced : (e : GuardEvent) (s : GuardState) → IsBalanced s → IsBalanced (guard_step e s)
unfolding guard_step
step-IsBalanced (arrives req max_bytes) s v =
    arrived-IsBalanced s _ (guard-Fits req max_bytes s.reserved) v
step-IsBalanced (ends place) s v = record {
  balanced =
      omega
        (arith, release_once-held s.reserved place s.reservations 0 (omega (arith, v.balanced)));
  bounded = ground (arith, v.bounded, release_once-le s.reserved place s.reservations);
}

-- After any sequence of requests and of events that end them, in any order and however often they
-- are fired, the reserved total is the sum of the reservations that were not released yet, and at
-- most 32 MiB. So `release` never has to stop at 0, and no byte of the budget is lost for good.
pub run-IsBalanced :
    (es : List GuardEvent) (s : GuardState) → IsBalanced s → IsBalanced (guard_run es s)
unfolding guard_run
run-IsBalanced [] s v = v
run-IsBalanced (e ∷ es) s v = run-IsBalanced es (guard_step e s) (step-IsBalanced e s v)
