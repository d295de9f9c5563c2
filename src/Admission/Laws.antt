-- ===== src/Admission/Laws.antt =====
-- What admitting a job guarantees.
use printer_repo.Prelude.{
  any, ℕ, ◌+◌, ◌*◌, ◌≤◌, ◌<◌, ◌≡◌, refl, sym, ap, ◌⊎◌, inl, inr, true, false, List, [], ◌∷◌, All,
  none, some, count, is_none, suc, subst, ◌∙◌, arith, Bool-cases, if◌then◌else◌, ite,
}
use printer_repo.Prelude.Text.{Text, text_eq, text_eq_refl, not_distinct_iff}
use printer_repo.Job.Row.{Clock, Job, Table}
use printer_repo.Job.Insert.{NewJob, queued_row}
use printer_repo.Admission.{
  Fingerprint, Store, RateRow, created, reused, print_job_rate_limited,
  insert_queued_job_atomically, admit_new, enforce_tenant_job_entitlements, check_agent_load,
  charge, charge_key, next_window, find_by_key, is_agent_queued, is_agent_in_flight, same_request,
  truthy, Fingerprint-discrete, idempotency_fingerprint, is_valid_tenant,
}

-- A request that is rejected, or that repeats an earlier one, changes no table.
pub admission_unchanged :
    (store : Store) (n : NewJob) (clock : Clock)
    → ((insert_queued_job_atomically store n clock).1 ≡ created n.id)
      ⊎ ((insert_queued_job_atomically store n clock).0 ≡ store)
unfolding insert_queued_job_atomically admit_new
admission_unchanged store n clock = ground arith

-- The agent's load on the table before the insert.
load_bounded :
    (n : NewJob) (clock : Clock) (jobs : Table)
    → check_agent_load n clock jobs ≡ none
    → (count (is_agent_queued n clock) jobs < 1000)
      × (count (is_agent_in_flight n clock) jobs < 500)
unfolding check_agent_load
load_bounded n clock jobs h = ground arith

pub admission_created :
    (store : Store) (n : NewJob) (clock : Clock)
    → (insert_queued_job_atomically store n clock).1 ≡ created n.id
    → (is_valid_tenant n.tenant_id ≡ true)
      × (find_by_key n (truthy n.idempotency_key) store.jobs ≡ none)
      × (enforce_tenant_job_entitlements store n.tenant_id clock ≡ none)
      × (count (is_agent_queued n clock) store.jobs < 1000)
      × (count (is_agent_in_flight n clock) store.jobs < 500)
      × ((charge (truthy n.api_key_id) clock.app_now store.limits).1 ≡ none)
      × (any (λ (j : Job). text_eq n.id j.id) store.jobs ≡ false)
      × ((insert_queued_job_atomically store n clock).0.jobs ≡ queued_row n clock ∷ store.jobs)
unfolding insert_queued_job_atomically admit_new
admission_created store n clock h = ground (arith, load_bounded n clock store.jobs)

dite_same : (f : Fingerprint) (d : Dec (f ≡ f)) → ite d true false ≡ true
dite_same f (yes p) = refl
dite_same f (no p) = absurd (p refl)

fingerprint_same :
    (n : NewJob) (clock : Clock) (id : Text)
    → same_request (queued_row n clock) (record n { id = id }) ≡ true
unfolding queued_row
fingerprint_same n clock id =
    let f = idempotency_fingerprint n.printer_id n.document_type n.destination n.payload in
    dite_same f (Fingerprint-discrete f f)

found_again :
    (n : NewJob) (clock : Clock) (id key : Text) (jobs : Table)
    → truthy n.api_key_id ≡ n.api_key_id
    → n.idempotency_key ≡ some key
    → find_by_key (record n { id = id }) (some key) (queued_row n clock ∷ jobs)
      ≡ some (queued_row n clock)
unfolding find_by_key queued_row
found_again n clock id key jobs h k = ground (
  arith,
  text_eq_refl n.tenant_id,
  not_distinct_iff n.api_key_id n.api_key_id,
  not_distinct_iff n.idempotency_key (some key),
)

reuse :
    (store : Store) (n : NewJob) (clock : Clock) (j : Job)
    → is_valid_tenant n.tenant_id ≡ true
    → find_by_key n (truthy n.idempotency_key) store.jobs ≡ some j
    → same_request j n ≡ true
    → insert_queued_job_atomically store n clock ≡ (store, reused j)
unfolding insert_queued_job_atomically
reuse store n clock j valid found same = rw (valid, found, same) refl

-- Repeating a created request under its idempotency key, at any later time and with any new id,
-- gives the first job again and changes nothing.
pub admission_replay :
    (store : Store) (n : NewJob) (clock later : Clock) (id key : Text)
    → truthy n.api_key_id ≡ n.api_key_id
    → n.idempotency_key ≡ some key
    → truthy (some key) ≡ some key
    → (insert_queued_job_atomically store n clock).1 ≡ created n.id
    → let after = (insert_queued_job_atomically store n clock).0 in
      insert_queued_job_atomically after (record n { id = id }) later
      ≡ (after, reused (queued_row n clock))
admission_replay store n clock later id key h k t c =
    let (valid, _, _, _, _, _, _, after) = admission_created store n clock c in
    reuse (insert_queued_job_atomically store n clock).0 (record n { id = id }) later
      (queued_row n clock) valid
      (rw (after, ap truthy k ∙ t) (found_again n clock id key store.jobs h k))
      (fingerprint_same n clock id)

-- The counters of a key's windows stay within the limits.
pub record IsWithin (r : RateRow) : Type 0 where
  pub per_minute : r.minute_count ≤ 60
  pub per_hour : r.hour_count ≤ 1000

next_window-IsWithin : (r : RateRow) (now : ℕ) → IsWithin r → IsWithin (next_window r now).0
unfolding next_window
next_window-IsWithin r now v = ground arith

charge_key-IsWithin :
    (key : Text) (now : ℕ) (limits : List RateRow)
    → All IsWithin limits
    → All IsWithin (charge_key key now limits).0
unfolding charge_key
charge_key-IsWithin key now [] h = (ground arith, tt)
charge_key-IsWithin key now (r ∷ rest) (v, h) = elim (Bool-cases (text_eq r.api_key_id key)) [
  | inl e ↦ rw e (next_window-IsWithin r now v, h)
  | inr e ↦ rw e (v, charge_key-IsWithin key now rest h)
]

-- Within the running minute window a request is counted and admitted, or neither.
window_step :
    (r : RateRow) (t : ℕ)
    → t < r.minute_started + 60_000
    → ((next_window r t).0.minute_started ≡ r.minute_started)
      × (((is_none (next_window r t).1 ≡ true)
            × ((next_window r t).0.minute_count ≡ suc r.minute_count))
          ⊎ ((is_none (next_window r t).1 ≡ false)
              × ((next_window r t).0.minute_count ≡ r.minute_count)))
unfolding next_window
window_step r t h = ground arith

-- How many of the requests at these times one row admits.
pub admitted : RateRow → List ℕ → ℕ
admitted r [] = 0
admitted r (t ∷ ts) =
    let rest = admitted (next_window r t).0 ts in
    if is_none (next_window r t).1 then suc rest else rest

-- Of the requests that fall into one running minute window at most 60 are admitted, those counted in
-- the window before them included.
pub rate_limited_per_window :
    (r : RateRow) (ts : List ℕ)
    → IsWithin r
    → All (λ t. t < r.minute_started + 60_000) ts
    → admitted r ts + r.minute_count ≤ 60
unfolding admitted
rate_limited_per_window r [] v h = ground arith
rate_limited_per_window r (t ∷ ts) v (h, hs) =
    let (started, step) = window_step r t h in
    let rest =
      rate_limited_per_window (next_window r t).0 ts (next_window-IsWithin r t v)
        (subst (λ m. All (λ u. u < m + 60_000) ts) (sym started) hs) in
    elim step [ inl (e, c) ↦ rw e (ground arith) | inr (e, c) ↦ rw e (ground arith) ]

-- A refused request is told to wait between a second and an hour, and that is long enough: at that
-- time the key has room, if no other request is counted in between.
pub retry_enough :
    (r : RateRow) (now s : ℕ)
    → (next_window r now).1 ≡ some (print_job_rate_limited s)
    → r.minute_started ≤ now
    → r.hour_started ≤ now
    → (1 ≤ s) × (s ≤ 3600) × ((next_window r (now + s * 1000)).1 ≡ none)
unfolding next_window
retry_enough r now s e m h = ground arith

-- The wait is taken from both windows, whichever is full: where only the minute's 60 are used up, the
-- key has room a minute later, but is told to wait until the end of its hour.
pub retry_overstates :
    (r : RateRow) (now s : ℕ)
    → (next_window r now).1 ≡ some (print_job_rate_limited s)
    → r.minute_started ≤ now
    → r.hour_started ≤ now
    → r.hour_count < 1000
    → (r.hour_started + 3_600_000 ≤ now + s * 1000) × ((next_window r (now + 60_000)).1 ≡ none)
unfolding next_window
retry_overstates r now s e m h c = ground arith
