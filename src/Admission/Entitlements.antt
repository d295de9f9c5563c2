-- ===== src/Admission/Entitlements.antt =====
-- src/lib/entitlements.ts: the limits of a tenant's plan, and the tables that admission reads.
use printer_repo.Prelude.{
  ℕ, ◌+◌, Bool, ◌&&◌, List, [], ◌∷◌, Option, none, some, if◌then◌else◌, any, count, ltb, leb,
}
use printer_repo.Prelude.Text.{Text, text, text_eq}
use printer_repo.Job.Status.{queued, claimed, printing, ◌is◌}
use printer_repo.Job.Row.{Clock, Job, Table}

abbrev pub rate_limit_per_minute : ℕ
rate_limit_per_minute = 60

abbrev pub rate_limit_per_hour : ℕ
rate_limit_per_hour = 1000

pub data AdmissionError : Type 0 where
  invalid_tenant idempotency_conflict duplicate_id duplicate_key : AdmissionError
  entitlement_exceeded : (key : Text) → (limit : ℕ) → AdmissionError
  agent_queued_queue_full agent_queue_full : ℕ → AdmissionError
  print_job_rate_limited : (retry_after_seconds : ℕ) → AdmissionError

-- A value of a plan's entitlements: a safe integer that is not negative, or anything else.
pub data Entitlement : Type 0 where
  number : ℕ → Entitlement
  other : Entitlement

-- A subscription joined with its plan. `is_current` is the test on its status.
pub record Subscription : Type 0 where
  pub tenant_id : Text
  pub is_current : Bool
  pub entitlements : List (Text × Entitlement)

-- A row of `print_job_rate_limits`.
pub record RateRow : Type 0 where
  pub api_key_id : Text
  pub minute_started : ℕ
  pub minute_count : ℕ
  pub hour_started : ℕ
  pub hour_count : ℕ

pub record Store : Type 0 where
  pub jobs : Table
  pub limits : List RateRow
  pub subscriptions : List Subscription

-- The plan of the first current subscription; none has no entitlements.
unfoldable pub plan_of : Text → List Subscription → List (Text × Entitlement)
plan_of tenant_id [] = []
plan_of tenant_id (s ∷ rest) =
    let later = plan_of tenant_id rest in
    if text_eq s.tenant_id tenant_id && s.is_current then s.entitlements else later

abbrev positive : Entitlement → Option ℕ
positive (number n) = if ltb 0 n then some n else none
positive other = none

unfoldable pub entitlement : Text → List (Text × Entitlement) → Option ℕ
entitlement key [] = none
entitlement key ((k, v) ∷ rest) =
    let later = entitlement key rest in if text_eq k key then positive v else later

-- `getTenantEntitlementLimit`
unfoldable pub get_tenant_entitlement_limit : List Subscription → Text → Text → Option ℕ
unfolding plan_of entitlement
get_tenant_entitlement_limit subscriptions tenant_id key =
    entitlement key (plan_of tenant_id subscriptions)

abbrev over_limit : Text → Option ℕ → ℕ → Option AdmissionError
over_limit key none n = none
over_limit key (some limit) n = if leb limit n then some (entitlement_exceeded key limit) else none

abbrev pub first_error : Option AdmissionError → Option AdmissionError → Option AdmissionError
first_error none b = b
first_error (some e) b = some e

abbrev pub is_recent : Text → Clock → Job → Bool
is_recent tenant_id clock j =
    text_eq j.tenant_id tenant_id && leb clock.db_now (j.created_at + 60_000)

abbrev pub is_concurrent : Text → Clock → Job → Bool
is_concurrent tenant_id clock j =
    text_eq j.tenant_id tenant_id
    && any (λ s. j.status is s) (queued ∷ claimed ∷ printing ∷ [])
    && ltb clock.db_now j.expires_at

-- `enforceTenantJobEntitlements`
unfoldable pub enforce_tenant_job_entitlements : Store → Text → Clock → Option AdmissionError
unfolding get_tenant_entitlement_limit
enforce_tenant_job_entitlements store tenant_id clock =
    first_error
      (over_limit (text "max_jobs_per_minute")
        (get_tenant_entitlement_limit store.subscriptions tenant_id (text "max_jobs_per_minute"))
        (count (is_recent tenant_id clock) store.jobs))
      (over_limit (text "max_concurrent_jobs")
        (get_tenant_entitlement_limit store.subscriptions tenant_id (text "max_concurrent_jobs"))
        (count (is_concurrent tenant_id clock) store.jobs))
