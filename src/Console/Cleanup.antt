-- ===== src/Console/Cleanup.antt =====
-- DELETE of src/app/api/jobs/route.ts: a manager removes old finished jobs.
use printer_repo.Prelude.{
  ℕ, Bool, false, not, ◌&&◌, ◌||◌, [], ◌∷◌, Option, none, some, if◌then◌else◌, any, filter, count,
  take, ltb,
}
use printer_repo.Prelude.Text.{Text, text, text_eq}
use printer_repo.Managers.Token.{ManagerClaims}
use printer_repo.Job.Status.{success, failed, expired, ◌is◌}
use printer_repo.Job.Row.{Job, Table}
use printer_repo.Job.Poll.{sort_by_age}
use printer_repo.Console.Roles.{has_manager_permission}

abbrev pub max_cleanup_rows : ℕ
max_cleanup_rows = 5000

-- The parameters of the address.
pub record CleanupQuery : Type 0 where
  pub before : Option Text
  pub limit : Option Text
  pub confirm : Option Text

pub data CleanupReply : Type 0 where
  unauthorized forbidden needs_confirm needs_before : CleanupReply
  invalid_before future_before invalid_limit : CleanupReply
  deleted : ℕ → CleanupReply

-- A finished job of the tenant from before the time.
unfoldable pub is_cleanup_candidate : Text → ℕ → Job → Bool
is_cleanup_candidate tenant_id before j =
    text_eq j.tenant_id tenant_id
    && any (λ s. j.status is s) (success ∷ failed ∷ expired ∷ [])
    && ltb j.created_at before

-- The ids that the query returns, the oldest first.
unfoldable pub cleanup_candidates : Text → ℕ → ℕ → Table → Table
unfolding sort_by_age is_cleanup_candidate
cleanup_candidates tenant_id before limit jobs =
    take limit (sort_by_age (filter (is_cleanup_candidate tenant_id before) jobs))

unfoldable pub is_deleted : Text → Table → Job → Bool
is_deleted tenant_id candidates j =
    text_eq j.tenant_id tenant_id && any (λ (c : Job). text_eq j.id c.id) candidates

-- The transaction: the table after it, and how many rows it deleted.
unfoldable pub delete_old : Text → ℕ → ℕ → Table → Table × ℕ
unfolding cleanup_candidates is_deleted
delete_old tenant_id before limit jobs =
    let gone = is_deleted tenant_id (cleanup_candidates tenant_id before limit jobs) in
    (filter (λ j. not (gone j)) jobs, count gone jobs)

abbrev finish : Table × ℕ → Table × CleanupReply
finish (jobs, n) = (jobs, deleted n)

-- `limitRaw === null ? MAX_CLEANUP_ROWS : Number(limitRaw)`, if that is in range.
abbrev pub cleanup_limit : (whole_number : Text → Option ℕ) → Option Text → Option ℕ
cleanup_limit whole_number none = some max_cleanup_rows
cleanup_limit whole_number (some raw) = in_range (whole_number raw)
  where
    in_range : Option ℕ → Option ℕ
    in_range none = none
    in_range (some n) = if ltb n 1 || ltb max_cleanup_rows n then none else some n

abbrev with_limit : Text → ℕ → Table → Option ℕ → Table × CleanupReply
with_limit tenant_id before jobs none = (jobs, invalid_limit)
with_limit tenant_id before jobs (some limit) = finish (delete_old tenant_id before limit jobs)

abbrev with_before : Text → ℕ → Option ℕ → Option ℕ → Table → Table × CleanupReply
with_before tenant_id now limit none jobs = (jobs, invalid_before)
with_before tenant_id now limit (some before) jobs =
    if ltb now before then (jobs, future_before) else with_limit tenant_id before jobs limit

abbrev is_confirmed : Option Text → Bool
is_confirmed none = false
is_confirmed (some t) = text_eq t (text "1")

abbrev by_before :
    (Text → Option ℕ) → Text → ℕ → Option ℕ → Option Text → Table → Table × CleanupReply
by_before parse_date tenant_id now limit none jobs = (jobs, needs_before)
by_before parse_date tenant_id now limit (some []) jobs = (jobs, needs_before)
by_before parse_date tenant_id now limit (some (c ∷ raw)) jobs =
    with_before tenant_id now limit (parse_date (c ∷ raw)) jobs

-- The handler. `parse_date` is the time of `new Date(text)` in milliseconds, 0 for one before 1970, if it
-- is valid; `whole_number` is `Number(text)`, if that is an integer that is not negative.
unfoldable pub delete_jobs :
    (parse_date whole_number : Text → Option ℕ)
    → Option ManagerClaims
    → (now : ℕ) → CleanupQuery
    → Table
    → Table × CleanupReply
unfolding delete_old has_manager_permission
delete_jobs parse_date whole_number none now query jobs = (jobs, unauthorized)
delete_jobs parse_date whole_number (some claims) now query jobs =
    if not (has_manager_permission claims.role (text "jobs.cancel"))
    then (jobs, forbidden)
    else if not (is_confirmed query.confirm)
    then (jobs, needs_confirm)
    else by_before parse_date claims.tenant_id now (cleanup_limit whole_number query.limit)
        query.before jobs
