-- ===== src/Console/Listing.antt =====
-- GET of src/app/api/jobs/route.ts and getDashboardJobs of src/app/actions.ts: the list of jobs that a
-- manager sees. SQL's null counts as false in a condition; rows of equal age come in table order.
use printer_repo.Prelude.{
  ℕ, zero, suc, ◌+◌, ◌*◌, ◌-◌, Bool, true, false, not, ◌&&◌, ◌||◌, List, [], ◌∷◌, ◌++◌, Option,
  none, some, if◌then◌else◌, map, any, filter, take, leb, or_else, min, max,
}
use printer_repo.Prelude.Text.{Text, text, text_eq, trim, to_lower}
use printer_repo.Printer.Routing.{contains}
use printer_repo.Managers.Token.{ManagerClaims}
use printer_repo.Job.Status.{
  Status, queued, claimed, printing, failed, success, ◌is◌, status_text, PhysicalOutcome,
  physical_outcome_unknown_markers, derive_physical_outcome,
}
use printer_repo.Job.Row.{Job, AgentRow, PrinterRow, Fleet, Table, is_active}
use printer_repo.Console.Roles.{has_manager_permission}
use printer_repo.Console.Like.{like}

-- `JOB_FILTER_STATUSES`
abbrev pub job_filter_statuses : List Text
job_filter_statuses =
    text "all"
    ∷ text "active"
    ∷ text "in_flight"
    ∷ text "queued"
    ∷ text "claimed"
    ∷ text "printing"
    ∷ text "success"
    ∷ text "printed"
    ∷ text "failed"
    ∷ text "expired"
    ∷ text "unknown"
    ∷ text "attention"
    ∷ text "unassigned"
    ∷ []

unfoldable pub is_job_filter_status : Text → Bool
is_job_filter_status value = contains job_filter_statuses (to_lower value)

abbrev pub like_column : Option Text → Text → Bool
like_column none pattern = false
like_column (some t) pattern = like pattern t

-- `marker + "%"`
abbrev pub marker_pattern : Text → Text
marker_pattern marker = marker ++ (b'%' ∷ [])

-- Some marker is like the error.
unfoldable pub is_marked : Option Text → Bool
unfolding like
is_marked error =
    any (λ marker. like_column error (marker_pattern marker)) physical_outcome_unknown_markers

-- No marker is like `COALESCE(error, '')`.
unfoldable pub is_unmarked : Option Text → Bool
unfolding like
is_unmarked error = not (
    any (λ marker. like (marker_pattern marker) (or_else error []))
      physical_outcome_unknown_markers)

abbrev active_ids : Fleet → Text → Bool
active_ids fleet id =
    any (λ (p : PrinterRow). text_eq p.id id && is_active p.lifecycle) fleet.printers

abbrev active_agents : Fleet → Text → Bool
active_agents fleet id =
    any (λ (a : AgentRow). text_eq a.id id && is_active a.lifecycle) fleet.agents

abbrev column_is : Option Text → Text → Bool
column_is none t = false
column_is (some s) t = text_eq s t

unfoldable pub is_unassigned : Fleet → Job → Bool
is_unassigned fleet j =
    column_is j.destination (text "unassigned")
    || text_eq j.printer_id (text "unassigned")
    || not (active_ids fleet j.printer_id)
    || not (active_agents fleet j.agent_id)

-- The condition that the status filter adds.
unfoldable pub status_condition : Fleet → Text → Job → Bool
unfolding status_text is_marked is_unmarked is_unassigned
status_condition fleet wanted j =
    if contains (text "active" ∷ text "in_flight" ∷ []) wanted
    then any (λ s. j.status is s) (queued ∷ claimed ∷ printing ∷ [])
    else if contains (text "queued" ∷ text "claimed" ∷ text "printing" ∷ text "expired" ∷ []) wanted
    then text_eq (status_text j.status) wanted
    else if contains (text "success" ∷ text "printed" ∷ []) wanted
    then j.status is success
    else if contains (text "unknown" ∷ text "attention" ∷ []) wanted
    then is_marked j.error
    else if text_eq wanted (text "failed")
    then j.status is failed && is_unmarked j.error
    else if text_eq wanted (text "unassigned")
    then is_unassigned fleet j
    else true

-- `%${search.toLowerCase()}%`
abbrev pub search_term : Text → Text
search_term search = b'%' ∷ (to_lower search ++ (b'%' ∷ []))

-- The six columns that a search looks at.
unfoldable pub found_by : Text → Job → Bool
unfolding like
found_by search j =
    like (search_term search) (to_lower j.id)
    || like (search_term search) (to_lower (or_else j.destination []))
    || like (search_term search) (to_lower (or_else j.document_type []))
    || like (search_term search) (to_lower j.printer_id)
    || like (search_term search) (to_lower j.agent_id)
    || like (search_term search) (to_lower (or_else j.error []))

-- A condition that an empty or missing parameter leaves out.
abbrev pub when : Option Text → (Text → Job → Bool) → Job → Bool
when none condition j = true
when (some []) condition j = true
when (some (c ∷ t)) condition j = condition (c ∷ t) j

-- The columns of the answer.
pub record ListedJob : Type 0 where
  pub id : Text
  pub destination : Option Text
  pub document_type : Option Text
  pub agent_id : Text
  pub printer_id : Text
  pub status : Status
  pub error : Option Text
  pub requested_by : Text
  pub idempotency_key : Option Text
  pub retries : ℕ
  pub delivery_attempts : ℕ
  pub claimed_at : Option ℕ
  pub delivered_at : Option ℕ
  pub acked_at : Option ℕ
  pub expires_at : ℕ
  pub created_at : ℕ
  pub updated_at : ℕ
  pub physical_outcome : PhysicalOutcome

unfoldable pub listed : Job → ListedJob
listed j = record {
  id = j.id;
  destination = j.destination;
  document_type = j.document_type;
  agent_id = j.agent_id;
  printer_id = j.printer_id;
  status = j.status;
  error = j.error;
  requested_by = j.requested_by;
  idempotency_key = j.idempotency_key;
  retries = j.retries;
  delivery_attempts = j.delivery_attempts;
  claimed_at = j.claimed_at;
  delivered_at = j.delivered_at;
  acked_at = j.acked_at;
  expires_at = j.expires_at;
  created_at = j.created_at;
  updated_at = j.updated_at;
  physical_outcome = derive_physical_outcome j.status j.error;
}

-- `ORDER BY created_at DESC`
unfoldable pub insert_newest : Job → Table → Table
insert_newest j [] = j ∷ []
insert_newest j (k ∷ ks) =
    let later = k ∷ insert_newest j ks in
    if leb k.created_at j.created_at then j ∷ k ∷ ks else later

unfoldable pub newest_first : Table → Table
unfolding insert_newest
newest_first [] = []
newest_first (j ∷ js) = insert_newest j (newest_first js)

unfoldable pub skip_rows : ℕ → Table → Table
skip_rows zero js = js
skip_rows (suc n) [] = []
skip_rows (suc n) (j ∷ js) = skip_rows n js

-- The rows of a query with a limit: a limit that is negative or not a number writes no LIMIT clause.
abbrev pub limited : Option ℕ → Table → Table
limited none js = js
limited (some n) js = take n js

abbrev pub page : (limit : Option ℕ) → (offset : ℕ) → (Job → Bool) → Table → List ListedJob
page limit offset test jobs =
    map listed (limited limit (skip_rows offset (newest_first (filter test jobs))))

-- `parseInt(text, 10)`, as an integer.
pub data Parsed : Type 0 where
  nan : Parsed
  whole minus : ℕ → Parsed

abbrev is_digit : ℕ → Bool
is_digit c = leb b'0' c && leb c b'9'

leading_digits : ℕ → Text → ℕ
leading_digits n [] = n
leading_digits n (c ∷ s) =
    let rest = leading_digits (n * 10 + (c - b'0')) s in if is_digit c then rest else n

abbrev digits_of : (ℕ → Parsed) → Text → Parsed
digits_of sign [] = nan
digits_of sign (c ∷ s) = if is_digit c then sign (leading_digits 0 (c ∷ s)) else nan

abbrev signed : Text → Parsed
signed [] = nan
signed (c ∷ s) =
    if text_eq (c ∷ []) (text "-")
    then digits_of minus s
    else if text_eq (c ∷ []) (text "+")
    then digits_of whole s
    else digits_of whole (c ∷ s)

unfoldable pub parse_int : Text → Parsed
unfolding leading_digits
parse_int t = signed (trim t)

-- `Math.min(parsed || 50, 200)`: a negative limit stays negative, and limits nothing.
unfoldable pub list_limit : Parsed → Option ℕ
list_limit nan = some 50
list_limit (whole zero) = some 50
list_limit (whole (suc n)) = some (min (suc n) 200)
list_limit (minus zero) = some 50
list_limit (minus (suc n)) = none

-- `Math.max(parsed || 0, 0)`
unfoldable pub list_offset : Parsed → ℕ
list_offset nan = 0
list_offset (whole n) = n
list_offset (minus n) = 0

-- The parameters of the address.
pub record ListQuery : Type 0 where
  pub status : Option Text
  pub search : Option Text
  pub q : Option Text
  pub printer_id : Option Text
  pub agent_id : Option Text
  pub limit : Option Text
  pub offset : Option Text

pub data ListReply : Type 0 where
  unauthorized forbidden invalid_status_filter : ListReply
  jobs : List ListedJob → ListReply

abbrev pub trimmed : Option Text → Option Text
trimmed none = none
trimmed (some t) = some (trim t)

-- `status.trim().toLowerCase()`
abbrev pub wanted_status : Option Text → Option Text
wanted_status none = none
wanted_status (some t) = some (to_lower (trim t))

abbrev pub either : Option Text → Option Text → Option Text
either none b = b
either (some a) b = some a

-- `statusParam && !isJobFilterStatus(statusParam)`
abbrev pub is_bad_filter : Option Text → Bool
is_bad_filter none = false
is_bad_filter (some []) = false
is_bad_filter (some (c ∷ t)) = not (is_job_filter_status (c ∷ t))

abbrev pub no_filter : Text → Bool
no_filter wanted = text_eq wanted (text "all")

-- What both lists ask of a row.
unfoldable pub is_listed : Fleet → Text → (status search : Option Text) → Job → Bool
unfolding status_condition found_by
is_listed fleet tenant_id status search j =
    text_eq j.tenant_id tenant_id
    && when status (λ wanted k. no_filter wanted || status_condition fleet wanted k) j
    && when search found_by j

-- The early answers of both lists.
unfoldable pub list_refusal : (role : Text) → (status : Option Text) → Option ListReply
unfolding has_manager_permission is_job_filter_status
list_refusal role status =
    if not (has_manager_permission role (text "jobs.read"))
    then some forbidden
    else if is_bad_filter status
    then some invalid_status_filter
    else none

abbrev pub unless_refused : Option ListReply → ListReply → ListReply
unless_refused none next = next
unless_refused (some reply) next = reply

-- The conditions of the route.
unfoldable pub is_asked : Fleet → Text → ListQuery → Job → Bool
unfolding is_listed
is_asked fleet tenant_id query j =
    is_listed fleet tenant_id (wanted_status query.status) (trimmed (either query.search query.q)) j
    && when query.printer_id (λ id k. text_eq k.printer_id id) j
    && when query.agent_id (λ id k. text_eq k.agent_id id) j

-- GET of the route, with the claims of the manager's session, if there is one.
unfoldable pub list_jobs : Option ManagerClaims → Fleet → ListQuery → Table → ListReply
unfolding is_asked newest_first skip_rows parse_int list_limit list_offset listed list_refusal
list_jobs none fleet query table = unauthorized
list_jobs (some claims) fleet query table =
    unless_refused (list_refusal claims.role (wanted_status query.status)) (
      jobs (
        page (list_limit (parse_int (or_else query.limit (text "50"))))
          (list_offset (parse_int (or_else query.offset (text "0"))))
          (is_asked fleet claims.tenant_id query) table))

-- The options of the server action; the numbers are integers.
pub record DashboardOptions : Type 0 where
  pub status : Option Text
  pub search : Option Text
  pub limit : Option Parsed
  pub offset : Option Parsed

-- `Math.min(Math.max(limit ?? 50, 1), 200)`: what is not a number stays so, and limits nothing.
unfoldable pub dashboard_limit : Option Parsed → Option ℕ
dashboard_limit none = some 50
dashboard_limit (some (whole n)) = some (min (max n 1) 200)
dashboard_limit (some (minus n)) = some 1
dashboard_limit (some nan) = none

-- `Math.max(offset ?? 0, 0)`
unfoldable pub dashboard_offset : Option Parsed → ℕ
dashboard_offset (some (whole n)) = n
dashboard_offset _ = 0

unfoldable pub get_dashboard_jobs :
    Option ManagerClaims → Fleet → DashboardOptions → Table → ListReply
unfolding is_listed newest_first skip_rows dashboard_limit dashboard_offset listed list_refusal
get_dashboard_jobs none fleet options table = unauthorized
get_dashboard_jobs (some claims) fleet options table =
    unless_refused (list_refusal claims.role (wanted_status options.status)) (
      jobs (
        page (dashboard_limit options.limit) (dashboard_offset options.offset)
          (is_listed fleet claims.tenant_id (wanted_status options.status) (trimmed options.search))
          table))
