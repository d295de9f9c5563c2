-- ===== src/Console/Tests.antt =====
-- Runs of the managers' console, and the theorems at concrete inputs.
use printer_repo.Prelude.{
  ◌≤◌, ◌⊎◌, ◌≡◌, refl, Bool, true, false, not, [], ◌∷◌, none, some, All, any, filter, or_else,
}
use printer_repo.Prelude.Text.{Text, text, text_eq, trim, to_lower, not_distinct}
use printer_repo.Prelude.Decimal.{decimal}
use printer_repo.Managers.Token.{ManagerClaims}
use printer_repo.Agents.{AgentAccount}
use printer_repo.Job.Status.{failed}
use printer_repo.Job.Row.{Clock, Job}
use printer_repo.Job.Tests.{printed_job, fleet}
use printer_repo.Submit.Tests.{env, inventory, empty_store}
use printer_repo.Admission.Entitlements.{Store}
use printer_repo.Console.Like.{like}
use printer_repo.Console.Listing.{
  ListQuery, DashboardOptions, list_jobs, get_dashboard_jobs, parse_int, whole, jobs, listed,
}
use printer_repo.Console.Pages.{list-IsOwnList, IsOwnList, list_bound, dashboard_bound}
use printer_repo.Console.Cleanup.{is_cleanup_candidate, cleanup_candidates, delete_old}
use printer_repo.Console.Removal.{delete_old-IsSafe, is_removed}
use printer_repo.Console.Actions.{
  Estate, ok, delete_agent, create_agent, refused, derived_key, reprint_found,
}
use printer_repo.Console.Deletion.{
  delete_agent-IsRemoved, IsRemoved, create_agent-IsCreated, IsCreated,
}
use printer_repo.Console.Reprints.{reprint_once, IsNoReprint, holds_key}

abbrev owner : ManagerClaims
owner = record {
  jti = text "s";
  iat = 0;
  exp = 1000;
  tenant_id = text "t";
  user_id = none;
  role = text "owner";
}

abbrev query : ListQuery
query = record {
  status = some (text " Unknown ");
  search = none;
  q = none;
  printer_id = none;
  agent_id = none;
  limit = some (text "20 rows");
  offset = none;
}

wildcards : like (text "a_c%\\%") (text "abcdef%") ≡ true
unfolding like text
wildcards = refl

read_limit : parse_int (text "20 rows") ≡ whole 20
unfolding parse_int text text_eq trim
read_limit = refl

read_offset : parse_int (text "0") ≡ whole 0
unfolding parse_int text text_eq trim
read_offset = refl

abbrev plain_query : (limit : Text) → ListQuery
plain_query limit = record query { status = none; limit = some limit }

-- A limit of one job lists one, and a negative limit lists every job.
negative_limit :
    (list_jobs (some owner) fleet (plain_query (text "1")) (printed_job ∷ printed_job ∷ [])
      ≡ jobs (listed printed_job ∷ []))
    × (list_jobs (some owner) fleet (plain_query (text "-1")) (printed_job ∷ printed_job ∷ [])
        ≡ jobs (listed printed_job ∷ listed printed_job ∷ []))
unfolding list_jobs text text_eq trim to_lower
negative_limit = (refl, refl)

abbrev lost_job : Job
lost_job = record printed_job {
  status = failed;
  error = some (text "AGENT_EXECUTION_TIMEOUT: late");
}

abbrev options : DashboardOptions
options = record { status = none; search = some (text "label"); limit = none; offset = none }

list-IsOwnList_example :
    IsOwnList
      (list_bound (parse_int (or_else query.limit (text "50"))))
      (text "t")
      (printed_job ∷ [])
      (list_jobs (some owner) fleet query (printed_job ∷ []))
    × IsOwnList
        (dashboard_bound none)
        (text "t")
        (printed_job ∷ [])
        (get_dashboard_jobs (some owner) fleet options (printed_job ∷ []))
list-IsOwnList_example = list-IsOwnList owner fleet query options (printed_job ∷ [])

delete_old-IsSafe_example :
    ((delete_old (text "t") 9_000_000 5 (printed_job ∷ [])).0
      ≡ filter
          (λ j. not (is_removed (text "t") 9_000_000 5 (printed_job ∷ []) j))
          (printed_job ∷ []))
    × ((delete_old (text "t") 9_000_000 5 (printed_job ∷ [])).1 ≤ 5)
    × All
        (λ j.
          is_removed (text "t") 9_000_000 5 (printed_job ∷ []) j ≡ true
          → is_cleanup_candidate (text "t") 9_000_000 j ≡ true)
        (printed_job ∷ [])
    × All
        (λ j.
          is_cleanup_candidate (text "t") 9_000_000 j ≡ true
          → (is_removed (text "t") 9_000_000 5 (printed_job ∷ []) j ≡ true)
            ⊎ All
                (λ (c : Job). c.created_at ≤ j.created_at)
                (cleanup_candidates (text "t") 9_000_000 5 (printed_job ∷ [])))
        (printed_job ∷ [])
delete_old-IsSafe_example = delete_old-IsSafe (text "t") 9_000_000 5 (printed_job ∷ []) (tt, tt)

abbrev idle_agent : AgentAccount
idle_agent = record {
  id = text "a";
  tenant_id = text "t";
  lifecycle = text "active";
  secret = none;
  pairing_code_hash = none;
  pairing_code_expires_at = none;
  status = text "offline";
  metadata = [];
  last_seen_at = none;
  updated_at = 0;
}

abbrev estate : Estate
estate = record {
  accounts = record { agents = idle_agent ∷ []; printers = [] };
  jobs = [];
  devices = [];
  sessions = [];
}

abbrev apart : Text → Bool
apart id = false

deleted_ok : (delete_agent (some owner) apart (text " a ") estate).1 ≡ ok tt
unfolding delete_agent text text_eq trim
deleted_ok = refl

delete_agent-IsRemoved_example :
    (refused (some owner) (text "agents.retire") ≡ none)
    × (apart (trim (text " a ")) ≡ false)
    × IsRemoved
        (trim (text " a "))
        (text "t")
        estate
        (delete_agent (some owner) apart (text " a ") estate).0
delete_agent-IsRemoved_example = delete_agent-IsRemoved owner apart (text " a ") estate deleted_ok

abbrev same : Text → Text
same t = t

abbrev noon : Clock
noon = record { db_now = 100; app_now = 101 }

create_agent-IsCreated_example : IsCreated same (text "b") (text "t") noon [] (idle_agent ∷ []) (
    create_agent same
      (text "ABC-123" ∷ [])
      (text "b")
      (some owner)
      (text "Bar")
      noon
      []
      (idle_agent ∷ []))
create_agent-IsCreated_example =
    create_agent-IsCreated same (text "ABC-123" ∷ []) (text "b") owner (text "Bar") noon []
      (idle_agent ∷ [])

-- The second reprint of a job whose first reprint has been cleaned up.
abbrev second_reprint : Job
second_reprint = record printed_job {
  id = text "job_9";
  tenant_id = text "t";
  api_key_id = none;
  idempotency_key = some (text "gw-reprint:job_0:2");
}

abbrev first_job : Job
first_job = record printed_job { id = text "job_0"; tenant_id = text "t" }

abbrev left_over : Store
left_over = record empty_store { jobs = second_reprint ∷ [] }

key_held :
    any
      (holds_key (text "t") (derived_key (text "job_0") (text "t") (second_reprint ∷ [])))
      (second_reprint ∷ [])
    ≡ true
unfolding derived_key text text_eq like not_distinct decimal
key_held = refl

reprint_once_example :
    IsNoReprint left_over
      (reprint_found env (text "t") noon inventory (second_reprint ∷ []) left_over (some first_job))
reprint_once_example =
    reprint_once env (text "t") noon inventory left_over first_job (second_reprint ∷ []) key_held
