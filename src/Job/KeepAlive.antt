-- ===== src/Job/KeepAlive.antt =====
-- The lease refresh in POST of src/app/api/agent/heartbeat/route.ts: an agent names the jobs that it
-- still holds.
use printer_repo.Prelude.{
  ℕ, Bool, not, ◌&&◌, List, [], ◌∷◌, Option, none, some, if◌then◌else◌, any, length, leb, is_none,
}
use printer_repo.Prelude.Text.{Text, text_eq, not_distinct}
use printer_repo.Job.Status.{claimed, printing, Value, str, other, ◌is◌}
use printer_repo.Job.Row.{Clock, Job, Table, Statement, execute}
use printer_repo.Job.Report.{Reporter, parse_token}

abbrev pub max_keep_alive_job_ids : ℕ
max_keep_alive_job_ids = 64

abbrev pub max_id_length : ℕ
max_id_length = 120

-- An entry of `keepAliveJobIds`: a text, an object with these fields, or something else.
pub data Entry : Type 0 where
  bare : Text → Entry
  object : (job_id id claim_token : Value) → Entry
  junk : Entry

pub record Pair : Type 0 where
  pub job_id : Text
  pub claim_token : Option Text

abbrev string_or : Value → Text → Text
string_or (str t) d = t
string_or other d = d

abbrev pair_of : Text → Option Text → Option Pair
pair_of [] token = none
pair_of (c ∷ s) token =
    if leb (length (c ∷ s)) max_id_length
    then some (record { job_id = c ∷ s; claim_token = token })
    else none

unfoldable pub parse_entry : Entry → Option Pair
unfolding parse_token
parse_entry (bare t) = pair_of t none
parse_entry (object job_id id token) =
    pair_of (string_or job_id (string_or id [])) (parse_token token)
parse_entry junk = none

-- The loop over the entries, with `room` pairs left before it breaks.
unfoldable pub collect_pairs : ℕ → List Entry → List Pair
unfolding parse_entry
collect_pairs ℕ.zero entries = []
collect_pairs (ℕ.suc room) [] = []
collect_pairs (ℕ.suc room) (e ∷ rest) = elim (parse_entry e) [
  | none ↦ collect_pairs (ℕ.suc room) rest
  | some p ↦ p ∷ collect_pairs room rest
]

abbrev pub is_held : Job → Bool
is_held j = any (λ s. j.status is s) (claimed ∷ printing ∷ [])

unfoldable pub tokened_statement : Reporter → List Pair → Clock → Statement
tokened_statement agent pairs clock = record {
  matches = λ j.
      text_eq j.agent_id agent.id
      && is_held j
      && any
          (λ (p : Pair).
            text_eq j.id p.job_id
            && not (is_none p.claim_token)
            && not_distinct j.claim_token p.claim_token)
          pairs;
  set_row = λ j. record j { updated_at = clock.db_now };
}

unfoldable pub tokenless_statement : Reporter → List Pair → Clock → Statement
tokenless_statement agent pairs clock = record {
  matches = λ j.
      text_eq j.tenant_id agent.tenant_id
      && text_eq j.agent_id agent.id
      && is_held j
      && any (λ (p : Pair). text_eq j.id p.job_id && is_none p.claim_token) pairs
      && is_none j.claim_token;
  set_row = λ j. record j { updated_at = clock.app_now };
}

unfoldable pub keep_alive : Reporter → List Entry → Clock → Table → Table
unfolding collect_pairs tokened_statement tokenless_statement execute
keep_alive agent entries clock jobs =
    let pairs = collect_pairs max_keep_alive_job_ids entries in
    (execute (tokenless_statement agent pairs clock)
      (execute (tokened_statement agent pairs clock) jobs).0).0
