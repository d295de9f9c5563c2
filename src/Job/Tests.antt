-- ===== src/Job/Tests.antt =====
-- The queue on concrete rows: a job is claimed, delivered, printed late and overwritten, and stale
-- jobs are swept.
use printer_repo.Prelude.{
  ◌≡◌, ◌≤◌, ℕ, refl, Bool, true, List, [], ◌∷◌, none, some, All, count, max, arith,
}
use printer_repo.Prelude.Text.{Text, text, text_eq, not_distinct}
use printer_repo.Payload.{PayloadType, PrintJobPayload}
use printer_repo.Job.Status.{
  Status, queued, claimed, printing, success, expired, str, other, parse_status, is_terminal,
  not_printed,
}
use printer_repo.Job.Row.{Clock, Lifecycle, Job, Fleet, Table}
use printer_repo.Job.Delivery.{claim_job_for_delivery, is_in_flight}
use printer_repo.Job.Sweep.{sweep_print_jobs, is_in_scope}
use printer_repo.Job.Poll.{is_live, poll_jobs}
use printer_repo.Job.Report.{
  Reporter, ReportBody, accepted, report_status, parse_job_id, parse_token,
}
use printer_repo.Job.Insert.{NewJob}
use printer_repo.Job.History.{Write, claim, poll, release, step, run}
use printer_repo.Job.HandOffs.{hand_offs, hand_offs-le}
use printer_repo.Job.Terminal.{received_once}
use printer_repo.Job.Fencing.{ChangesOnly, IsOwnClaim, report_status-fenced}
use printer_repo.Job.LateReports.{expire_overwrites}
use printer_repo.Job.Claims.{IsPolled, poll_jobs-IsPolled}
use printer_repo.Job.Keys.{UniqueIds, Pairwise}
use printer_repo.Job.Ceiling.{claim_job_for_delivery-ceiling, poll_jobs-ceiling}
use printer_repo.Job.SweepLaws.{IsSettled, IsAccounted, sweep-settles, sweep-accounts}
use printer_repo.Job.System.{
  Event, inserts, pushes, acks, sweeps, handle_all, IsConsistent, queue-IsConsistent,
}

abbrev at : ℕ → Clock
at t = record { db_now = t; app_now = t }

abbrev no_payload : PrintJobPayload
no_payload = record {
  kind = PayloadType.raw;
  protocol = none;
  peripherals = none;
  content = text "QQ==";
}

abbrev request : NewJob
request = record {
  id = text "j1";
  tenant_id = text "t";
  agent_id = text "a";
  printer_id = text "p";
  api_key_id = none;
  document_type = none;
  destination = none;
  idempotency_key = none;
  request_id = none;
  requested_by = text "u";
  payload = no_payload;
  expires_at = 900_000;
}

abbrev new_job : Job
new_job = record {
  id = text "j1";
  tenant_id = text "t";
  agent_id = text "a";
  printer_id = text "p";
  api_key_id = none;
  document_type = none;
  destination = none;
  idempotency_key = none;
  request_id = none;
  requested_by = text "u";
  payload = no_payload;
  status = queued;
  error = none;
  created_at = 1000;
  expires_at = 900_000;
  updated_at = 1000;
  claimed_at = none;
  delivered_at = none;
  acked_at = none;
  claim_token = none;
  delivery_attempts = 0;
  retries = 0;
}

abbrev claimed_job : Job
claimed_job = record new_job {
  status = claimed;
  claimed_at = some 2000;
  updated_at = 2000;
  claim_token = some (text "k1");
  delivery_attempts = 1;
}

abbrev delivered_job : Job
delivered_job = record claimed_job { delivered_at = some 2100 }

abbrev pub printed_job : Job
printed_job = record delivered_job { status = success; updated_at = 5000 }

abbrev agent : Reporter
agent = record { id = text "a"; tenant_id = text "t" }

abbrev pub fleet : Fleet
fleet = record {
  agents =
      record { id = text "a"; tenant_id = text "t"; lifecycle = Lifecycle.active; online = true }
      ∷ [];
  printers =
      record { id = text "p"; tenant_id = text "t"; lifecycle = Lifecycle.active; online = true }
      ∷ [];
}

abbrev unlocked : Job → Bool
unlocked j = true

abbrev says : Status → ReportBody
says s = record {
  job_id = str (text "j1");
  status = str (status_words s);
  error = other;
  reason = other;
  claim_token = str (text "k1");
}
  where
    status_words : Status → Text
    status_words expired = text "expired"
    status_words printing = text "printing"
    status_words _ = text "success"

abbrev day : List Event
day =
    inserts request (at 1000)
    ∷ pushes fleet unlocked (text "j1") (text "a") (at 2000) (text "k1")
    ∷ acks (text "j1") (text "a") (some (text "k1")) (at 2100)
    ∷ sweeps none (at 950_000) (at 950_000) (at 950_000) (at 950_000) (at 950_000)
    ∷ []

queue-IsConsistent_example : IsConsistent (handle_all day [])
queue-IsConsistent_example = queue-IsConsistent day

-- What an unlucky history of two tries does.
abbrev tries : List Write
tries =
    claim (text "j1") (text "a") (at 2000) (text "k1")
    ∷ release (text "j1") (text "a") (some (text "k1")) (text "no socket") (at 2100)
    ∷ poll (at 3000) (λ id. text "k2")
    ∷ []

hand_offs_test : hand_offs tries new_job ≡ 2
unfolding hand_offs step text_eq text not_distinct
hand_offs_test = refl

hand_offs-le_example : hand_offs tries new_job ≤ 10
hand_offs-le_example = hand_offs-le tries new_job (ground arith)

received_once_example :
    (hand_offs tries delivered_job ≡ 0) × ((run tries delivered_job).claim_token ≡ some (text "k1"))
received_once_example = received_once tries delivered_job (refl, (refl, (refl, tt))) (ground arith)

report_status-fenced_example :
    ChangesOnly
      (IsOwnClaim agent (says printing))
      (delivered_job ∷ [])
      (report_status agent (says printing) (at 2500) (claimed_job ∷ []) (delivered_job ∷ [])).0
report_status-fenced_example =
    report_status-fenced agent (says printing) (at 2500) (claimed_job ∷ []) (delivered_job ∷ [])

abbrev second_job : Job
second_job = record new_job { id = text "j2" }

abbrev two_jobs : Table
two_jobs = new_job ∷ second_job ∷ []

two_ids : UniqueIds two_jobs
unfolding text text_eq
two_ids = ((refl, tt), (tt, tt))

poll_jobs-IsPolled_example :
    Pairwise
      (IsPolled fleet (text "a") (at 2000) (λ id. id))
      two_jobs
      (poll_jobs fleet unlocked (text "a") (at 2000) (λ id. id) two_jobs).0
poll_jobs-IsPolled_example =
    poll_jobs-IsPolled fleet unlocked (text "a") (at 2000) two_jobs (λ id. id) two_ids

claim_job_for_delivery-ceiling_example :
    count
      (is_in_flight fleet (text "a") (at 2000))
      (claim_job_for_delivery fleet unlocked
        (text "j1")
        (text "a")
        (at 2000)
        (text "k1")
        two_jobs).0
    ≤ max 500 (count (is_in_flight fleet (text "a") (at 2000)) two_jobs)
claim_job_for_delivery-ceiling_example =
    claim_job_for_delivery-ceiling fleet (text "a") (at 2000) two_jobs two_ids unlocked (text "j1")
      (text "k1")

poll_jobs-ceiling_example :
    count
      (is_live fleet (text "a") (at 2000))
      (poll_jobs fleet unlocked (text "a") (at 2000) (λ id. id) two_jobs).0
    ≤ max 500 (count (is_live fleet (text "a") (at 2000)) two_jobs)
poll_jobs-ceiling_example =
    poll_jobs-ceiling fleet (text "a") (at 2000) two_jobs two_ids unlocked (λ id. id)

sweep-accounts_example :
    Pairwise IsAccounted
      (delivered_job ∷ claimed_job ∷ [])
      (sweep_print_jobs none
        (at 100_000)
        (at 100_100)
        (at 100_200)
        (at 100_300)
        (at 100_400)
        (delivered_job ∷ claimed_job ∷ [])).0
sweep-accounts_example =
    sweep-accounts none (at 100_000) (at 100_100) (at 100_200) (at 100_300) (at 100_400)
      (delivered_job ∷ claimed_job ∷ [])

sweep-settles_example :
    All
      (λ k.
        is_in_scope (some (text "a")) k ≡ true
        → IsSettled (at 100_000) (at 100_100) (at 100_200) (at 100_300) (at 100_400) k)
      (sweep_print_jobs
        (some (text "a"))
        (at 100_000)
        (at 100_100)
        (at 100_200)
        (at 100_300)
        (at 100_400)
        (delivered_job ∷ claimed_job ∷ [])).0
sweep-settles_example =
    sweep-settles (some (text "a")) (at 100_000) (at 100_100) (at 100_200) (at 100_300) (at 100_400)
      (delivered_job ∷ claimed_job ∷ [])

expire_overwrites_example :
    report_status agent (says expired) (at 950_000) (printed_job ∷ []) (printed_job ∷ []) ≡ (
      record printed_job { status = expired; error = none; updated_at = 950_000 } ∷ [],
      accepted expired not_printed,
    )
unfolding is_terminal parse_job_id parse_status parse_token text text_eq
expire_overwrites_example =
    expire_overwrites agent (says expired) (at 950_000) printed_job refl refl refl refl refl refl
      (ground arith)
