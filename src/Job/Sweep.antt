-- ===== src/Job/Sweep.antt =====
-- src/lib/job-maintenance.ts: the sweep that expires, requeues and fails stale jobs.
use printer_repo.Prelude.{
  ℕ, ◌+◌, Bool, true, not, ◌&&◌, ◌||◌, [], ◌∷◌, Option, none, some, if◌then◌else◌, ltb, leb,
  is_some, is_none, count, length,
}
use printer_repo.Prelude.Text.{Text, text, text_eq}
use printer_repo.Job.Status.{
  queued, claimed, printing, failed, expired, ◌is◌, is_terminal, has_marker,
}
use printer_repo.Job.Row.{Clock, Job, Table, Statement, execute}
use printer_repo.Job.Delivery.{max_retries, stale_claim_ms}

abbrev pub stale_printing_ms : ℕ
stale_printing_ms = 600_000

abbrev pub expired_during_print : Text
expired_during_print =
    text "JOB_EXPIRED_DURING_PRINT: physical output is unknown (full, partial or none)"

abbrev pub expired_after_delivery : Text
expired_after_delivery =
    text
      "UNKNOWN_PARTIAL_DELIVERY: job expired after delivery without an execution report (physical output is unknown)"

abbrev pub silent_delivery : Text
silent_delivery =
    text
      "UNKNOWN_PARTIAL_DELIVERY: claim lease expired after delivery without an execution report (physical output is unknown; manual reconciliation required)"

abbrev pub execution_timeout : Text
execution_timeout =
    text
      "AGENT_EXECUTION_TIMEOUT: agent execution lease expired (physical output is unknown; manual reconciliation required)"

abbrev pub retries_exhausted : Text
retries_exhausted =
    text "exceeded max retries after a stale claim (agent likely crashed or lost connection)"

-- `delivered_at IS NOT NULL OR acked_at IS NOT NULL`
abbrev pub has_evidence : Job → Bool
has_evidence j = is_some j.delivered_at || is_some j.acked_at

abbrev pub is_in_scope : Option Text → Job → Bool
is_in_scope none j = true
is_in_scope (some agent_id) j = text_eq j.agent_id agent_id

-- `updated_at < now() - make_interval(secs => …)`
abbrev pub is_stale : ℕ → Clock → Job → Bool
is_stale age clock j = ltb (j.updated_at + age) clock.db_now

unfoldable pub expire_statement : Option Text → Clock → Statement
unfolding is_terminal
expire_statement scope clock = record {
  matches = λ j. not (is_terminal j.status) && leb j.expires_at clock.db_now && is_in_scope scope j;
  set_row = λ j. record j {
    status = expired;
    error =
        if j.status is printing
        then some expired_during_print
        else if j.status is claimed && has_evidence j
        then some expired_after_delivery
        else none;
    updated_at = clock.db_now;
  };
}

unfoldable pub requeue_statement : Option Text → Clock → Statement
requeue_statement scope clock = record {
  matches = λ j.
      j.status is claimed
      && is_none j.delivered_at
      && is_none j.acked_at
      && is_stale stale_claim_ms clock j
      && ltb j.retries max_retries
      && ltb clock.db_now j.expires_at
      && is_in_scope scope j;
  set_row = λ j. record j {
    status = queued;
    claimed_at = none;
    claim_token = none;
    delivered_at = none;
    acked_at = none;
    retries = j.retries + 1;
    updated_at = clock.db_now;
  };
}

unfoldable pub silent_statement : Option Text → Clock → Statement
silent_statement scope clock = record {
  matches = λ j.
      j.status is claimed
      && has_evidence j
      && is_stale stale_claim_ms clock j
      && is_in_scope scope j;
  set_row =
      λ j. record j { status = failed; error = some silent_delivery; updated_at = clock.db_now };
}

unfoldable pub stale_printing_statement : Option Text → Clock → Statement
stale_printing_statement scope clock = record {
  matches = λ j. j.status is printing && is_stale stale_printing_ms clock j && is_in_scope scope j;
  set_row = λ j. record j {
    status = failed;
    error =
        some (if leb j.expires_at clock.db_now then expired_during_print else execution_timeout);
    updated_at = clock.db_now;
  };
}

unfoldable pub exhausted_statement : Option Text → Clock → Statement
exhausted_statement scope clock = record {
  matches = λ j.
      j.status is claimed
      && is_none j.delivered_at
      && is_none j.acked_at
      && is_stale stale_claim_ms clock j
      && leb max_retries j.retries
      && is_in_scope scope j;
  set_row =
      λ j. record j { status = failed; error = some retries_exhausted; updated_at = clock.db_now };
}

pub record SweepResult : Type 0 where
  pub expired_rows : ℕ
  pub requeued_claims : ℕ
  pub silent_deliveries : ℕ
  pub stale_printing : ℕ
  pub exhausted_claims : ℕ
  pub unknown_expiries : ℕ

abbrev is_unknown_expiry : Job → Bool
is_unknown_expiry j =
    has_marker (text "JOB_EXPIRED_DURING_PRINT" ∷ text "UNKNOWN_PARTIAL_DELIVERY" ∷ []) j.error

-- `sweepPrintJobs`: the five statements, each a transaction of its own with a clock of its own.
-- The counts are those that the metrics are incremented by.
unfoldable pub sweep_print_jobs :
    Option Text → Clock → Clock → Clock → Clock → Clock → Table → Table × SweepResult
unfolding expire_statement requeue_statement silent_statement stale_printing_statement
    exhausted_statement execute
sweep_print_jobs scope c1 c2 c3 c4 c5 jobs =
    let (jobs1, expired_jobs) = execute (expire_statement scope c1) jobs in
    let (jobs2, requeued_jobs) = execute (requeue_statement scope c2) jobs1 in
    let (jobs3, silent_jobs) = execute (silent_statement scope c3) jobs2 in
    let (jobs4, printing_jobs) = execute (stale_printing_statement scope c4) jobs3 in
    let (jobs5, exhausted_jobs) = execute (exhausted_statement scope c5) jobs4 in
    (
      jobs5,
      record {
        expired_rows = length expired_jobs;
        requeued_claims = length requeued_jobs;
        silent_deliveries = length silent_jobs;
        stale_printing = length printing_jobs;
        exhausted_claims = length exhausted_jobs;
        unknown_expiries = count is_unknown_expiry expired_jobs;
      },
    )
