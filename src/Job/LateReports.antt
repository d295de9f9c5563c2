-- ===== src/Job/LateReports.antt =====
-- What an agent's report may do to a finished job.
use printer_repo.Prelude.{◌≤◌, ◌≡◌, refl, true, [], ◌∷◌, some, none, arith}
use printer_repo.Prelude.Text.{starts_with, text, text_eq_refl, text_eq_iff, not_distinct_iff}
use printer_repo.Job.Status.{
  expired, is_terminal, parse_status, not_printed, derive_physical_outcome,
}
use printer_repo.Job.Row.{Clock, Job, execute}
use printer_repo.Job.Report.{
  Reporter, ReportBody, accepted, parse_job_id, parse_token, plan_report, plan_seen, plan_expire,
  agent_expire_statement, carry_out, find_own, report_status,
}

expired_outcome : derive_physical_outcome expired none ≡ not_printed
unfolding derive_physical_outcome starts_with text
expired_outcome = refl

module _ (agent : Reporter) (body : ReportBody) (clock : Clock) (j : Job) where
  found :
      j.agent_id ≡ agent.id → j.tenant_id ≡ agent.tenant_id → find_own agent j.id (j ∷ []) ≡ some j
  unfolding find_own
  found d e = ground (
    arith,
    text_eq_refl j.id,
    text_eq_iff j.tenant_id agent.tenant_id,
    text_eq_iff j.agent_id agent.id,
  )

  -- The expiry branch does not ask whether the job is finished: once the time to live has passed, an
  -- agent's `expired` report with the row's own claim token turns a success or a failure into an
  -- expiry without an error, and so an unknown outcome into `not_printed`.
  pub expire_overwrites :
      parse_job_id body.job_id ≡ some j.id
      → parse_status body.status ≡ some expired
      → parse_token body.claim_token ≡ j.claim_token
      → j.agent_id ≡ agent.id
      → j.tenant_id ≡ agent.tenant_id
      → is_terminal j.status ≡ true
      → j.expires_at ≤ clock.db_now
      → report_status agent body clock (j ∷ []) (j ∷ []) ≡ (
        record j { status = expired; error = none; updated_at = clock.app_now } ∷ [],
        accepted expired not_printed,
      )
  unfolding report_status plan_seen plan_report plan_expire agent_expire_statement carry_out execute
      is_terminal
  expire_overwrites a b c d e f g =
      rw (a, b, c, found d e)
        (ground (
          arith,
          text_eq_refl j.id,
          text_eq_iff j.agent_id agent.id,
          not_distinct_iff j.claim_token j.claim_token,
          expired_outcome,
        ))
