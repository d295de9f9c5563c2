-- ===== src/Job/Handlers.antt =====
-- The delivery handlers, the sweep and the lease refresh move rows by the writes of Job/History.
use printer_repo.Prelude.{List, [], ◌∷◌, Option}
use printer_repo.Prelude.Text.{Text}
use printer_repo.Job.Row.{Clock, Table, execute}
use printer_repo.Job.Delivery.{
  mark_job_delivered, record_job_ack, settle, release_undelivered_claim,
}
use printer_repo.Job.Sweep.{sweep_print_jobs}
use printer_repo.Job.Report.{Reporter}
use printer_repo.Job.KeepAlive.{Entry, collect_pairs, max_keep_alive_job_ids, keep_alive}
use printer_repo.Job.History.{
  Write, deliver, ack, release, give_up, expire, requeue, silence, stall, exhaust, refresh_tokened,
  refresh_tokenless, statement,
}
use printer_repo.Job.Refinement.{Evolves, Evolves-trans, write-Evolves}

settle-Evolves :
    (jobs : Table) (a b : Table × Table)
    → Evolves jobs a.0
    → Evolves jobs b.0
    → Evolves jobs (settle a b).0
settle-Evolves jobs (a, j ∷ rows) (b, r) h k = h
settle-Evolves jobs (a, []) (b, j ∷ rows) h k = k
settle-Evolves jobs (a, []) (b, []) h k = k

module _ (job_id agent_id : Text) (token : Option Text) (clock : Clock) (jobs : Table) where
  pub mark_job_delivered-Evolves :
      Evolves jobs (mark_job_delivered job_id agent_id token clock jobs).0
  unfolding mark_job_delivered statement
  mark_job_delivered-Evolves = write-Evolves (deliver job_id agent_id token clock) jobs

  pub record_job_ack-Evolves : Evolves jobs (record_job_ack job_id agent_id token clock jobs).0
  unfolding record_job_ack statement
  record_job_ack-Evolves = write-Evolves (ack job_id agent_id token clock) jobs

  pub release-Evolves :
      (reason : Text)
      → Evolves jobs (release_undelivered_claim job_id agent_id token reason clock jobs).0
  unfolding release_undelivered_claim statement
  release-Evolves reason =
      settle-Evolves jobs _ _ (write-Evolves (release job_id agent_id token reason clock) jobs)
        (write-Evolves (give_up job_id agent_id token reason clock) jobs)

-- Two writes after one another.
then : (w : Write) (xs ys : Table) → Evolves xs ys → Evolves xs (execute (statement w) ys).0
then w xs ys h = Evolves-trans xs ys _ h (write-Evolves w ys)

-- The sweep, with any clocks for its five statements.
pub sweep-Evolves :
    (scope : Option Text) (c1 c2 c3 c4 c5 : Clock) (jobs : Table)
    → Evolves jobs (sweep_print_jobs scope c1 c2 c3 c4 c5 jobs).0
unfolding sweep_print_jobs statement
sweep-Evolves scope c1 c2 c3 c4 c5 jobs = then (exhaust scope c5) jobs _ (
    then (stall scope c4) jobs _ (
      then (silence scope c3) jobs _
        (then (requeue scope c2) jobs _ (write-Evolves (expire scope c1) jobs))))

pub keep_alive-Evolves :
    (agent : Reporter) (entries : List Entry) (clock : Clock) (jobs : Table)
    → Evolves jobs (keep_alive agent entries clock jobs)
unfolding keep_alive statement
keep_alive-Evolves agent entries clock jobs =
    let pairs = collect_pairs max_keep_alive_job_ids entries in
    then (refresh_tokenless agent pairs clock) jobs _
      (write-Evolves (refresh_tokened agent pairs clock) jobs)
