-- ===== src/Job/System.antt =====
-- The whole queue: any sequence of the requests that reach it, in any order, from an empty table.
use printer_repo.Prelude.{
  ◌||◌, ◌≡◌, refl, sym, subst, ap, ◌∙◌, Bool, false, List, [], ◌∷◌, All, Option, any, arith,
  Bool-cases, inl, inr,
}
use printer_repo.Prelude.Text.{Text, text_eq}
use printer_repo.Job.Row.{Clock, Job, Fleet, Table}
use printer_repo.Job.Insert.{NewJob, queued_row, insert_job, has_same_key}
use printer_repo.Job.Delivery.{
  claim_job_for_delivery, mark_job_delivered, record_job_ack, release_undelivered_claim,
}
use printer_repo.Job.Sweep.{sweep_print_jobs}
use printer_repo.Job.Poll.{poll_jobs}
use printer_repo.Job.Report.{Reporter, ReportBody, report_status}
use printer_repo.Job.KeepAlive.{Entry, keep_alive}
use printer_repo.Job.History.{Write, claim, step, run}
use printer_repo.Job.Invariant.{IsNew, IsSound, new-IsSound, run-IsSound}
use printer_repo.Job.Refinement.{Reaches, Evolves, report_status-Evolves}
use printer_repo.Job.Handlers.{
  mark_job_delivered-Evolves, record_job_ack-Evolves, release-Evolves, sweep-Evolves,
  keep_alive-Evolves,
}
use printer_repo.Job.Claims.{claim_job_for_delivery-Evolves, poll_jobs-Evolves}
use printer_repo.Job.Keys.{UniqueIds}

-- One request's effect on `print_jobs`. The fleet, the clocks, the locks that other transactions
-- hold, the random tokens and the older read of a report are whatever they are at that moment.
pub data Event : Type 0 where
  inserts : NewJob → Clock → Event
  pushes :
      Fleet → (lockable : Job → Bool) → (job_id agent_id : Text) → Clock → (token : Text) → Event
  polls : Fleet → (lockable : Job → Bool) → (agent_id : Text) → Clock → (mint : Text → Text) → Event
  delivers acks : (job_id agent_id : Text) → Option Text → Clock → Event
  releases : (job_id agent_id : Text) → Option Text → (reason : Text) → Clock → Event
  sweeps : (scope : Option Text) → (c1 c2 c3 c4 c5 : Clock) → Event
  reports : Reporter → ReportBody → Clock → (earlier : Table) → Event
  keeps : Reporter → List Entry → Clock → Event

unfoldable pub handle : Event → Table → Table
handle (inserts n clock) jobs = insert_job n clock jobs
handle (pushes fleet lockable job_id agent_id clock token) jobs =
    (claim_job_for_delivery fleet lockable job_id agent_id clock token jobs).0
handle (polls fleet lockable agent_id clock mint) jobs =
    (poll_jobs fleet lockable agent_id clock mint jobs).0
handle (delivers job_id agent_id token clock) jobs =
    (mark_job_delivered job_id agent_id token clock jobs).0
handle (acks job_id agent_id token clock) jobs = (record_job_ack job_id agent_id token clock jobs).0
handle (releases job_id agent_id token reason clock) jobs =
    (release_undelivered_claim job_id agent_id token reason clock jobs).0
handle (sweeps scope c1 c2 c3 c4 c5) jobs = (sweep_print_jobs scope c1 c2 c3 c4 c5 jobs).0
handle (reports agent body clock earlier) jobs = (report_status agent body clock earlier jobs).0
handle (keeps agent entries clock) jobs = keep_alive agent entries clock jobs

unfoldable pub handle_all : List Event → Table → Table
unfolding handle
handle_all [] jobs = jobs
handle_all (e ∷ es) jobs = handle_all es (handle e jobs)

step-id : (w : Write) (j : Job) → (step w j).id ≡ j.id
unfolding step
step-id (claim job_id agent_id clock token) j = ground arith
step-id w j = ground arith

run-id : (ws : List Write) (j : Job) → (run ws j).id ≡ j.id
unfolding run
run-id [] j = refl
run-id (w ∷ ws) j = run-id ws (step w j) ∙ step-id w j

Reaches-id : (j k : Job) → Reaches j k → k.id ≡ j.id
Reaches-id j k (ws, e) = ap (λ (l : Job). l.id) (sym e) ∙ run-id ws j

Reaches-IsSound : (j k : Job) → Reaches j k → IsSound j → IsSound k
Reaches-IsSound j k (ws, e) v = subst IsSound e (run-IsSound ws j v)

Evolves-fresh :
    (i : Text) (xs ys : Table)
    → Evolves xs ys
    → All (λ (k : Job). text_eq i k.id ≡ false) xs
    → All (λ (k : Job). text_eq i k.id ≡ false) ys
Evolves-fresh i [] [] h a = tt
Evolves-fresh i (x ∷ xs) (y ∷ ys) (r, h) (n, a) =
    (ap (text_eq i) (Reaches-id x y r) ∙ n, Evolves-fresh i xs ys h a)
Evolves-fresh i [] (y ∷ ys) h a = elim h [ ]
Evolves-fresh i (x ∷ xs) [] h a = elim h [ ]

-- What the table keeps: distinct ids, and the delivery invariant of every row.
abbrev pub IsConsistent : Table → Type 0
IsConsistent jobs = UniqueIds jobs × All IsSound jobs

pub Evolves-IsConsistent : (xs ys : Table) → Evolves xs ys → IsConsistent xs → IsConsistent ys
Evolves-IsConsistent [] [] h c = (tt, tt)
Evolves-IsConsistent (x ∷ xs) (y ∷ ys) (r, h) ((n, u), (v, vs)) =
    let (u', vs') = Evolves-IsConsistent xs ys h (u, vs) in
    let same = Reaches-id x y r in
    (
      (
        subst (λ i. All (λ (k : Job). text_eq i k.id ≡ false) ys) (sym same)
            (Evolves-fresh x.id xs ys h n),
        u',
      ),
      (Reaches-IsSound x y r v, vs'),
    )
Evolves-IsConsistent [] (y ∷ ys) h c = elim h [ ]
Evolves-IsConsistent (x ∷ xs) [] h c = elim h [ ]

any-false :
    (i : Text) (jobs : Table)
    → any (λ (j : Job). text_eq i j.id) jobs ≡ false
    → All (λ (k : Job). text_eq i k.id ≡ false) jobs
any-false i [] h = tt
any-false i (j ∷ js) h = (ground arith, any-false i js (ground arith))

queued_row-IsNew : (n : NewJob) (clock : Clock) → IsNew (queued_row n clock)
unfolding queued_row
queued_row-IsNew n clock = ground arith

-- A new row of a fresh id.
pub add-IsConsistent :
    (n : NewJob) (clock : Clock) (jobs : Table)
    → any (λ (j : Job). text_eq n.id j.id) jobs ≡ false
    → IsConsistent jobs
    → IsConsistent (queued_row n clock ∷ jobs)
unfolding queued_row
add-IsConsistent n clock jobs e (u, v) =
    ((any-false n.id jobs e, u), (new-IsSound (queued_row n clock) (queued_row-IsNew n clock), v))

insert_job-IsConsistent :
    (n : NewJob) (clock : Clock) (jobs : Table)
    → IsConsistent jobs
    → IsConsistent (insert_job n clock jobs)
unfolding insert_job
insert_job-IsConsistent n clock jobs c =
    elim (Bool-cases (any (λ (j : Job). text_eq n.id j.id) jobs || any (has_same_key n) jobs)) [
      | inl e ↦ rw e c
      | inr e ↦ rw e (add-IsConsistent n clock jobs (ground arith) c)
    ]

handle-IsConsistent : (e : Event) (jobs : Table) → IsConsistent jobs → IsConsistent (handle e jobs)
unfolding handle
handle-IsConsistent (inserts n clock) jobs c = insert_job-IsConsistent n clock jobs c
handle-IsConsistent (pushes fleet lockable job_id agent_id clock token) jobs c =
    Evolves-IsConsistent jobs _
      (claim_job_for_delivery-Evolves fleet lockable job_id agent_id clock token jobs c.0) c
handle-IsConsistent (polls fleet lockable agent_id clock mint) jobs c =
    Evolves-IsConsistent jobs _ (poll_jobs-Evolves fleet lockable agent_id clock jobs mint c.0) c
handle-IsConsistent (delivers job_id agent_id token clock) jobs c =
    Evolves-IsConsistent jobs _ (mark_job_delivered-Evolves job_id agent_id token clock jobs) c
handle-IsConsistent (acks job_id agent_id token clock) jobs c =
    Evolves-IsConsistent jobs _ (record_job_ack-Evolves job_id agent_id token clock jobs) c
handle-IsConsistent (releases job_id agent_id token reason clock) jobs c =
    Evolves-IsConsistent jobs _ (release-Evolves job_id agent_id token clock jobs reason) c
handle-IsConsistent (sweeps scope c1 c2 c3 c4 c5) jobs c =
    Evolves-IsConsistent jobs _ (sweep-Evolves scope c1 c2 c3 c4 c5 jobs) c
handle-IsConsistent (reports agent body clock earlier) jobs c =
    Evolves-IsConsistent jobs _ (report_status-Evolves agent body clock earlier jobs) c
handle-IsConsistent (keeps agent entries clock) jobs c =
    Evolves-IsConsistent jobs _ (keep_alive-Evolves agent entries clock jobs) c

handle_all-IsConsistent :
    (es : List Event) (jobs : Table) → IsConsistent jobs → IsConsistent (handle_all es jobs)
unfolding handle_all
handle_all-IsConsistent [] jobs c = c
handle_all-IsConsistent (e ∷ es) jobs c =
    handle_all-IsConsistent es (handle e jobs) (handle-IsConsistent e jobs c)

-- After any sequence of inserts, pushes, polls, acknowledgements, releases, sweeps, status reports
-- on whatever older read, and lease refreshes, the ids of the table are distinct, and every row
-- keeps the delivery invariant: a queued row carries no token and no evidence, the delivery budget
-- is at most 5, the retry count at most 6, and at most 5 while an agent holds the row.
pub queue-IsConsistent : (es : List Event) → IsConsistent (handle_all es [])
queue-IsConsistent es = handle_all-IsConsistent es [] (tt, tt)
