-- ===== src/Job/Refinement.antt =====
-- The handlers refine the row histories: whatever they do to the table, each row goes on by writes
-- of Job/History, so that what holds of every history holds of every row.
use printer_repo.Prelude.{
  ◌≡◌, refl, sym, ap, ◌∙◌, Bool, true, false, ◌&&◌, ◌⊎◌, inl, inr, List, [], ◌∷◌, ◌++◌, Option,
  some, none, arith, All, Bool-cases,
}
use printer_repo.Prelude.Text.{Text}
use printer_repo.Job.Status.{Status, queued, claimed, ◌is◌, parse_status, can_transition}
use printer_repo.Job.Row.{Clock, Job, Table, Statement, write, execute}
use printer_repo.Job.Report.{
  Reporter, ReportBody, Plan, refuse, submit, parse_job_id, parse_token, parse_error, parse_reason,
  plan_expire, plan_reject, plan_post_expiration, plan_transition, plan_report, plan_seen,
  carry_out, find_own, report_status, report_as, late_success_error, transition,
}
use printer_repo.Job.History.{Write, agent_expire, reject, print_late, report, statement, step, run}

-- The second row is the first after some writes.
abbrev pub Reaches : Job → Job → Type 0
Reaches j k = (ws : List Write) × (run ws j ≡ k)

abbrev pub Evolves : Table → Table → Type 0
Evolves [] [] = Unit
Evolves (x ∷ xs) (y ∷ ys) = Reaches x y × Evolves xs ys
Evolves _ _ = ⊥

reach_none : (j : Job) → Reaches j j
unfolding run
reach_none j = ([], refl)

pub reach_one : (w : Write) (j k : Job) → k ≡ step w j → Reaches j k
unfolding run
reach_one w j k e = (w ∷ [], sym e)

run-append : (vs ws : List Write) (j : Job) → run (vs ++ ws) j ≡ run ws (run vs j)
unfolding run
run-append [] ws j = refl
run-append (v ∷ vs) ws j = run-append vs ws (step v j)

pub Reaches-trans : (j k l : Job) → Reaches j k → Reaches k l → Reaches j l
Reaches-trans j k l (vs, p) (ws, q) = (vs ++ ws, run-append vs ws j ∙ ap (run ws) p ∙ q)

pub Evolves-refl : (xs : Table) → Evolves xs xs
Evolves-refl [] = tt
Evolves-refl (x ∷ xs) = (reach_none x, Evolves-refl xs)

pub Evolves-trans : (xs ys zs : Table) → Evolves xs ys → Evolves ys zs → Evolves xs zs
Evolves-trans [] [] [] h k = tt
Evolves-trans (x ∷ xs) (y ∷ ys) (z ∷ zs) (p, h) (q, k) =
    (Reaches-trans x y z p q, Evolves-trans xs ys zs h k)
Evolves-trans [] [] (z ∷ zs) h k = elim k [ ]
Evolves-trans [] (y ∷ ys) zs h k = elim h [ ]
Evolves-trans (x ∷ xs) [] zs h k = elim h [ ]
Evolves-trans (x ∷ xs) (y ∷ ys) [] h k = elim k [ ]

pub execute-Evolves :
    (s : Statement) (xs : Table) → ((j : Job) → Reaches j (write s j)) → Evolves xs (execute s xs).0
unfolding execute
execute-Evolves s [] h = tt
execute-Evolves s (x ∷ xs) h = (h x, execute-Evolves s xs h)

pub execute-Evolves_on :
    (s : Statement) (xs : Table)
    → All (λ (j : Job). s.matches j ≡ true → Reaches j (s.set_row j)) xs
    → Evolves xs (execute s xs).0
unfolding execute
execute-Evolves_on s [] h = tt
execute-Evolves_on s (x ∷ xs) (p, h) = (
  elim (Bool-cases (s.matches x)) [ inl e ↦ rw e (p e) | inr e ↦ rw e (reach_none x) ],
  execute-Evolves_on s xs h,
)

-- A statement that is a history's write.
pub write-Evolves : (w : Write) (xs : Table) → Evolves xs (execute (statement w) xs).0
unfolding step
write-Evolves w xs = execute-Evolves (statement w) xs (λ j. reach_one w j _ refl)

abbrev plan_write : Plan → Job → Job
plan_write (refuse reply) j = j
plan_write (submit s hit miss) j = write s j

-- What a report can do to a row: nothing, or one of five writes.
abbrev Cases :
    Reporter → Text → Option Text → Clock → Status → Option Text → Text → Job → Job → Type 0
Cases agent job_id token clock to error reason seen j =
    let k = plan_write (plan_report agent job_id to error reason token clock seen) j in
    (k ≡ j)
    ⊎ (k ≡ step (agent_expire agent job_id token clock seen) j)
    ⊎ (k ≡ step (reject agent job_id token reason clock) j)
    ⊎ (k ≡ step (print_late agent job_id token error clock) j)
    ⊎ (k
        ≡ step
            (report agent job_id token seen.status to true (some (late_success_error seen)) clock)
            j)
    ⊎ (k ≡ step (report agent job_id token seen.status to false error clock) j)

module _ (agent : Reporter) (job_id : Text) (token : Option Text) (clock : Clock) where
  transition-Reaches :
      (to : Status) (late : Bool) (error : Option Text) (seen j : Job)
      → (to is queued && seen.status is claimed) ≡ false
      → plan_write (transition agent job_id token to late error clock seen) j
        ≡ step (report agent job_id token seen.status to late error clock) j
  unfolding step can_transition
  transition-Reaches to late error seen j h = ground arith

  plan_transition-cases :
      (to : Status) (error : Option Text) (seen j : Job)
      → (to is queued && seen.status is claimed) ≡ false
      → let k = plan_write (plan_transition agent job_id token to error clock seen) j in
        (k ≡ j)
        ⊎ (k
            ≡ step
                (report agent job_id token seen.status to true
                  (some (late_success_error seen))
                  clock)
                j)
        ⊎ (k ≡ step (report agent job_id token seen.status to false error clock) j)
  unfolding plan_transition
  plan_transition-cases to error seen j h = ground (
    arith,
    transition-Reaches to true (some (late_success_error seen)) seen j h,
    transition-Reaches to false error seen j h,
  )

  plan_report-Cases :
      (to : Status) (error : Option Text) (reason : Text) (seen j : Job)
      → Cases agent job_id token clock to error reason seen j
  unfolding plan_report plan_reject plan_post_expiration plan_expire step
  plan_report-Cases to error reason seen j = ground (arith, plan_transition-cases to error seen j)

  plan_report-Reaches :
      (to : Status) (error : Option Text) (reason : Text) (seen j : Job)
      → Reaches j (plan_write (plan_report agent job_id to error reason token clock seen) j)
  plan_report-Reaches to error reason seen j = elim cases [
    | inl e ↦ rw e (reach_none j)
    | inr (inl e) ↦ reach_one (agent_expire agent job_id token clock seen) j _ e
    | inr (inr (inl e)) ↦ reach_one (reject agent job_id token reason clock) j _ e
    | inr (inr (inr (inl e))) ↦ reach_one (print_late agent job_id token error clock) j _ e
    | inr (inr (inr (inr (inl e)))) ↦
        reach_one
          (report agent job_id token seen.status to true (some (late_success_error seen)) clock) j _
          e
    | inr (inr (inr (inr (inr e)))) ↦
        reach_one (report agent job_id token seen.status to false error clock) j _ e
  ]
    where
      cases : Cases agent job_id token clock to error reason seen j
      cases = plan_report-Cases to error reason seen j

  plan_seen-Reaches :
      (to : Status) (error : Option Text) (reason : Text) (seen : Option Job) (j : Job)
      → Reaches j (plan_write (plan_seen agent job_id to error reason token clock seen) j)
  unfolding plan_seen
  plan_seen-Reaches to error reason none j = reach_none j
  plan_seen-Reaches to error reason (some seen) j = plan_report-Reaches to error reason seen j

carry_out-Evolves :
    (agent : Reporter) (job_id : Text) (plan : Plan) (later : Table)
    → ((j : Job) → Reaches j (plan_write plan j))
    → Evolves later (carry_out agent job_id plan later).0
unfolding carry_out
carry_out-Evolves agent job_id (refuse reply) later h = Evolves-refl later
carry_out-Evolves agent job_id (submit s hit miss) later h = execute-Evolves s later h

report_as-Evolves :
    (agent : Reporter) (job_id : Option Text) (to : Option Status) (body : ReportBody)
    (clock : Clock) (earlier later : Table)
    → Evolves later (report_as agent job_id to body clock earlier later).0
report_as-Evolves agent none to body clock earlier later = Evolves-refl later
report_as-Evolves agent (some job_id) none body clock earlier later = Evolves-refl later
report_as-Evolves agent (some job_id) (some to) body clock earlier later =
    carry_out-Evolves agent job_id _ later (
      plan_seen-Reaches agent job_id (parse_token body.claim_token) clock to
        (parse_error body.error) (parse_reason body.reason) (find_own agent job_id earlier))

pub report_status-Evolves :
    (agent : Reporter) (body : ReportBody) (clock : Clock) (earlier later : Table)
    → Evolves later (report_status agent body clock earlier later).0
unfolding report_status
report_status-Evolves agent body clock earlier later =
    report_as-Evolves agent (parse_job_id body.job_id) (parse_status body.status) body clock earlier
      later
