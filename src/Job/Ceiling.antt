-- ===== src/Job/Ceiling.antt =====
-- The ceiling on the live jobs of one agent, through both claim paths.
use printer_repo.Prelude.{
  ◌+◌, ◌≤◌, ◌≡◌, refl, Bool, true, false, not, ◌&&◌, ◌||◌, [], ◌∷◌, All, All_mono, any, filter,
  count, length, length-take-le, map, max, arith, Option,
}
use printer_repo.Prelude.Text.{Text, text_eq, text_eq_iff}
use printer_repo.Prelude.Count.{count-map-le, count_mono, count-or-le, All_of}
use printer_repo.Job.Status.{queued, ◌is◌}
use printer_repo.Job.Row.{Clock, Job, Fleet, Table, Statement, write, execute}
use printer_repo.Job.Delivery.{
  is_in_flight, claim_statement, tenant_of, then_claim, claim_job_for_delivery, is_claimable,
  runtime_ready,
}
use printer_repo.Job.Poll.{
  is_live, is_stale_candidate, is_queued_candidate, queued_batch, queued_limit, remaining_slots,
  sort_by_age, claimable_rows, poll_statement, poll_jobs, max_claim_batch,
}
use printer_repo.Job.Keys.{UniqueIds, Decides, any-Decides}
use printer_repo.Job.Claims.{claimable_rows-All, batch-Decides}

-- No two rows have one id.
count_id_zero :
    (i : Text) (j : Job) (js : Table)
    → text_eq j.id i ≡ true
    → All (λ (k : Job). text_eq j.id k.id ≡ false) js
    → count (λ (k : Job). text_eq k.id i) js ≡ 0
count_id_zero i j [] e h = refl
count_id_zero i j (k ∷ ks) e (n, h) =
    ground (
      arith,
      count_id_zero i j ks e h,
      text_eq_iff j.id i,
      text_eq_iff k.id i,
      text_eq_iff j.id k.id,
    )

count_id_le :
    (i : Text) (jobs : Table) → UniqueIds jobs → count (λ (k : Job). text_eq k.id i) jobs ≤ 1
count_id_le i [] u = omega arith
count_id_le i (j ∷ js) (n, u) =
    ground (arith, count_id_le i js u, λ (e : text_eq j.id i ≡ true). count_id_zero i j js e n)

count_ids_le :
    (cs jobs : Table)
    → UniqueIds jobs
    → count (λ (j : Job). any (λ (c : Job). text_eq j.id c.id) cs) jobs ≤ length cs
count_ids_le [] jobs u = omega (arith, count_none jobs)
  where
    count_none : (js : Table) → count (λ (j : Job). false) js ≡ 0
    count_none [] = refl
    count_none (j ∷ js) = count_none js
count_ids_le (c ∷ cs) jobs u = omega (
  arith,
  count-or-le (λ (j : Job). text_eq j.id c.id)
      (λ (j : Job). any (λ (d : Job). text_eq j.id d.id) cs) jobs,
  count_id_le c.id jobs u,
  count_ids_le cs jobs u,
)

write_counted :
    (p q : Job → Bool) (s : Statement) (j : Job)
    → (s.matches j ≡ true → (p j || q j) ≡ true)
    → p (write s j) ≡ true
    → (p j || (s.matches j && q j)) ≡ true
write_counted p q s j h e = ground arith

Decides-self :
    (jobs cs : Table) → All (Decides (λ (j : Job). any (λ (c : Job). text_eq j.id c.id) cs) jobs) cs
Decides-self jobs [] = tt
Decides-self jobs (c ∷ cs) = (
  All_of _ jobs (λ j e. ground arith),
  All_mono _ _ (λ d h. All_mono _ _ (λ j g e. ground (arith, g e)) jobs h) cs
      (Decides-self jobs cs),
)

module _ (fleet : Fleet) (agent_id : Text) (clock : Clock) (jobs : Table)
    (unique : UniqueIds jobs) where
  claim_one :
      (p : Job → Bool) (job_id : Text) (tenant : Option Text) (token : Text)
      → let s = claim_statement job_id agent_id tenant clock token in
        count p (map (write s) jobs) ≤ count p jobs + 1
  unfolding claim_statement
  claim_one p job_id tenant token =
      let s = claim_statement job_id agent_id tenant clock token in
      omega (
        arith,
        count-map-le p s.matches (write s) jobs (All_of _ jobs (λ j h. ground arith)),
        count_mono s.matches (λ (j : Job). text_eq j.id job_id) jobs
            (All_of _ jobs (λ j h. ground arith)),
        count_id_le job_id jobs unique,
      )

  then_claim_one :
      (p : Job → Bool) (job_id : Text) (tenant : Option Text) (token : Text) (locked : Table)
      → count p (then_claim (claim_statement job_id agent_id tenant clock token) jobs locked).0
        ≤ count p jobs + 1
  unfolding execute
  then_claim_one p job_id tenant token [] = omega arith
  then_claim_one p job_id tenant token (l ∷ ls) = claim_one p job_id tenant token

  -- A push never takes an agent past its ceiling of live jobs: the count that the claim itself makes
  -- is afterwards at most 500, or what it was before.
  pub claim_job_for_delivery-ceiling :
      (lockable : Job → Bool) (job_id token : Text)
      → count
          (is_in_flight fleet agent_id clock)
          (claim_job_for_delivery fleet lockable job_id agent_id clock token jobs).0
        ≤ max 500 (count (is_in_flight fleet agent_id clock) jobs)
  unfolding claim_job_for_delivery
  claim_job_for_delivery-ceiling lockable job_id token = ground (
    arith,
    then_claim_one (is_in_flight fleet agent_id clock) job_id (tenant_of agent_id fleet.agents)
        token
        (filter (λ j. is_claimable job_id agent_id clock j && runtime_ready fleet j && lockable j)
          jobs),
  )

  batch : (Job → Bool) → Table
  batch lockable = claimable_rows fleet lockable agent_id clock jobs

  fresh : Table
  fresh = queued_batch fleet agent_id clock (queued_limit fleet agent_id clock jobs) jobs

  named : Table → Job → Bool
  named cs j = any (λ (c : Job). text_eq j.id c.id) cs

  -- A row of the batch was live before, or is queued.
  batch-live :
      (lockable : Job → Bool)
      → All
          (λ (j : Job).
            named (batch lockable) j ≡ true
            → (is_live fleet agent_id clock j || j.status is queued) ≡ true)
          jobs
  unfolding batch named is_stale_candidate is_queued_candidate is_live
  batch-live lockable =
      let test = λ (j : Job). is_live fleet agent_id clock j || j.status is queued in
      let limit = queued_limit fleet agent_id clock jobs in
      any-Decides test jobs _ (
        claimable_rows-All fleet lockable agent_id clock jobs (Decides test jobs)
          (batch-Decides fleet lockable agent_id clock jobs
            (is_stale_candidate fleet agent_id clock) test max_claim_batch (λ j h. ground arith)
            unique)
          (batch-Decides fleet lockable agent_id clock jobs
            (is_queued_candidate fleet agent_id clock limit) test limit (λ j h. ground arith)
            unique))

  -- A queued row of the batch is one of the queued candidates.
  batch-fresh :
      (lockable : Job → Bool)
      → All
          (λ (j : Job).
            named (batch lockable) j ≡ true → (not (j.status is queued) || named fresh j) ≡ true)
          jobs
  unfolding batch named fresh is_stale_candidate
  batch-fresh lockable =
      let test = λ (j : Job). not (j.status is queued) || named fresh j in
      any-Decides test jobs _ (
        claimable_rows-All fleet lockable agent_id clock jobs (Decides test jobs)
          (batch-Decides fleet lockable agent_id clock jobs
            (is_stale_candidate fleet agent_id clock) test max_claim_batch (λ j h. ground arith)
            unique)
          (All_mono _ _ (λ c d. All_mono _ _ (λ j h m. ground (arith, h m)) jobs d) fresh
            (Decides-self jobs fresh)))

  poll_count :
      (lockable : Job → Bool) (mint : Text → Text)
      → count (is_live fleet agent_id clock) (poll_jobs fleet lockable agent_id clock mint jobs).0
        ≤ count (is_live fleet agent_id clock) jobs
          + count (λ (j : Job). named (batch lockable) j && j.status is queued) jobs
  unfolding poll_jobs poll_statement execute batch named
  poll_count lockable mint =
      let s = poll_statement (batch lockable) clock mint in
      count-map-le (is_live fleet agent_id clock)
        (λ (j : Job). named (batch lockable) j && j.status is queued) (write s) jobs
        (All_mono _ _
          (λ j d h. write_counted (is_live fleet agent_id clock) (λ k. k.status is queued) s j d h)
          jobs (batch-live lockable))

  fresh_count :
      (lockable : Job → Bool)
      → count (λ (j : Job). named (batch lockable) j && j.status is queued) jobs
        ≤ remaining_slots fleet agent_id clock jobs
  unfolding named fresh
  fresh_count lockable = omega (
    arith,
    count_mono (λ (j : Job). named (batch lockable) j && j.status is queued) (named fresh) jobs
        (All_mono _ _ (λ j d h. ground (arith, d)) jobs (batch-fresh lockable)),
    count_ids_le fresh jobs unique,
    length-take-le (queued_limit fleet agent_id clock jobs) (
        sort_by_age (
          filter (is_queued_candidate fleet agent_id clock (queued_limit fleet agent_id clock jobs))
            jobs)),
  )

  -- A poll, which takes over stale claims and claims queued jobs in one statement, never takes an
  -- agent past its ceiling either.
  pub poll_jobs-ceiling :
      (lockable : Job → Bool) (mint : Text → Text)
      → count (is_live fleet agent_id clock) (poll_jobs fleet lockable agent_id clock mint jobs).0
        ≤ max 500 (count (is_live fleet agent_id clock) jobs)
  unfolding remaining_slots
  poll_jobs-ceiling lockable mint = omega (arith, poll_count lockable mint, fresh_count lockable)
