-- ===== src/Keys/JobLaws.antt =====
-- What the print API lets a key do and see.
use printer_repo.Prelude.{
  ℕ, ◌+◌, ◌≡◌, ◌<◌, ◌≤◌, refl, subst, inl, inr, Bool, true, false, ◌&&◌, List, [], ◌∷◌, Option,
  none, some, arith, any, filter, map, Bool-cases, All, All_mono,
}
use printer_repo.Prelude.Text.{Text, text_eq, trim}
use printer_repo.Job.Row.{Clock, Job, Table}
use printer_repo.Admission.{Store}
use printer_repo.Submit.Records.{Surroundings, Inventory}
use printer_repo.Console.Pages.{Occurs}
use printer_repo.Job.Insert.{NewJob}
use printer_repo.Admission.{created, insert_queued_job_atomically}
use printer_repo.Keys.{ApiKey, is_odoo_key_allowed_for_document_type}
use printer_repo.Keys.Jobs.{
  PrintRequest, PrintReply, known, JobResponse, response_for_row, find_job, existing_job,
  is_own_job, get_job, batch_status, may_read, by_id,
}

-- What a request that queued a job was let do.
abbrev pub IsGranted :
    Surroundings
    → (parse_date : Text → Option ℕ) → ApiKey
    → PrintRequest
    → Clock
    → Inventory
    → Store
    → JobResponse
    → Type 0
IsGranted env parse_date key request clock inventory store r =
    (is_odoo_key_allowed_for_document_type key (some request.document_type) true ≡ true)
    × (existing_job key request.idempotency_key store.jobs ≡ none)
    × ((n : NewJob) × ((insert_queued_job_atomically store n clock).1 ≡ created r.job_id)
        × (n.printer_id ≡ r.printer_id)
        × (n.agent_id ≡ r.agent_id)
        × (n.tenant_id ≡ key.tenant_id)
        × (n.api_key_id ≡ some key.id)
        × (n.document_type ≡ some request.document_type)
        × (n.idempotency_key ≡ request.idempotency_key)
        × (n.payload ≡ request.payload)
        × (clock.app_now < n.expires_at)
        × (n.expires_at ≤ clock.app_now + 86_400_000))

-- A job that the key submitted, of a type that it may read, as it stands in the table.
abbrev pub IsReadable : ApiKey → Table → JobResponse → Type 0
IsReadable key jobs r =
    (j : Job) × Occurs j jobs
    × (is_own_job key j ≡ true)
    × (is_odoo_key_allowed_for_document_type key j.document_type false ≡ true)
    × (r ≡ response_for_row j)

found_job :
    (test : Job → Bool) (jobs : Table) (j : Job)
    → find_job test jobs ≡ some j
    → Occurs j jobs × (test j ≡ true)
unfolding find_job
found_job test [] j h = absurd (ground arith)
found_job test (k ∷ ks) j h = elim (Bool-cases (test k)) [
  | inl t ↦
      let same : k ≡ j = some_inj (rw t at h) in
      (inl same, subst (λ (x : Job). test x ≡ true) same t)
  | inr t ↦ let (o, e) = found_job test ks j (rw t at h) in (inr o, e)
]
  where
    some_inj : {a b : Job} → some a ≡ some b → a ≡ b
    some_inj h = cc

read_one :
    (key : ApiKey) (test : Job → Bool) (jobs : Table) (found : Option Job) (r : JobResponse)
    → find_job test jobs ≡ found
    → ((j : Job) → test j ≡ true → is_own_job key j ≡ true)
    → may_read key found ≡ known r
    → IsReadable key jobs r
read_one key test jobs none r f own h = absurd (ground arith)
read_one key test jobs (some j) r f own h =
    elim (Bool-cases (is_odoo_key_allowed_for_document_type key j.document_type false)) [
      | inl allowed ↦
          let (o, t) = found_job test jobs j f in
          (j, o, own j t, allowed, known_inj (rw allowed at h))
      | inr denied ↦
          let odd : PrintReply.not_allowed ≡ known r = rw denied at h in absurd (ground arith)
    ]
  where
    known_inj : {a b : JobResponse} → known a ≡ known b → b ≡ a
    known_inj h = cc

read_id :
    (key : ApiKey) (id : Text) (jobs : Table) (r : JobResponse)
    → by_id key id jobs ≡ known r
    → IsReadable key jobs r
read_id key [] jobs r h = absurd (ground arith)
read_id key (c ∷ id) jobs r h =
    read_one key (λ j. text_eq j.id (c ∷ id) && is_own_job key j) jobs
      (find_job (λ j. text_eq j.id (c ∷ id) && is_own_job key j) jobs) r refl (λ j t. ground arith)
      h

All-Occurs : (jobs : Table) → All (λ j. Occurs j jobs) jobs
All-Occurs [] = tt
All-Occurs (j ∷ js) = (inl refl, All_mono _ _ (λ k o. inr o) js (All-Occurs js))

filter-own :
    (P : Job → Type 0) (test : Job → Bool) (jobs : Table)
    → All P jobs
    → All (λ j. P j × (test j ≡ true)) (filter test jobs)
filter-own P test [] h = tt
filter-own P test (j ∷ js) (h, hs) = elim (Bool-cases (test j)) [
  | inl e ↦ rw e ((h, e), filter-own P test js hs)
  | inr e ↦ rw e (filter-own P test js hs)
]

responses :
    (key : ApiKey) (jobs js : Table) (asked : Job → Bool)
    → ((j : Job) → asked j ≡ true → is_own_job key j ≡ true)
    → All
        (λ j.
          (Occurs j jobs × (asked j ≡ true))
          × (is_odoo_key_allowed_for_document_type key j.document_type false ≡ true))
        js
    → All (IsReadable key jobs) (map response_for_row js)
responses key jobs [] asked own h = tt
responses key jobs (j ∷ js) asked own (((o, a), t), hs) =
    ((j, o, own j a, t, refl), responses key jobs js asked own hs)

-- Whatever a key asks for, singly or in a batch, it is told only of jobs in the table that it submitted
-- itself under its tenant, of a document type that it may read, and of each just its own columns.
pub reads-IsReadable :
    (key : ApiKey) (jobs : Table) (ids : List Text)
    → ((id : Text) (r : JobResponse) → get_job (some key) id jobs ≡ known r → IsReadable key jobs r)
      × All (IsReadable key jobs) (batch_status key ids jobs)
unfolding get_job batch_status
reads-IsReadable key jobs ids = (
  λ id r h. read_id key (trim id) jobs r h,
  (let asked : Job → Bool = λ j. any (λ id. text_eq j.id id) ids && is_own_job key j in
      responses key jobs _ asked (λ j t. ground arith)
        (filter-own (λ j. Occurs j jobs × (asked j ≡ true))
          (λ (j : Job). is_odoo_key_allowed_for_document_type key j.document_type false)
          (filter asked jobs) (filter-own (λ j. Occurs j jobs) asked jobs (All-Occurs jobs)))),
)
