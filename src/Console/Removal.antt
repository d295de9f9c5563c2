-- ===== src/Console/Removal.antt =====
-- What a clean-up removes.
use printer_repo.Prelude.{
  ℕ, suc, ◌≡◌, ◌≤◌, refl, subst, ◌⊎◌, inl, inr, Bool, true, false, not, [], ◌∷◌, arith, any, leb,
  Bool-cases, length, length-take-le, All, All_mono, All-take, take, filter, count,
}
use printer_repo.Prelude.Count.{count-or-le, count_mono, All_of}
use printer_repo.Prelude.Text.{Text, text_eq, text_eq_refl, text_eq_sound}
use printer_repo.Job.Row.{Job, Table}
use printer_repo.Job.Poll.{insert_by_age, sort_by_age}
use printer_repo.Job.Keys.{UniqueIds, any-Decides, filter-Decides}
use printer_repo.Job.Claims.{All-sort_by_age}
use printer_repo.Console.Cleanup.{is_cleanup_candidate, cleanup_candidates, is_deleted, delete_old}

same_id : Text → Job → Bool
same_id id j = text_eq j.id id

count_absent :
    (id : Text) (jobs : Table)
    → All (λ (k : Job). text_eq id k.id ≡ false) jobs
    → count (same_id id) jobs ≡ 0
unfolding same_id
count_absent id [] h = refl
count_absent id (j ∷ js) (n, h) =
    ground (arith, count_absent id js h, text_eq_sound j.id id, text_eq_refl id)

-- At most one row has an id.
count_id : (id : Text) (jobs : Table) → UniqueIds jobs → count (same_id id) jobs ≤ 1
unfolding same_id
count_id id [] u = omega arith
count_id id (j ∷ js) (n, u) = elim (Bool-cases (text_eq j.id id)) [
  | inl same ↦
      let moved : All (λ (k : Job). text_eq id k.id ≡ false) js =
        subst (λ (t : Text). All (λ (k : Job). text_eq t k.id ≡ false) js)
          (text_eq_sound j.id id same) n in
      let none_left : count (same_id id) js ≡ 0 = count_absent id js moved in rw same (omega arith)
  | inr other ↦ rw other (count_id id js u)
]

count_nothing : (jobs : Table) → count (λ j. false) jobs ≡ 0
count_nothing [] = refl
count_nothing (j ∷ js) = count_nothing js

-- A list of ids names at most as many rows as it is long.
count_named :
    (jobs cs : Table)
    → UniqueIds jobs
    → count (λ j. any (λ (c : Job). text_eq j.id c.id) cs) jobs ≤ length cs
unfolding same_id
count_named jobs [] u = omega (arith, count_nothing jobs)
count_named jobs (c ∷ cs) u = omega (
  arith,
  count-or-le (same_id c.id) (λ j. any (λ (d : Job). text_eq j.id d.id) cs) jobs,
  count_id c.id jobs u,
  count_named jobs cs u,
)

-- The older come first.
abbrev InOrder : Table → Type 0
InOrder [] = Unit
InOrder (j ∷ js) = All (λ (k : Job). j.created_at ≤ k.created_at) js × InOrder js

All-insert : (P : Job → Type 0) (j : Job) (js : Table) → P j → All P js → All P (insert_by_age j js)
unfolding insert_by_age
All-insert P j [] p h = (p, tt)
All-insert P j (k ∷ ks) p (q, h) = elim (Bool-cases (leb j.created_at k.created_at)) [
  | inl e ↦ rw e (p, (q, h))
  | inr e ↦ rw e (q, All-insert P j ks p h)
]

insert-InOrder : (j : Job) (js : Table) → InOrder js → InOrder (insert_by_age j js)
unfolding insert_by_age
insert-InOrder j [] o = (tt, tt)
insert-InOrder j (k ∷ ks) (h, o) = elim (Bool-cases (leb j.created_at k.created_at)) [
  | inl e ↦ rw e (
    (ground arith, All_mono _ _ (λ (x : Job) (q : k.created_at ≤ x.created_at). ground arith) ks h),
    (h, o),
  )
  | inr e ↦ rw e (All-insert _ j ks (ground arith) h, insert-InOrder j ks o)
]

sort-InOrder : (js : Table) → InOrder (sort_by_age js)
unfolding sort_by_age
sort-InOrder [] = tt
sort-InOrder (j ∷ js) = insert-InOrder j (sort_by_age js) (sort-InOrder js)

All-uninsert :
    (P : Job → Type 0) (j : Job) (js : Table) → All P (insert_by_age j js) → P j × All P js
unfolding insert_by_age
All-uninsert P j [] (p, t) = (p, tt)
All-uninsert P j (k ∷ ks) h = elim (Bool-cases (leb j.created_at k.created_at)) [
  | inl e ↦ rw e at h
  | inr e ↦
      let (q, r) : P k × All P (insert_by_age j ks) = rw e at h in
      let (p, rest) = All-uninsert P j ks r in (p, (q, rest))
]

-- What holds of all sorted rows holds of all rows.
All-unsort : (P : Job → Type 0) (js : Table) → All P (sort_by_age js) → All P js
unfolding sort_by_age
All-unsort P [] h = tt
All-unsort P (j ∷ js) h =
    let (p, rest) = All-uninsert P j (sort_by_age js) h in (p, All-unsort P js rest)

-- A row is among the first, or no older than any of them.
abbrev pub IsFirstOrYounger : Table → Job → Type 0
IsFirstOrYounger first x =
    (any (λ (c : Job). text_eq x.id c.id) first ≡ true)
    ⊎ All (λ (c : Job). c.created_at ≤ x.created_at) first

first_or_younger : (n : ℕ) (js : Table) → InOrder js → All (IsFirstOrYounger (take n js)) js
first_or_younger ℕ.zero js o = All_of _ js (λ x. inr tt)
first_or_younger (suc n) [] o = tt
first_or_younger (suc n) (j ∷ js) (h, o) =
    (inl (rw (text_eq_refl j.id) refl), both js h (first_or_younger n js o))
  where
    both :
        (xs : Table)
        → All (λ (k : Job). j.created_at ≤ k.created_at) xs
        → All (IsFirstOrYounger (take n js)) xs
        → All (IsFirstOrYounger (j ∷ take n js)) xs
    both [] a b = tt
    both (x ∷ xs) (a, as') (inl m, bs) = (inl (ground arith), both xs as' bs)
    both (x ∷ xs) (a, as') (inr m, bs) = (inr (a, m), both xs as' bs)

All-unfilter :
    (P : Job → Type 0) (test : Job → Bool) (jobs : Table)
    → All P (filter test jobs)
    → All (λ j. test j ≡ true → P j) jobs
All-unfilter P test [] h = tt
All-unfilter P test (j ∷ js) h = elim (Bool-cases (test j)) [
  | inl e ↦
      let (p, rest) : P j × All P (filter test js) = rw e at h in
      ((λ _. p), All-unfilter P test js rest)
  | inr e ↦ ((λ t. absurd (ground arith)), All-unfilter P test js (rw e at h))
]

-- The rows that a clean-up deletes.
abbrev pub is_removed : Text → ℕ → ℕ → Table → Job → Bool
is_removed tenant_id before limit jobs =
    is_deleted tenant_id (cleanup_candidates tenant_id before limit jobs)

own_candidate :
    (tenant_id : Text) (before : ℕ) (j : Job)
    → is_cleanup_candidate tenant_id before j ≡ true
    → text_eq j.tenant_id tenant_id ≡ true
unfolding is_cleanup_candidate
own_candidate tenant_id before j h = ground arith

-- A clean-up keeps every row but those it deletes. It deletes no more than the limit, and only finished
-- jobs of the manager's tenant that are older than the given time; such a job is deleted, or no job that
-- was deleted is younger.
pub delete_old-IsSafe :
    (tenant_id : Text) (before limit : ℕ) (jobs : Table)
    → UniqueIds jobs
    → ((delete_old tenant_id before limit jobs).0
        ≡ filter (λ j. not (is_removed tenant_id before limit jobs j)) jobs)
      × ((delete_old tenant_id before limit jobs).1 ≤ limit)
      × All
          (λ j.
            is_removed tenant_id before limit jobs j ≡ true
            → is_cleanup_candidate tenant_id before j ≡ true)
          jobs
      × All
          (λ j.
            is_cleanup_candidate tenant_id before j ≡ true
            → (is_removed tenant_id before limit jobs j ≡ true)
              ⊎ All
                  (λ (c : Job). c.created_at ≤ j.created_at)
                  (cleanup_candidates tenant_id before limit jobs))
          jobs
unfolding delete_old is_deleted cleanup_candidates
delete_old-IsSafe tenant_id before limit jobs u =
    let candidate = is_cleanup_candidate tenant_id before in
    let first = take limit (sort_by_age (filter candidate jobs)) in
    let named : Job → Bool = λ j. any (λ (c : Job). text_eq j.id c.id) first in
    (
      refl,
      omega (
        arith,
        count_mono (is_deleted tenant_id first) named jobs (All_of _ jobs (λ j h. ground arith)),
        count_named jobs first u,
        length-take-le limit (sort_by_age (filter candidate jobs)),
      ),
      All_mono _ _ (λ j d h. d (ground arith)) jobs
          (any-Decides candidate jobs first
            (All-take _ limit _ (All-sort_by_age _ _ (filter-Decides candidate jobs u)))),
      All_mono _ _ (λ j f c. decide j (f c) c) jobs
          (All-unfilter _ candidate jobs (
            All-unsort _ (filter candidate jobs) (
              first_or_younger limit (sort_by_age (filter candidate jobs))
                (sort-InOrder (filter candidate jobs))))),
    )
  where
    decide :
        (j : Job)
        → IsFirstOrYounger
            (take limit (sort_by_age (filter (is_cleanup_candidate tenant_id before) jobs)))
            j
        → is_cleanup_candidate tenant_id before j ≡ true
        → (is_deleted tenant_id
              (take limit (sort_by_age (filter (is_cleanup_candidate tenant_id before) jobs)))
              j
            ≡ true)
          ⊎ All
              (λ (c : Job). c.created_at ≤ j.created_at)
              (take limit (sort_by_age (filter (is_cleanup_candidate tenant_id before) jobs)))
    decide j (inl m) c = inl (ground (arith, own_candidate tenant_id before j))
    decide j (inr m) c = inr m
