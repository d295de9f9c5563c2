-- ===== src/Job/Keys.antt =====
-- `id` is the primary key of `print_jobs`: what a table with distinct ids lets one conclude from a
-- test on the id.
use printer_repo.Prelude.{
  ◌≡◌, sym, Bool, true, false, [], ◌∷◌, All, All_mono, All-filter, any, filter, arith, inl, inr,
  Bool-cases,
}
use printer_repo.Prelude.Text.{Text, text_eq, text_eq_iff}
use printer_repo.Job.Row.{Job, Table, Statement, execute}

abbrev pub UniqueIds : Table → Type 0
UniqueIds [] = Unit
UniqueIds (j ∷ js) = All (λ (k : Job). text_eq j.id k.id ≡ false) js × UniqueIds js

-- Row by row.
abbrev pub Pairwise : (Job → Job → Type 0) → Table → Table → Type 0
Pairwise R [] [] = Unit
Pairwise R (x ∷ xs) (y ∷ ys) = R x y × Pairwise R xs ys
Pairwise R _ _ = ⊥

pub execute-Pairwise :
    (R : Job → Job → Type 0) (s : Statement) (jobs : Table)
    → ((j : Job) → R j j)
    → All (λ j. s.matches j ≡ true → R j (s.set_row j)) jobs
    → Pairwise R jobs (execute s jobs).0
unfolding execute
execute-Pairwise R s [] same h = tt
execute-Pairwise R s (j ∷ js) same (h, hs) = elim (Bool-cases (s.matches j)) [
  | inl e ↦ rw e (h e, execute-Pairwise R s js same hs)
  | inr e ↦ rw e (same j, execute-Pairwise R s js same hs)
]

text_eq_comm : (a b : Text) → text_eq a b ≡ true → text_eq b a ≡ true
text_eq_comm a b h = (text_eq_iff b a).1 (sym ((text_eq_iff a b).0 h))

-- Every row of the table with `c`'s id passes the test.
abbrev pub Decides : (Job → Bool) → Table → Job → Type 0
Decides test jobs c = All (λ (j : Job). text_eq j.id c.id ≡ true → test j ≡ true) jobs

others :
    (test : Job → Bool) (j : Job) (js : Table)
    → All (λ (k : Job). text_eq j.id k.id ≡ false) js
    → All (λ (k : Job). text_eq k.id j.id ≡ true → test k ≡ true) js
others test j js h = All_mono _ _ (λ k e m. absurd (ground (arith, text_eq_comm k.id j.id m))) js h

add_head :
    (test : Job → Bool) (j : Job) (js cs : Table)
    → All (λ (k : Job). text_eq j.id k.id ≡ false) cs
    → All (Decides test js) cs
    → All (Decides test (j ∷ js)) cs
add_head test j js [] h d = tt
add_head test j js (c ∷ cs) (n, h) (d, ds) =
    (((λ m. absurd (ground arith)), d), add_head test j js cs h ds)

-- A row that a query returned decides its test for every row with its id.
pub filter-Decides :
    (test : Job → Bool) (jobs : Table) → UniqueIds jobs → All (Decides test jobs) (filter test jobs)
filter-Decides test [] u = tt
filter-Decides test (j ∷ js) (n, u) = elim (Bool-cases (test j)) [
  | inl e ↦ rw e (
    ((λ _. e), others test j js n),
    add_head test j js (filter test js) (All-filter _ test js n) (filter-Decides test js u),
  )
  | inr e ↦
      rw e (add_head test j js (filter test js) (All-filter _ test js n) (filter-Decides test js u))
]

pub filter_sound :
    (test : Job → Bool) (jobs : Table) → All (λ (c : Job). test c ≡ true) (filter test jobs)
filter_sound test [] = tt
filter_sound test (j ∷ js) = ground (arith, filter_sound test js)

-- The test `id IN (…)` over rows that decide a test.
pub any-Decides :
    (test : Job → Bool) (jobs cs : Table)
    → All (Decides test jobs) cs
    → All (λ (j : Job). any (λ (c : Job). text_eq j.id c.id) cs ≡ true → test j ≡ true) jobs
any-Decides test [] cs d = tt
any-Decides test (j ∷ js) cs d =
    (head_decides cs d, any-Decides test js cs (All_mono _ _ (λ c h. h.1) cs d))
  where
    head_decides :
        (cs : Table)
        → All (Decides test (j ∷ js)) cs
        → any (λ (c : Job). text_eq j.id c.id) cs ≡ true
        → test j ≡ true
    head_decides [] d m = absurd (ground arith)
    head_decides (c ∷ cs) (h, d) m = ground (arith, head_decides cs d)
