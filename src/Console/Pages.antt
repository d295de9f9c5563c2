-- ===== src/Console/Pages.antt =====
-- Whose jobs the lists hold, how many, and that the two lists agree.
use mathlib.Core.Path.{fun_ext}
use printer_repo.Prelude.{
  ℕ, suc, ◌≡◌, ◌≤◌, refl, ◌⊎◌, inl, inr, Bool, true, false, not, ◌&&◌, List, [], ◌∷◌, Option, none,
  some, arith, leb, Bool-cases, if_elim, or_else, length, length-take-le, All, All-take, All_mono,
  map, take, filter, max,
}
use printer_repo.Prelude.Text.{Text, text, text_eq, text_eq_sound}
use printer_repo.Managers.Token.{ManagerClaims}
use printer_repo.Job.Row.{Job, Fleet, Table}
use printer_repo.Console.Roles.{has_manager_permission}
use printer_repo.Console.Listing

-- The job is in the table.
abbrev pub Occurs : Job → Table → Type 0
Occurs j [] = ⊥
Occurs j (k ∷ ks) = (k ≡ j) ⊎ Occurs j ks

All-Occurs : (jobs : Table) → All (λ j. Occurs j jobs) jobs
All-Occurs [] = tt
All-Occurs (j ∷ js) = (inl refl, All_mono _ _ (λ k o. inr o) js (All-Occurs js))

filter-own :
    (P : Job → Type 0) (test : Job → Bool) (jobs : Table)
    → All P jobs
    → All (λ j. P j × (test j ≡ true)) (filter test jobs)
filter-own P test [] h = tt
filter-own P test (j ∷ js) (h, hs) = elim (Bool-cases (test j)) [
  | inl e ↦ rw e ((h, e), filter-own P test js hs)
  | inr e ↦ rw e (filter-own P test js hs)
]

All-insert_newest :
    (P : Job → Type 0) (j : Job) (js : Table) → P j → All P js → All P (Listing.insert_newest j js)
unfolding Listing.insert_newest
All-insert_newest P j [] p h = (p, tt)
All-insert_newest P j (k ∷ ks) p (q, h) = elim (Bool-cases (leb k.created_at j.created_at)) [
  | inl e ↦ rw e (p, (q, h))
  | inr e ↦ rw e (q, All-insert_newest P j ks p h)
]

All-newest_first : (P : Job → Type 0) (js : Table) → All P js → All P (Listing.newest_first js)
unfolding Listing.newest_first
All-newest_first P [] h = tt
All-newest_first P (j ∷ js) (p, h) =
    All-insert_newest P j (Listing.newest_first js) p (All-newest_first P js h)

All-skip_rows : (P : Job → Type 0) (n : ℕ) (js : Table) → All P js → All P (Listing.skip_rows n js)
unfolding Listing.skip_rows
All-skip_rows P ℕ.zero js h = h
All-skip_rows P (suc n) [] h = tt
All-skip_rows P (suc n) (j ∷ js) (p, h) = All-skip_rows P n js h

All-listed :
    (P : Job → Type 0) (js : Table)
    → All P js
    → All
        (λ (r : Listing.ListedJob). (j : Job) × P j × (r ≡ Listing.listed j))
        (map Listing.listed js)
All-listed P [] h = tt
All-listed P (j ∷ js) (p, h) = ((j, p, refl), All-listed P js h)

length-map : (js : Table) → length (map Listing.listed js) ≡ length js
length-map [] = refl
length-map (j ∷ js) = omega (arith, length-map js)

-- At most as many rows as a bound allows, if there is one.
abbrev pub IsWithin : Option ℕ → List Listing.ListedJob → Type 0
IsWithin none rows = Unit
IsWithin (some n) rows = length rows ≤ n

-- The jobs of an answer are within the bound, all in the table and all of the tenant.
abbrev pub IsOwnList : (bound : Option ℕ) → Text → Table → Listing.ListReply → Type 0
IsOwnList bound tenant_id table (Listing.jobs rows) =
    IsWithin bound rows
    × All
        (λ (r : Listing.ListedJob).
          (j : Job) × (Occurs j table × (j.tenant_id ≡ tenant_id)) × (r ≡ Listing.listed j))
        rows
IsOwnList bound tenant_id table _ = Unit

-- The limit is no more than the bound.
abbrev Fits : (limit bound : Option ℕ) → Type 0
Fits limit none = Unit
Fits none (some n) = ⊥
Fits (some m) (some n) = m ≤ n

limited-IsWithin :
    (limit bound : Option ℕ) (js : Table)
    → Fits limit bound
    → IsWithin bound (map Listing.listed (Listing.limited limit js))
limited-IsWithin limit none js h = tt
limited-IsWithin none (some n) js h = absurd h
limited-IsWithin (some m) (some n) js h =
    omega (arith, h, length-map (take m js), length-take-le m js)

All-limited :
    (P : Job → Type 0) (limit : Option ℕ) (js : Table) → All P js → All P (Listing.limited limit js)
All-limited P none js h = h
All-limited P (some n) js h = All-take P n js h

All-mine :
    (tenant_id : Text) (test : Job → Bool) (table : Table)
    → ((j : Job) → test j ≡ true → text_eq j.tenant_id tenant_id ≡ true)
    → (rows : List Listing.ListedJob)
    → All
        (λ (r : Listing.ListedJob).
          (j : Job) × (Occurs j table × (test j ≡ true)) × (r ≡ Listing.listed j))
        rows
    → All
        (λ (r : Listing.ListedJob).
          (j : Job) × (Occurs j table × (j.tenant_id ≡ tenant_id)) × (r ≡ Listing.listed j))
        rows
All-mine tenant_id test table own rows h =
    All_mono _ _ (λ r (j, (o, t), e). (j, (o, text_eq_sound j.tenant_id tenant_id (own j t)), e))
      rows h

page-IsOwnList :
    (tenant_id : Text) (limit bound : Option ℕ) (offset : ℕ) (test : Job → Bool) (table : Table)
    → Fits limit bound
    → ((j : Job) → test j ≡ true → text_eq j.tenant_id tenant_id ≡ true)
    → IsOwnList bound tenant_id table (Listing.jobs (Listing.page limit offset test table))
page-IsOwnList tenant_id limit bound offset test table fits own =
    let sorted = Listing.skip_rows offset (Listing.newest_first (filter test table)) in
    let rows = All-listed _ (Listing.limited limit sorted) (
      All-limited _ limit sorted (
        All-skip_rows _ offset (Listing.newest_first (filter test table))
          (All-newest_first _ (filter test table) (filter-own _ test table (All-Occurs table))))) in
    (
      limited-IsWithin limit bound sorted fits,
      All-mine tenant_id test table own (Listing.page limit offset test table) rows,
    )

unless_own :
    (bound : Option ℕ) (tenant_id role : Text) (table : Table) (status : Option Text)
    (next : Listing.ListReply)
    → IsOwnList bound tenant_id table next
    → IsOwnList bound tenant_id table
        (Listing.unless_refused (Listing.list_refusal role status) next)
unfolding Listing.list_refusal
unless_own bound tenant_id role table status next h =
    if_elim
      (λ (o : Option Listing.ListReply).
        IsOwnList bound tenant_id table (Listing.unless_refused o next))
      (not (has_manager_permission role (text "jobs.read"))) _ _ (λ _. tt)
      (λ _.
        if_elim
          (λ (o : Option Listing.ListReply).
            IsOwnList bound tenant_id table (Listing.unless_refused o next))
          (Listing.is_bad_filter status) _ _ (λ _. tt) (λ _. h))

-- What a limit lets be listed: no more than 200 jobs, but for the limits that limit nothing.
abbrev pub list_bound : Listing.Parsed → Option ℕ
list_bound (Listing.minus (suc n)) = none
list_bound _ = some 200

abbrev pub dashboard_bound : Option Listing.Parsed → Option ℕ
dashboard_bound (some Listing.nan) = none
dashboard_bound _ = some 200

list_limit-Fits : (p : Listing.Parsed) → Fits (Listing.list_limit p) (list_bound p)
unfolding Listing.list_limit
list_limit-Fits Listing.nan = omega arith
list_limit-Fits (Listing.whole ℕ.zero) = omega arith
list_limit-Fits (Listing.whole (suc m)) = ground arith
list_limit-Fits (Listing.minus ℕ.zero) = omega arith
list_limit-Fits (Listing.minus (suc m)) = tt

dashboard_limit-Fits :
    (limit : Option Listing.Parsed) → Fits (Listing.dashboard_limit limit) (dashboard_bound limit)
unfolding Listing.dashboard_limit
dashboard_limit-Fits none = omega arith
dashboard_limit-Fits (some (Listing.whole n)) = ground arith
dashboard_limit-Fits (some (Listing.minus n)) = omega arith
dashboard_limit-Fits (some Listing.nan) = tt

listed_tenant :
    (fleet : Fleet) (tenant_id : Text) (status wanted : Option Text) (j : Job)
    → Listing.is_listed fleet tenant_id status wanted j ≡ true
    → text_eq j.tenant_id tenant_id ≡ true
unfolding Listing.is_listed
listed_tenant fleet tenant_id status wanted j h = ground arith

asked_tenant :
    (fleet : Fleet) (tenant_id : Text) (query : Listing.ListQuery) (j : Job)
    → Listing.is_asked fleet tenant_id query j ≡ true
    → text_eq j.tenant_id tenant_id ≡ true
unfolding Listing.is_asked
asked_tenant fleet tenant_id query j h = ground (
  arith,
  listed_tenant fleet tenant_id (Listing.wanted_status query.status)
      (Listing.trimmed (Listing.either query.search query.q)) j,
)

-- Whatever the parameters, a manager is shown jobs in the table only, of the manager's own tenant, with
-- their columns as they are: by the route as by the server action. They are at most 200, unless the limit
-- of the route is negative, or that of the action is not a number.
pub list-IsOwnList :
    (claims : ManagerClaims) (fleet : Fleet) (query : Listing.ListQuery)
    (options : Listing.DashboardOptions) (table : Table)
    → IsOwnList
        (list_bound (Listing.parse_int (or_else query.limit (text "50"))))
        claims.tenant_id
        table
        (Listing.list_jobs (some claims) fleet query table)
      × IsOwnList
          (dashboard_bound options.limit)
          claims.tenant_id
          table
          (Listing.get_dashboard_jobs (some claims) fleet options table)
unfolding Listing.list_jobs Listing.get_dashboard_jobs
list-IsOwnList claims fleet query options table =
    let limit = Listing.parse_int (or_else query.limit (text "50")) in
    (
      unless_own (list_bound limit) claims.tenant_id claims.role table
          (Listing.wanted_status query.status) _
          (page-IsOwnList claims.tenant_id (Listing.list_limit limit) (list_bound limit)
            (Listing.list_offset (Listing.parse_int (or_else query.offset (text "0"))))
            (Listing.is_asked fleet claims.tenant_id query) table (list_limit-Fits limit)
            (asked_tenant fleet claims.tenant_id query)),
      unless_own (dashboard_bound options.limit) claims.tenant_id claims.role table
          (Listing.wanted_status options.status) _
          (page-IsOwnList claims.tenant_id (Listing.dashboard_limit options.limit)
            (dashboard_bound options.limit) (Listing.dashboard_offset options.offset)
            (Listing.is_listed fleet claims.tenant_id (Listing.wanted_status options.status)
              (Listing.trimmed options.search))
            table (dashboard_limit-Fits options.limit)
            (listed_tenant fleet claims.tenant_id (Listing.wanted_status options.status)
              (Listing.trimmed options.search))),
    )

dropped_tests : (b : Bool) → (b && true && true) ≡ b
dropped_tests true = refl
dropped_tests false = refl

asked_listed :
    (fleet : Fleet) (tenant_id : Text) (query : Listing.ListQuery) (status wanted : Option Text)
    → query.status ≡ status
    → Listing.either query.search query.q ≡ wanted
    → query.printer_id ≡ none
    → query.agent_id ≡ none
    → Listing.is_asked fleet tenant_id query
      ≡ Listing.is_listed fleet tenant_id (Listing.wanted_status status) (Listing.trimmed wanted)
unfolding Listing.is_asked
asked_listed fleet tenant_id query status wanted s w p a =
    fun_ext (λ j. rw (s, w, p, a) (dropped_tests _))

-- The route and the server action give the same answer to the same question: the same status, search,
-- limit and offset, and neither a printer nor an agent asked for.
pub list-dashboard :
    (claims : ManagerClaims) (fleet : Fleet) (query : Listing.ListQuery) (table : Table)
    (status wanted : Option Text) (n offset : ℕ)
    → query.status ≡ status
    → Listing.either query.search query.q ≡ wanted
    → query.printer_id ≡ none
    → query.agent_id ≡ none
    → Listing.parse_int (or_else query.limit (text "50")) ≡ Listing.whole (suc n)
    → Listing.parse_int (or_else query.offset (text "0")) ≡ Listing.whole offset
    → Listing.list_jobs (some claims) fleet query table
      ≡ Listing.get_dashboard_jobs
          (some claims)
          fleet
          (record {
            status = status;
            search = wanted;
            limit = some (Listing.whole (suc n));
            offset = some (Listing.whole offset);
          })
          table
unfolding Listing.list_jobs Listing.get_dashboard_jobs Listing.list_limit Listing.list_offset
    Listing.dashboard_limit Listing.dashboard_offset
list-dashboard claims fleet query table status wanted n offset s w p a l o =
    let positive : max (suc n) 1 ≡ suc n = omega arith in
    rw (l, o, asked_listed fleet claims.tenant_id query status wanted s w p a, s, positive) refl
