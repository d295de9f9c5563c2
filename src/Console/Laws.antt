-- ===== src/Console/Laws.antt =====
-- What the job lists show and hide.
use printer_repo.Prelude.{
  ◌≡◌, refl, inl, inr, Bool, true, false, not, ◌&&◌, List, [], ◌∷◌, Option, none, some, arith, any,
  leb, ◌==◌, Bool-cases, All,
}
use printer_repo.Prelude.Text.{Text, text, text_eq, starts_with}
use printer_repo.Job.Status.{
  Status, failed, unknown, physical_outcome_unknown_markers, has_marker, derive_physical_outcome,
}
use printer_repo.Job.Row.{Job, Fleet}
use printer_repo.Console.Like.{like}
use printer_repo.Console.Listing

-- A pattern of plain units and single-character wildcards.
is_plain : Text → Bool
is_plain [] = true
is_plain (c ∷ s) =
    not (c == 92) && not (c == b'%') && not (leb 0xd800 c && leb c 0xdbff) && is_plain s

-- A text that starts with the plain units is like them with a `%` behind, since `_` takes itself.
like-of-starts_with :
    (m s : Text)
    → is_plain m ≡ true
    → starts_with s m ≡ true
    → like (Listing.marker_pattern m) s ≡ true
unfolding is_plain starts_with like
like-of-starts_with [] s p h = refl
like-of-starts_with (c ∷ m) [] p h = cc
like-of-starts_with (c ∷ []) (d ∷ s) p h = ground arith
like-of-starts_with (c ∷ (e ∷ m)) (d ∷ s) p h = ground (arith, like-of-starts_with (e ∷ m) s)

marked_any :
    (markers : List Text) (e : Text)
    → All (λ m. is_plain m ≡ true) markers
    → any (λ m. starts_with e m) markers ≡ true
    → any (λ m. like (Listing.marker_pattern m) e) markers ≡ true
marked_any [] e p h = cc
marked_any (m ∷ ms) e (p, ps) h = elim (Bool-cases (starts_with e m)) [
  | inl yes' ↦ rw (like-of-starts_with m e p yes') refl
  | inr no' ↦ ground (arith, marked_any ms e ps (rw no' at h))
]

markers_plain : All (λ m. is_plain m ≡ true) physical_outcome_unknown_markers
unfolding is_plain text
markers_plain = (refl, (refl, (refl, (refl, (refl, tt)))))

any_outcome :
    (error : Option Text)
    → has_marker physical_outcome_unknown_markers error ≡ true
    → Listing.is_marked error ≡ true
unfolding Listing.is_marked starts_with text
any_outcome none h = cc
any_outcome (some e) h = marked_any physical_outcome_unknown_markers e markers_plain h

unmarked_not : (error : Option Text) → Listing.is_unmarked error ≡ not (Listing.is_marked error)
unfolding Listing.is_marked Listing.is_unmarked like text
unmarked_not none = refl
unmarked_not (some e) = refl

outcome_marked :
    (status : Status) (error : Option Text)
    → derive_physical_outcome status error ≡ unknown
    → has_marker physical_outcome_unknown_markers error ≡ true
unfolding derive_physical_outcome
outcome_marked Status.success error h = cc
outcome_marked Status.queued error h = ground arith
outcome_marked Status.claimed error h = ground arith
outcome_marked Status.printing error h = ground arith
outcome_marked Status.failed error h = ground arith
outcome_marked Status.expired error h = ground arith

-- A job whose physical outcome is unknown is in the list of unknown outcomes and never in that of the
-- failed jobs; and a job whose status is `failed` is in exactly one of the two lists.
pub unknown_shown :
    (fleet : Fleet) (j : Job)
    → (derive_physical_outcome j.status j.error ≡ unknown
        → (Listing.status_condition fleet (text "unknown") j ≡ true)
          × (Listing.status_condition fleet (text "failed") j ≡ false))
      × (j.status ≡ failed
          → Listing.status_condition fleet (text "failed") j
            ≡ not (Listing.status_condition fleet (text "unknown") j))
unfolding Listing.status_condition text text_eq
unknown_shown fleet j = (
  λ h.
      let marked : Listing.is_marked j.error ≡ true =
        any_outcome j.error (outcome_marked j.status j.error h) in
      (marked, ground (arith, unmarked_not j.error)),
  λ h. ground (arith, unmarked_not j.error),
)
