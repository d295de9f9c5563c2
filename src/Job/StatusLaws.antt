-- ===== src/Job/StatusLaws.antt =====
-- The status vocabulary, the transition table and the late-success windows.
use printer_repo.Prelude.{
  ℕ, ◌+◌, ◌≤◌, ◌≡◌, refl, sym, ap, subst, Bool, true, ◌↔◌, Option, some, arith,
}
use printer_repo.Prelude.Text.{Text, text, text_eq, text_eq_iff}
use printer_repo.Job.Status.{
  Status, queued, claimed, printing, success, failed, expired, Value, str, other, parse_status,
  status_text, can_transition, has_marker, late_success_error_markers, is_late_success_allowed,
  is_expired_late_success_allowed,
}

-- Every status is read back from its name.
pub parse-status_text : (s : Status) → parse_status (str (status_text s)) ≡ some s
unfolding parse_status status_text text_eq text
parse-status_text queued = refl
parse-status_text claimed = refl
parse-status_text printing = refl
parse-status_text success = refl
parse-status_text failed = refl
parse-status_text expired = refl

parse_name : (t : Text) (s : Status) → parse_status (str t) ≡ some s → t ≡ status_text s
unfolding parse_status status_text
parse_name t s h = ground (
  arith,
  text_eq_iff (text "queued") t,
  text_eq_iff (text "claimed") t,
  text_eq_iff (text "printing") t,
  text_eq_iff (text "success") t,
  text_eq_iff (text "failed") t,
  text_eq_iff (text "expired") t,
)

-- A body's status field is accepted exactly when it is the name of a status, and then as that
-- status: no other text and no value of another type is.
pub parse_status_iff :
    (v : Value) (s : Status) → (parse_status v ≡ some s) ↔ (v ≡ str (status_text s))
unfolding parse_status
parse_status_iff (str t) s = (
  (λ h. ap str (parse_name t s h)),
  λ e. subst (λ v. parse_status v ≡ some s) (sym e) (parse-status_text s),
)
parse_status_iff other s = ((λ h. cc), λ e. cc)

-- The moves that the table allows; the last only with the late-success option.
pub data Move : Bool → Status → Status → Type 0 where
  start_print : {late : Bool} → Move late claimed printing
  fail_claim : {late : Bool} → Move late claimed failed
  hand_back : {late : Bool} → Move late claimed queued
  finish : {late : Bool} → Move late printing success
  fail_print : {late : Bool} → Move late printing failed
  late_finish : {late : Bool} → late ≡ true → Move late failed success

can_transition_sound :
    (from to : Status) (late : Bool) → can_transition from to late ≡ true → Move late from to
unfolding can_transition
can_transition_sound claimed printing late h = start_print
can_transition_sound claimed failed late h = fail_claim
can_transition_sound claimed queued late h = hand_back
can_transition_sound printing success late h = finish
can_transition_sound printing failed late h = fail_print
can_transition_sound failed success late h = late_finish (ground arith)
can_transition_sound from to late h = absurd (ground arith)

can_transition_complete :
    (from to : Status) (late : Bool) → Move late from to → can_transition from to late ≡ true
unfolding can_transition
can_transition_complete _ _ late start_print = refl
can_transition_complete _ _ late fail_claim = refl
can_transition_complete _ _ late hand_back = refl
can_transition_complete _ _ late finish = refl
can_transition_complete _ _ late fail_print = refl
can_transition_complete _ _ late (late_finish e) = ground arith

-- The transition test accepts exactly these moves: a claimed job to printing, failed or queued, a
-- printing job to success or failed, and with the late-success option a failed job to success.
pub can_transition_iff :
    (from to : Status) (late : Bool) → (can_transition from to late ≡ true) ↔ Move late from to
can_transition_iff from to late =
    (can_transition_sound from to late, can_transition_complete from to late)

-- A late success is accepted exactly for a failed job that carries one of the two wait-timeout
-- markers and changed within the last 24 hours, an expired one exactly within 5 minutes after its
-- time to live, neither of them from the future.
pub late_windows :
    (s : Status) (error : Option Text) (at now : ℕ)
    → ((is_late_success_allowed s error at now ≡ true) ↔ (
        (s ≡ failed)
        × (has_marker late_success_error_markers error ≡ true)
        × (at ≤ now)
        × (now ≤ at + 86_400_000)))
      × ((is_expired_late_success_allowed s at now ≡ true)
          ↔ ((s ≡ expired) × (at ≤ now) × (now ≤ at + 300_000)))
unfolding is_late_success_allowed is_expired_late_success_allowed
late_windows s error at now =
    (((λ h. ground arith), λ h. ground arith), ((λ h. ground arith), λ h. ground arith))
