-- ===== src/AuthLimit/Answers.antt =====
-- The answer to a failed login, and what the next request for the account meets.
use printer_repo.Prelude.{
  ℕ, ◌≡◌, refl, sym, ap, ◌∙◌, Bool, false, [], ◌∷◌, Option, none, some, max, arith, Bool-cases, inl,
  inr,
}
use printer_repo.Prelude.Text.{Text, text, text_eq, text_eq_iff}
use printer_repo.AuthLimit.{
  Buckets, time_left, locked_for, bump_row, bump_with, bump, read_bucket, account_key, ip_key,
  inspect_auth_rate_limit, record_auth_failure, decide, decide_until, latest, account_only,
}
use printer_repo.AuthLimit.Laws.{read-bump}

read-bump-other :
    (key other : Text) (now : ℕ) (rows : Buckets)
    → text_eq key other ≡ false
    → read_bucket other (bump key now rows).0 ≡ read_bucket other rows
unfolding bump bump_with read_bucket bump_row
read-bump-other key other now [] h = ground arith
read-bump-other key other now (r ∷ rows) h = ground (
  arith,
  read-bump-other key other now rows,
  text_eq_iff r.key key,
  text_eq_iff r.key other,
  text_eq_iff key other,
)

keys-distinct : (ip username : Text) → text_eq (ip_key ip) (account_key username) ≡ false
unfolding ip_key account_key text text_eq
keys-distinct ip username = refl

until-left :
    (until : Option ℕ) (later : ℕ) → decide_until until later ≡ decide (time_left until later)
until-left none later = refl
until-left (some u) later = ground arith

latest-left :
    (a b : Option ℕ) (later : ℕ)
    → decide_until (latest a b) later ≡ decide (max (time_left a later) (time_left b later))
latest-left none none later = refl
latest-left none (some b) later = ground arith
latest-left (some a) none later = ground arith
latest-left (some a) (some b) later = ground arith

-- The answer to a failed login, whenever it is formed, is what an inspection at that time answers:
-- with an address that is told apart, and without one.
pub record-inspect :
    (trust_proxy : Bool) (ip username : Text) (account_now ip_now later : ℕ) (rows : Buckets)
    → (record_auth_failure trust_proxy ip username account_now ip_now later rows).1
      ≡ inspect_auth_rate_limit trust_proxy ip username later
          (record_auth_failure trust_proxy ip username account_now ip_now later rows).0
unfolding record_auth_failure inspect_auth_rate_limit locked_for
record-inspect trust_proxy ip username account_now ip_now later rows =
    let account = bump (account_key username) account_now rows in
    let address = bump (ip_key ip) ip_now account.0 in
    elim (Bool-cases (account_only trust_proxy ip)) [
      | inl e ↦ rw e (
          until-left account.1.locked_until later
          ∙ ap (λ o. decide (locked_for o later))
              (sym (read-bump (account_key username) account_now rows)))
      | inr e ↦ rw e (
          latest-left address.1.locked_until account.1.locked_until later
          ∙ ap (λ o. decide (max (locked_for o later) (time_left account.1.locked_until later)))
              (sym (read-bump (ip_key ip) ip_now account.0))
          ∙ ap
              (λ o.
                decide
                  (max (locked_for (read_bucket (ip_key ip) address.0) later) (locked_for o later)))
              (sym (
                read-bump-other (ip_key ip) (account_key username) ip_now account.0
                  (keys-distinct ip username)
                ∙ read-bump (account_key username) account_now rows)))
    ]
