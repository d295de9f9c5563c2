-- ===== src/AuthLimit/Tests.antt =====
-- Wrong passwords for one account.
use printer_repo.Prelude.{◌≤◌, ◌+◌, ℕ, List, [], ◌∷◌, arith}
use printer_repo.Prelude.Text.{text}
use printer_repo.AuthLimit.{read_bucket, account_key}
use printer_repo.AuthLimit.Laws.{LoginTimes, AllRead, guesses, guesses-le}

abbrev at : ℕ → LoginTimes
at t = record { seen = t; counted = t + 2; answered = t + 3 }

abbrev times : List LoginTimes
times = at 10 ∷ at 20 ∷ at 30 ∷ at 40 ∷ at 50 ∷ at 60 ∷ at 40_000 ∷ []

guesses-le_example :
    AllRead
      (λ row. row.failures ≤ 12)
      (read_bucket (account_key (text "Eve")) (guesses (text "Eve") times []))
guesses-le_example = guesses-le (text "Eve") times (ground arith)
