-- ===== src/Guard/Tests.antt =====
-- A request that reserves bytes, and whose response ends twice.
use printer_repo.Prelude.{refl, List, [], ◌∷◌, some, arith}
use printer_repo.Prelude.Text.{text}
use printer_repo.Guard.{Header, DeclaredLength, IncomingMessage, GuardState, GuardEvent, guard_run}
use printer_repo.Guard.Laws.{IsBalanced, held, run-IsBalanced}

abbrev report : IncomingMessage
report = record {
  method = some (text "PATCH");
  url = some (text "/api/agent/jobs");
  content_length = some (DeclaredLength.whole 300);
  authorization = Header.single (text "Bearer a:s");
  api_key = Header.missing;
  cookie = Header.missing;
}

abbrev idle : GuardState
idle = record { reserved = 0; reservations = [] }

abbrev traffic : List GuardEvent
traffic =
    GuardEvent.arrives report 8_388_608
    ∷ GuardEvent.arrives report 8_388_608
    ∷ GuardEvent.ends 0
    ∷ GuardEvent.ends 0
    ∷ []

run-IsBalanced_example : IsBalanced (guard_run traffic idle)
unfolding held
run-IsBalanced_example =
    run-IsBalanced traffic idle (record { balanced = refl; bounded = ground arith })
