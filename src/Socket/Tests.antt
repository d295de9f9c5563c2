-- ===== src/Socket/Tests.antt =====
-- An agent's sockets, its limiter, and a push to it.
use printer_repo.Prelude.{◌≡◌, ℕ, refl, Bool, true, List, [], ◌∷◌, none, some, any, is_some}
use printer_repo.Prelude.Text.{text, text_eq, not_distinct}
use printer_repo.Payload.{PayloadType}
use printer_repo.Job.Status.{queued}
use printer_repo.Job.Row.{
  Clock, Lifecycle, Job, Fleet, Table, fenced_delivery_write, delivery_token, execute,
}
use printer_repo.Job.Delivery.{
  is_in_flight, runtime_ready, is_claimable, tenant_of, claim_statement, claim_row,
  claim_job_for_delivery, delivered_statement, mark_job_delivered,
}
use printer_repo.Socket.{
  AgentSocket, send_to_agent, has_open_agent_socket, claim_and_push_job_to_agent, push_claimed,
  try_send,
}
use printer_repo.Socket.Push.{is_evidenced, push-delivered}

abbrev at : ℕ → Clock
at t = record { db_now = t; app_now = t }

abbrev waiting_job : Job
waiting_job = record {
  id = text "j1";
  tenant_id = text "t";
  agent_id = text "a";
  printer_id = text "p";
  api_key_id = none;
  document_type = none;
  destination = none;
  idempotency_key = none;
  request_id = none;
  requested_by = text "u";
  payload = record {
    kind = PayloadType.raw;
    protocol = none;
    peripherals = none;
    content = text "QQ==";
  };
  status = queued;
  error = none;
  created_at = 1000;
  expires_at = 900_000;
  updated_at = 1000;
  claimed_at = none;
  delivered_at = none;
  acked_at = none;
  claim_token = none;
  delivery_attempts = 0;
  retries = 0;
}

abbrev fleet : Fleet
fleet = record {
  agents =
      record { id = text "a"; tenant_id = text "t"; lifecycle = Lifecycle.active; online = true }
      ∷ [];
  printers =
      record { id = text "p"; tenant_id = text "t"; lifecycle = Lifecycle.active; online = true }
      ∷ [];
}

abbrev unlocked : Job → Bool
unlocked j = true

-- An open socket that is full, and one that takes messages.
abbrev sockets : List AgentSocket
sockets =
    record { socket_id = 1; is_open = true; buffered_amount = 0; accepts = true }
    ∷ record { socket_id = 2; is_open = true; buffered_amount = 2_000_000; accepts = true }
    ∷ []

abbrev quiet : Table → Table
quiet jobs = jobs

push-delivered_example :
    (is_some (send_to_agent sockets).1 ≡ true)
    × (any
          (is_evidenced (text "j1") (text "a") (delivery_token (some (text "k1"))) 2100)
          (claim_and_push_job_to_agent fleet unlocked sockets
            (text "j1")
            (text "a")
            (at 2000)
            (at 2100)
            (at 2200)
            (text "k1")
            quiet
            quiet
            (waiting_job ∷ [])).0
        ≡ true)
unfolding claim_and_push_job_to_agent claim_job_for_delivery is_in_flight runtime_ready is_claimable
    claim_statement claim_row tenant_of execute text_eq text not_distinct delivered_statement
    mark_job_delivered fenced_delivery_write send_to_agent try_send has_open_agent_socket
    push_claimed
push-delivered_example =
    push-delivered (text "j1") (text "a") (at 2100) (at 2200) quiet quiet fleet unlocked sockets
      (at 2000) (text "k1") (waiting_job ∷ []) refl
