-- ===== src/Keys/Tests.antt =====
-- A key with all document types, rotated, revoked and used.
use printer_repo.Prelude.{refl, ◌≡◌, ℕ, Bool, false, [], ◌∷◌, Option, none, some}
use printer_repo.Prelude.Text.{Text, text, text_eq, trim}
use printer_repo.Payload.{PayloadType, ByteProtocol}
use printer_repo.Job.Status.{queued}
use printer_repo.Job.Row.{Clock, Job}
use printer_repo.Job.Tests.{printed_job}
use printer_repo.Managers.Token.{ManagerClaims}
use printer_repo.Keys.{ApiKey, rotate_found, generate_odoo_api_key, find_key, rotated}
use printer_repo.Keys.Laws.{IsRotated, rotate-replaces}
use printer_repo.Keys.Jobs.{PrintRequest, known, JobResponse, get_job, batch_status}
use printer_repo.Keys.JobLaws.{IsReadable, reads-IsReadable}
use printer_repo.Prelude.{All}

abbrev shop_key : ApiKey
shop_key = record {
  id = text "key_1";
  tenant_id = text "t";
  scope = text "print_jobs";
  name = text "Odoo";
  description = none;
  hashed_key = text "odoo_s1";
  allowed_document_types = none;
  created_at = 1000;
  last_used_at = none;
  revoked_at = none;
}

abbrev plain : Text → Text
plain t = t

rotate-replaces_example :
    ((rotate_found
        (generate_odoo_api_key plain (text "s2") (text "2"))
        5000
        (some shop_key)
        (shop_key ∷ [])).1
      ≡ rotated (text "key_2") (text "key_1") (text "odoo_s2"))
    × IsRotated plain
        (text "key_1")
        (text "t")
        (generate_odoo_api_key plain (text "s2") (text "2"))
        6000
        shop_key
        (rotate_found
          (generate_odoo_api_key plain (text "s2") (text "2"))
          5000
          (some shop_key)
          (shop_key ∷ [])).0
unfolding generate_odoo_api_key find_key text text_eq trim
rotate-replaces_example =
    rotate-replaces plain (text "s2") (text "2") (text "key_1") (text "t") 5000 6000 shop_key
      (shop_key ∷ []) refl refl refl refl

abbrev nothing_refers : Text → Bool
nothing_refers id = false

abbrev owner : ManagerClaims
owner = record {
  jti = text "s";
  iat = 1;
  exp = 100;
  tenant_id = text "t";
  user_id = some (text "u");
  role = text "owner";
}

abbrev request : PrintRequest
request = record {
  printer_id = text "p";
  document_type = text "label";
  destination = none;
  payload = record {
    kind = PayloadType.raw;
    protocol = some ByteProtocol.zpl;
    peripherals = none;
    content = text "^XA^XZ";
  };
  expires_at = none;
  idempotency_key = none;
  request_id = none;
}

abbrev no_date : Text → Option ℕ
no_date t = none

abbrev clock : Clock
clock = record { db_now = 60_000; app_now = 60_000 }

abbrev new_job : JobResponse
new_job = record {
  job_id = text "job_1";
  status = queued;
  printer_id = text "p";
  agent_id = text "a";
  destination = none;
  document_type = some (text "label");
  error = none;
}

abbrev own_job : Job
own_job = record printed_job { api_key_id = some (text "key_1") }

reads-IsReadable_example :
    ((id : Text) (r : JobResponse)
      → get_job (some shop_key) id (own_job ∷ printed_job ∷ []) ≡ known r
      → IsReadable shop_key (own_job ∷ printed_job ∷ []) r)
    × All
        (IsReadable shop_key (own_job ∷ printed_job ∷ []))
        (batch_status shop_key (text "j1" ∷ []) (own_job ∷ printed_job ∷ []))
reads-IsReadable_example = reads-IsReadable shop_key (own_job ∷ printed_job ∷ []) (text "j1" ∷ [])

abbrev spare_key : ApiKey
spare_key = record shop_key { id = text "key_2"; hashed_key = text "odoo_s2" }
