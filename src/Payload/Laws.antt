-- ===== src/Payload/Laws.antt =====
-- Which payloads are accepted, and that the database takes each of them.
use printer_repo.Prelude.{ℕ, ◌≡◌, refl, ◌↔◌, true, false, List, Option, none, some, arith}
use printer_repo.Prelude.Text.{Text}
use printer_repo.Payload.{PayloadType, ByteProtocol, PrintJobPayload}
use printer_repo.Payload.Validation.{
  is_canonical_data, looks_like_pdf, jpeg_signature, has_peripherals, super_issues,
  validate_print_job_payload, payload_check, speaks_escpos,
}

-- The bytes are what the type and the protocol say.
pub data IsLabelled (bytes : List ℕ) : PayloadType → Option ByteProtocol → Type 0 where
  raw_bytes :
      (p : ByteProtocol) → looks_like_pdf bytes ≡ false → IsLabelled bytes PayloadType.raw (some p)
  escpos_bytes :
      looks_like_pdf bytes ≡ false → IsLabelled bytes PayloadType.escpos (some ByteProtocol.escpos)
  document : looks_like_pdf bytes ≡ true → IsLabelled bytes PayloadType.pdf none
  photo : jpeg_signature bytes ≡ true → IsLabelled bytes PayloadType.image none

-- What a caller of the validation is promised.
pub record IsPrintable (decode : Text → List ℕ) (encode : List ℕ → Text) (p : PrintJobPayload)
    : Type 0 where
  pub canonical : is_canonical_data decode encode p.content ≡ true
  pub labelled : IsLabelled (decode p.content) p.kind p.protocol
  pub equipped : has_peripherals p.peripherals ≡ true → speaks_escpos p.protocol ≡ true

module _ (decode : Text → List ℕ) (encode : List ℕ → Text) (p : PrintJobPayload) where
  label :
      (kind : PayloadType) (protocol : Option ByteProtocol)
      → validate_print_job_payload decode encode (record p { kind = kind; protocol = protocol })
        ≡ none
      → IsLabelled (decode p.content) kind protocol
  unfolding validate_print_job_payload super_issues
  label PayloadType.raw none h = absurd (ground arith)
  label PayloadType.raw (some q) h = raw_bytes q (ground arith)
  label PayloadType.escpos none h = absurd (ground arith)
  label PayloadType.escpos (some ByteProtocol.escpos) h = escpos_bytes (ground arith)
  label PayloadType.escpos (some q) h = absurd (ground arith)
  label PayloadType.pdf none h = document (ground arith)
  label PayloadType.pdf (some q) h = absurd (ground arith)
  label PayloadType.image none h = photo (ground arith)
  label PayloadType.image (some q) h = absurd (ground arith)

  unlabel :
      (kind : PayloadType) (protocol : Option ByteProtocol)
      → is_canonical_data decode encode p.content ≡ true
      → (has_peripherals p.peripherals ≡ true → speaks_escpos protocol ≡ true)
      → IsLabelled (decode p.content) kind protocol
      → validate_print_job_payload decode encode (record p { kind = kind; protocol = protocol })
        ≡ none
  unfolding validate_print_job_payload super_issues
  unlabel _ _ c e (raw_bytes q h) = ground arith
  unlabel _ _ c e (escpos_bytes h) = ground arith
  unlabel _ _ c e (document h) = ground arith
  unlabel _ _ c e (photo h) = ground arith

  -- A payload is accepted exactly when its data is canonical base64 of 1 to 5242880 bytes, its bytes
  -- and its protocol are what its type says, and it drives peripherals only in ESC/POS: a raw payload
  -- names a protocol, an ESC/POS payload that one, neither is a PDF; a PDF and a JPEG carry their
  -- signature and no protocol.
  pub payload_accepted_iff :
      (validate_print_job_payload decode encode p ≡ none) ↔ IsPrintable decode encode p
  unfolding validate_print_job_payload super_issues
  payload_accepted_iff = (
    (λ h. record {
      canonical = accepted-canonical h;
      labelled = label p.kind p.protocol h;
      equipped = accepted-equipped h;
    }),
    λ v. unlabel p.kind p.protocol v.canonical v.equipped v.labelled,
  )
    where
      accepted-canonical :
          validate_print_job_payload decode encode p ≡ none
          → is_canonical_data decode encode p.content ≡ true
      accepted-canonical h = ground arith

      accepted-equipped :
          validate_print_job_payload decode encode p ≡ none
          → has_peripherals p.peripherals ≡ true
          → speaks_escpos p.protocol ≡ true
      accepted-equipped h e = ground arith

labelled-check :
    (bytes : List ℕ) (p : PrintJobPayload)
    → IsLabelled bytes p.kind p.protocol
    → payload_check p ≡ true
unfolding payload_check
labelled-check bytes p h = go p.kind p.protocol h
  where
    go :
        (kind : PayloadType) (protocol : Option ByteProtocol)
        → IsLabelled bytes kind protocol
        → payload_check (record p { kind = kind; protocol = protocol }) ≡ true
    go _ _ (raw_bytes q h) = refl
    go _ _ (escpos_bytes h) = refl
    go _ _ (document h) = refl
    go _ _ (photo h) = refl

-- Every payload that the validation accepts satisfies the check of the database, so that no accepted
-- job is refused by the column.
pub accepted-check :
    (decode : Text → List ℕ) (encode : List ℕ → Text) (p : PrintJobPayload)
    → validate_print_job_payload decode encode p ≡ none
    → payload_check p ≡ true
accepted-check decode encode p h =
    labelled-check (decode p.content) p ((payload_accepted_iff decode encode p).0 h).labelled
