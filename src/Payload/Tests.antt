-- ===== src/Payload/Tests.antt =====
-- Payloads whose data is taken as it is.
use printer_repo.Payload.TestDocument.{build_test_pdf, offsets, stream_content, xref}
use printer_repo.Payload.Offsets.{IsIndexed, pdf-IsIndexed}
use printer_repo.Prelude.{◌≡◌, ◌↔◌, refl, ℕ, List, none, some}
use printer_repo.Prelude.Text.{Text, text, text_eq, starts_with}
use printer_repo.Payload.{PayloadType, ByteProtocol, PrintJobPayload}
use printer_repo.Payload.Validation.{
  Issue, is_canonical_data, super_issues, validate_print_job_payload,
}
use printer_repo.Payload.Laws.{IsPrintable, payload_accepted_iff}

abbrev plain : Text → List ℕ
plain t = t

abbrev label : PrintJobPayload
label = record {
  kind = PayloadType.raw;
  protocol = some ByteProtocol.zpl;
  peripherals = none;
  content = text "^XA^XZ";
}

pdf_as_raw :
    validate_print_job_payload plain plain (record label { content = text "%PDF-1.4" })
    ≡ some Issue.pdf_as_bytes
unfolding validate_print_job_payload is_canonical_data super_issues text text_eq starts_with
pdf_as_raw = refl

payload_accepted_iff_example :
    (validate_print_job_payload plain plain label ≡ none) ↔ IsPrintable plain plain label
payload_accepted_iff_example = payload_accepted_iff plain plain label

pdf-IsIndexed_example :
    IsIndexed
      (build_test_pdf (text "Label") (text "Shop") (text "2026-01-02 03:04:05"))
      (stream_content (text "Label") (text "Shop") (text "2026-01-02 03:04:05"))
      (xref (offsets (stream_content (text "Label") (text "Shop") (text "2026-01-02 03:04:05"))))
pdf-IsIndexed_example = pdf-IsIndexed (text "Label") (text "Shop") (text "2026-01-02 03:04:05")
