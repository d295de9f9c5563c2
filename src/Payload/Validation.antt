-- ===== src/Payload/Validation.antt =====
-- `validatePrintJobPayload` of src/lib/payload.ts, on an object of the schema's types, and the check
-- `print_jobs_payload_contract` of src/db/schema.ts on the stored column. `decode` and `encode` are
-- `Buffer.from(…, "base64")` and `toString("base64")`.
use printer_repo.Prelude.{
  ℕ, Bool, true, false, not, ◌&&◌, ◌||◌, List, [], ◌∷◌, ◌++◌, Option, none, some, if◌then◌else◌,
  length, ltb, leb, is_none,
}
use printer_repo.Prelude.Text.{Text, text, text_eq, starts_with}
use printer_repo.Payload.{
  PayloadType, ByteProtocol, Drawer, Cutter, Buzzer, Peripherals, PrintJobPayload,
}

abbrev pub max_payload_bytes : ℕ
max_payload_bytes = 5_242_880

-- The messages of the schema, in the order in which they are raised.
pub data Issue : Type 0 where
  bad_data pdf_signature_missing not_jpeg pdf_as_bytes : Issue
  protocol_required escpos_required protocol_not_applicable peripherals_need_escpos : Issue

abbrev is_filled : Text → Bool
is_filled [] = false
is_filled (c ∷ t) = true

-- The refinement on `data`. A length is greater than `(MAX_PAYLOAD_BYTES / 3) * 4 + 8`, which is
-- 6990514 and two thirds, if it is greater than 6990514.
unfoldable pub is_canonical_data : (Text → List ℕ) → (List ℕ → Text) → Text → Bool
is_canonical_data decode encode value =
    is_filled value
    && not (ltb 6_990_514 (length value))
    && leb 1 (length (decode value))
    && leb (length (decode value)) max_payload_bytes
    && text_eq (encode (decode value)) value

abbrev pub looks_like_pdf : List ℕ → Bool
looks_like_pdf decoded = starts_with decoded (text "%PDF-")

abbrev pub jpeg_signature : List ℕ → Bool
jpeg_signature decoded = starts_with decoded (0xff ∷ 0xd8 ∷ 0xff ∷ [])

abbrev pub is_kind : PayloadType → PayloadType → Bool
is_kind PayloadType.raw PayloadType.raw = true
is_kind PayloadType.escpos PayloadType.escpos = true
is_kind PayloadType.pdf PayloadType.pdf = true
is_kind PayloadType.image PayloadType.image = true
is_kind _ _ = false

abbrev pub speaks_escpos : Option ByteProtocol → Bool
speaks_escpos (some ByteProtocol.escpos) = true
speaks_escpos _ = false

abbrev drives_drawer : Option Drawer → Bool
drives_drawer none = false
drives_drawer (some Drawer.none) = false
drives_drawer (some mode) = true

abbrev drives_cutter : Option Cutter → Bool
drives_cutter none = false
drives_cutter (some Cutter.none) = false
drives_cutter (some mode) = true

abbrev drives_buzzer : Option Buzzer → Bool
drives_buzzer none = false
drives_buzzer (some Buzzer.none) = false
drives_buzzer (some mode) = true

-- `hasPeripherals`, false where no peripherals are given.
abbrev pub has_peripherals : Option Peripherals → Bool
has_peripherals none = false
has_peripherals (some p) =
    drives_drawer p.drawer || drives_cutter p.cutter || drives_buzzer p.buzzer

-- `if (test) ctx.addIssue(…)`
abbrev add_issue : Bool → Issue → List Issue
add_issue test issue = if test then issue ∷ [] else []

unfoldable pub super_issues : List ℕ → PrintJobPayload → List Issue
super_issues decoded payload =
    add_issue (is_kind payload.kind PayloadType.pdf && not (looks_like_pdf decoded))
      pdf_signature_missing
    ++ (add_issue (is_kind payload.kind PayloadType.image && not (jpeg_signature decoded)) not_jpeg
        ++ (add_issue
              ((is_kind payload.kind PayloadType.raw || is_kind payload.kind PayloadType.escpos)
                && looks_like_pdf decoded)
              pdf_as_bytes
            ++ (add_issue (is_kind payload.kind PayloadType.raw && is_none payload.protocol)
                  protocol_required
                ++ (add_issue
                      (is_kind payload.kind PayloadType.escpos
                        && not (speaks_escpos payload.protocol))
                      escpos_required
                    ++ (add_issue
                          ((is_kind payload.kind PayloadType.pdf
                              || is_kind payload.kind PayloadType.image)
                            && not (is_none payload.protocol))
                          protocol_not_applicable
                        ++ add_issue
                            (has_peripherals payload.peripherals
                              && not (speaks_escpos payload.protocol))
                            peripherals_need_escpos)))))

abbrev first_issue : List Issue → Option Issue
first_issue [] = none
first_issue (issue ∷ rest) = some issue

-- `validatePrintJobPayload`: `none` where it returns the payload, the first issue where it throws.
unfoldable pub validate_print_job_payload :
    (Text → List ℕ) → (List ℕ → Text) → PrintJobPayload → Option Issue
unfolding is_canonical_data super_issues
validate_print_job_payload decode encode payload = first_issue (
    add_issue (not (is_canonical_data decode encode payload.content)) bad_data
    ++ super_issues (decode payload.content) payload)

-- The check on the column. An absent protocol is coalesced to the empty text.
unfoldable pub payload_check : PrintJobPayload → Bool
payload_check payload =
    (is_kind payload.kind PayloadType.raw && not (is_none payload.protocol))
    || (is_kind payload.kind PayloadType.escpos && speaks_escpos payload.protocol)
    || (is_kind payload.kind PayloadType.pdf && is_none payload.protocol)
    || (is_kind payload.kind PayloadType.image && is_none payload.protocol)
