-- ===== src/Payload.antt =====
-- src/lib/payload.ts: the print payload. Its validation is in the child.
-- The `encoding` field is always "base64", so it is left out.
pub mod Validation
pub mod Laws
pub mod TestDocument
pub mod TestPage
pub mod Offsets
pub mod PageSize
mod Tests
use printer_repo.Prelude.{Option}
use printer_repo.Prelude.Text.{Text}

pub data PayloadType : Type 0 where
  raw escpos pdf image : PayloadType

pub data ByteProtocol : Type 0 where
  escpos zpl tspl raw : ByteProtocol

pub data Drawer : Type 0 where
  pin2 pin5 none : Drawer

pub data Cutter : Type 0 where
  partial full none : Cutter

pub data Buzzer : Type 0 where
  epson_pulse star_bel none : Buzzer

pub record Peripherals : Type 0 where
  pub drawer : Option Drawer
  pub cutter : Option Cutter
  pub buzzer : Option Buzzer

pub record PrintJobPayload : Type 0 where
  pub kind : PayloadType
  pub protocol : Option ByteProtocol
  pub peripherals : Option Peripherals
  pub content : Text
