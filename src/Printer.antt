-- ===== src/Printer.antt =====
-- Printers: which payloads they take, which records are virtual, and when they are available.
pub mod Laws
pub mod Routing
pub mod Virtual
pub mod Availability
mod Tests
