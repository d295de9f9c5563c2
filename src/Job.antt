-- ===== src/Job.antt =====
-- The print-job queue: its rows, the statements that write them, and the handlers that issue those.
pub mod Status
pub mod StatusLaws
pub mod Row
pub mod Delivery
pub mod Sweep
pub mod SweepLaws
pub mod Poll
pub mod Report
pub mod KeepAlive
pub mod History
pub mod Invariant
pub mod HandOffs
pub mod Terminal
pub mod Fencing
pub mod LateReports
pub mod Refinement
pub mod Handlers
pub mod Keys
pub mod Claims
pub mod Ceiling
pub mod Insert
pub mod System
pub mod Tests
