-- ===== src/CheckIn.antt =====
-- modules/checkins/checkins.service.js: scanning at the gate, and undoing a check-in.
pub mod Resolve
pub mod Uuid
pub mod Scan
pub mod Order
pub mod Latest
pub mod Gate
pub mod Parts
pub mod Outcome
pub mod Verdict
pub mod Replay
pub mod Undo
pub mod Reversal
pub mod RoundTrip
pub mod Attendance
pub mod Refine
