-- ===== src/Staff.antt =====
-- modules/staff/staff.service.js: the staff of an event.
pub mod Assign
pub mod Access
