-- ===== src/Reports.antt =====
-- modules/reports: the numbers of an event's dashboard and of the overview.
pub mod Dashboard
pub mod Overview
pub mod Export
pub mod Exports
pub mod Sums
