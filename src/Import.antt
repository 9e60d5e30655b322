-- ===== src/Import.antt =====
-- modules/registrations/import.service.js: the import of attendees.
pub mod Validate
pub mod Parse
pub mod Batch
pub mod Resolve
pub mod Create
pub mod Process
pub mod Public
pub mod Frame
pub mod Stored
pub mod Accounts
pub mod Capacity
