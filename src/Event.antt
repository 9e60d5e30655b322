-- ===== src/Event.antt =====
-- modules/events/event.service.js: an organizer's events and their life cycle.
-- Each handler reads, may throw, and writes by a guarded `updateMany`; `env` is what the other
-- requests do to the database between its read and its write.
pub mod Handlers
pub mod Create
pub mod Lifecycle
pub mod Runs
pub mod Interference
pub mod Slugs
pub mod Progress
pub mod Guards
pub mod Lists
