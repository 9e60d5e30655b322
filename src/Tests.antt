-- ===== src/Tests.antt =====
-- Runs of the modelled code on one small database.
mod Fixture
mod Scans
mod Events
mod Registrations
mod Others
mod Imports
mod Listings
mod Lockouts
mod Notifications
mod Reports
