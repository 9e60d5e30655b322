-- ===== src/Registration.antt =====
-- modules/registrations/registration.service.js: free public registration.
pub mod Checks
pub mod Create
pub mod Register
pub mod Capacity
pub mod Oversell
pub mod Lists
