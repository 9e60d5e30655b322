-- ===== src/Tickets.antt =====
-- modules/tickets/tickets.service.js: the ticket types of an event.
pub mod Types
pub mod Order
pub mod View
pub mod Visibility
