-- ===== src/Notifications.antt =====
-- modules/notifications: the notifications that are stored, and how sending them ends.
pub mod Email
pub mod Send
pub mod Settled
