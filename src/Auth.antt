-- ===== src/Auth.antt =====
-- modules/auth: accounts, one-time codes and refresh tokens.
pub mod Otp
pub mod Accounts
pub mod Sessions
pub mod Keys
pub mod Revocation
pub mod Passwords
pub mod Middleware
pub mod Google
pub mod SignIn
pub mod SingleUse
pub mod Revoked
