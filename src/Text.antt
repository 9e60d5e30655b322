-- ===== src/Text.antt =====
-- The text functions of JavaScript that the services use, and utils/slug.js.
mod Chars
pub mod Slug
pub mod Email
pub mod Search
unfoldable pub use Chars.*
