-- ===== src/Paging.antt =====
-- The paging that the listing services share: `skip`, `take`, and the `pagination` of an answer.
mod Page
pub mod Pages
pub mod Services
unfoldable pub use Page.*
