-- ===== src/Csv.antt =====
-- CSV: the exports of modules/reports/export.service.js and the reader of
-- modules/registrations/import.service.js.
pub mod Split
pub mod Print
pub mod Fields
pub mod Rows
