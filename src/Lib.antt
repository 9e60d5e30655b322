-- ===== src/Lib.antt =====
-- QPass backend: the services of an event ticketing server (Node, Prisma over PostgreSQL, Redis,
-- Socket.IO). Organizers create and publish events, attendees register for them and get a QR token,
-- staff scan the tokens at the gate.
--
-- State. All services share one state, `Db` (Db/Rows): the tables of src/database/schema.prisma as
-- lists in the order of insertion, the keys of Redis with their expiry, and what was sent to sockets.
-- A service function is a function `Db → Result A × Db` (Db/Monad): it returns or throws a fault of
-- src/utils/error.js, and what it wrote before a throw stays written, except inside a transaction,
-- which is rolled back. The clock, random values and the ids of new rows are arguments.
--
-- Concurrency. Node runs other requests at each await. An `Interleaving` (Event/Handlers) is what
-- other requests do between the reads of a handler and its write, and after it; `alone` is none.
-- Within a scan of src/modules/checkins/checkins.service.js no other request is interleaved.
-- A transaction runs at once: the row locks of the source order the writes that could conflict.
--
-- Files, by the code that they are about:
--   Prelude            helpers: tests, lists, the operations on tables (first match, update, delete)
--   Fault              src/utils/error.js, and the messages of src/config/system_messages.js
--   Db                 the state, the monad, users, Redis; Db/Guarantee relates the states before
--                      and after a function
--   Text               trim and toLowerCase of ASCII letters, src/utils/slug.js, e-mail addresses,
--                      the search for a text
--   Paging             what the listings share: page sizes, skip and take, the number of pages
--   Event              src/modules/events/event.service.js: Handlers (update, delete, publish,
--                      unpublish, cancel), Create (create with unique slugs), Lists
--   CheckIn            src/modules/checkins/checkins.service.js: Scan (scanQr), Resolve
--                      (resolveCheckIn), Undo (undoCheckin), Uuid, Order (check-ins by
--                      the time of their scan), Gate (listings, statistics, and
--                      isAuthorizedForEvent of src/realtime/socket.js); Attendance is the set of those
--                      inside, the abstract view of Refine
--   Qr                 src/modules/tickets/qr.service.js
--   Registration       src/modules/registrations/registration.service.js: Checks, Create and Register
--                      (registerFree), Lists
--   Csv                src/modules/registrations/import.service.js (Split: splitCsvLine and
--                      splitCsvLines), src/modules/reports/export.service.js (Print: toCsv)
--   Import             src/modules/registrations/import.service.js: Parse (parseImportFile),
--                      processImportFile as Validate (the rows), Resolve (duplicates and ticket types), Create (what one entry
--                      writes), Process (the batches and the row of the import); Public
--                      (registerPublic, the list of imports)
--   Staff              src/modules/staff/staff.service.js
--   Tickets            src/modules/tickets/tickets.service.js: Types (ticket types), View (the details
--                      and the lists of tickets)
--   Auth               src/modules/auth: Accounts (auth.service.js), Otp (otp.service.js and
--                      verification.service.js), Sessions, Keys and Revocation (session.service.js),
--                      Passwords (password.service.js, and changePassword and the profile of
--                      auth.service.js), Google (oauth.service.js), Middleware (auth.middleware.js
--                      and src/middlewares/rbac.middleware.js)
--   Admin              src/modules/admin: Users (admin-users.service.js), AuditLogs (audit.service.js)
--   Reports            src/modules/reports: Dashboard (dashboard.service.js), Overview
--                      (analytics.service.js), Export (export.service.js, and exportEventTickets of
--                      src/modules/tickets/tickets.service.js)
--   Middlewares        src/middlewares/sanitize.middleware.js
--   Notifications      src/modules/notifications: Email (email.service.js: sendEmail), Send
--                      (notification.service.js), apart from the services, which leave their
--                      e-mails out
--   Tests              runs on a small database
--
-- A function keeps the source's name in snake case: `scanQr` is `scan_qr`, `publishEvent` is
-- `publish_event`. Where a handler retries, the number of attempts is that of the source: ten slugs
-- in each of three attempts to create an event, three attempts to create a ticket type or a free
-- registration. The recursions of the model are on these numbers or on the text or the list that is
-- read. Two loops have a number of rounds: the batches of an import get as many rounds as there are
-- entries, which is enough, as no batch is empty; the SCAN of Redis has as many calls as
-- the client's record says.
--
-- Parameters: SHA-256 and AES-256-GCM (`Crypto`), bcrypt.compare, jsonwebtoken (`Jwt`, and the check
-- of an access token), JSON (`Codec`), Google (`Google`), the SCAN of Redis (`RedisClient`), the rows
-- that a parser read from a file, whether a transaction of an import commits, whether an e-mail was
-- accepted, whether Redis takes a write whose failure the source swallows, the drawing of a PDF file and the texts of time stamps (`Printer`), and the percentage of
-- the dashboard, a floating-point number that is rounded.
--
-- Not modelled: the e-mails of the services and their templates, images and PDF files, the parsers of
-- uploaded files, the snapshots of audit entries, the connections of Socket.IO, the URL and the cookie
-- of a Google sign-in, the middlewares but those of authentication, roles and
-- the sanitizer of bodies, the routes and the configuration: they are calls of libraries. An audit entry whose failure the source swallows is
-- written always. A statement that fails inside the transaction of an import leaves those after it to
-- run, as the code expects; PostgreSQL would abort the transaction.
mod Prelude
pub mod Fault
pub mod Db
pub mod Text
pub mod Paging
pub mod Event
pub mod CheckIn
pub mod Qr
pub mod Registration
pub mod Staff
pub mod Tickets
pub mod Csv
pub mod Import
pub mod Auth
pub mod Admin
pub mod Reports
pub mod Notifications
pub mod Middlewares
pub mod Tests
