-- ===== src/Db/Rows.antt =====
-- The tables of database/schema.prisma. An id is an opaque text, a DateTime the number of
-- milliseconds since the epoch. Columns that only the database writes and no service reads
-- (createdAt, updatedAt, currency) are left out, and so are the tables of payments, invoices and
-- notifications.
use qpass_backend.Prelude.{ℕ, String, Bool, Option, List}
use qpass_backend.Fault.{Fault}

pub data UserRole : Type 0 where
  attendee staff organizer admin : UserRole

pub data UserStatus : Type 0 where
  active inactive suspended : UserStatus

pub data EventStatus : Type 0 where
  draft published active completed cancelled : EventStatus

pub data RegistrationStatus : Type 0 where
  pending confirmed cancelled : RegistrationStatus

pub data CheckInResult : Type 0 where
  valid duplicate invalid expired wrong_event revoked not_authorized : CheckInResult

pub data PaymentStatus : Type 0 where
  pending success failed refunded : PaymentStatus

pub data RegistrationMode : Type 0 where
  public_link closed_import hybrid : RegistrationMode

pub data RegistrationSource : Type 0 where
  imported public_link : RegistrationSource

pub data TicketCodeStatus : Type 0 where
  unused used revoked : TicketCodeStatus

-- An `Int` column that a service decrements: `negsuc n` is -(n + 1).
pub data ℤ : Type 0 where
  pos : ℕ → ℤ
  negsuc : ℕ → ℤ

pub record User : Type 0 where
  pub id : String
  pub name : String
  pub email : String
  pub password_hash : String
  pub phone : Option String
  pub role : UserRole
  pub status : UserStatus
  pub email_verified_at : Option ℕ
  pub deleted_at : Option ℕ

pub record Event : Type 0 where
  pub id : String
  pub title : String
  pub description : Option String
  pub venue : Option String
  pub slug : String
  pub start_time : ℕ
  pub end_time : ℕ
  pub status : EventStatus
  pub owner_id : String
  pub registration_mode : RegistrationMode
  pub is_paid : Bool
  pub capacity : Option ℕ
  pub registration_opens_at : Option ℕ
  pub registration_closes_at : Option ℕ
  pub published_at : Option ℕ
  pub deleted_at : Option ℕ

pub record EventStaffAssignment : Type 0 where
  pub id : String
  pub event_id : String
  pub user_id : String
  pub permission_scope : Option String
  pub active : Bool

pub record TicketType : Type 0 where
  pub id : String
  pub event_id : String
  pub name : String
  pub price : ℕ
  pub capacity : Option ℕ
  pub quantity_sold : ℕ
  pub active : Bool
  pub sort_order : ℕ

pub record TicketCode : Type 0 where
  pub id : String
  pub event_id : String
  pub code : String
  pub status : TicketCodeStatus
  pub attendee_email : Option String
  pub attendee_name : Option String

pub record Registration : Type 0 where
  pub id : String
  pub event_id : String
  pub ticket_code_id : String
  pub attendee_email : String
  pub attendee_name : String
  pub phone : Option String
  pub ticket_type_id : Option String
  pub payment_status : PaymentStatus
  pub source : RegistrationSource
  pub confirmation_code : Option String
  pub qr_issued : Bool
  pub qr_issued_at : Option ℕ
  pub status : RegistrationStatus

pub record QrToken : Type 0 where
  pub id : String
  pub registration_id : String
  pub token_hash : String
  pub token_cipher : Option String
  pub expires_at : ℕ
  pub revoked_at : Option ℕ
  pub scan_count : ℤ

pub record CheckIn : Type 0 where
  pub id : String
  pub event_id : String
  pub registration_id : String
  pub staff_id : String
  pub scanned_at : ℕ
  pub result : CheckInResult
  pub device_info : Option String
  pub deleted_at : Option ℕ

-- The snapshots of an entry are left out, but for the entity that it names; an entity without an id
-- has the empty text.
pub record AuditLog : Type 0 where
  pub actor_id : Option String
  pub action : String
  pub entity : String
  pub entity_id : String

pub data ImportStatus : Type 0 where
  processing failed completed : ImportStatus

-- Why a row of a file was not imported: the parser refused it, `validateRow` did, it is registered
-- or without a ticket type, a statement failed, or the transaction of its batch did.
pub data Problem : Type 0 where
  unparsable missing_email email_too_long malformed_email name_required duplicate_email : Problem
  already_registered invalid_ticket_type ticket_type_full batch_failed : Problem
  statement_failed : Fault → Problem

pub record RowError : Type 0 where
  pub row : ℕ
  pub email : Option String
  pub error : Problem

-- `errorReport` is null where there are no errors.
pub record ImportBatch : Type 0 where
  pub id : String
  pub event_id : String
  pub uploaded_by_id : String
  pub original_filename : String
  pub file_type : String
  pub total_rows : ℕ
  pub success_rows : ℕ
  pub failed_rows : ℕ
  pub status : ImportStatus
  pub error_report : Option (List RowError)
  pub completed_at : Option ℕ

pub data NotificationStatus : Type 0 where
  pending sent failed read : NotificationStatus

-- The context of the template, a JSON value, is left out.
pub record Notification : Type 0 where
  pub id : String
  pub recipient : String
  pub channel : String
  pub template : String
  pub subject : Option String
  pub status : NotificationStatus
  pub user_id : Option String
  pub event_id : Option String
  pub registration_id : Option String
  pub provider_message_id : Option String
  pub failure_reason : Option String
  pub sent_at : Option ℕ

-- A key of Redis with its expiry.
pub record RedisKey : Type 0 where
  pub key : String
  pub value : String
  pub expires_at : ℕ

-- What the server sends to a room of Socket.IO (realtime/rooms.js), the time stamp left out.
pub data Emission : Type 0 where
  checkin_update :
      (event_id : String) (result : CheckInResult) (attendee_name : Option String)
      (total_checked_in : ℕ)
      → Emission
  registration_new :
      (event_id registration_id attendee_name attendee_email : String)
      (ticket_type_id : Option String)
      → Emission
  scan_result : (event_id : String) (result : CheckInResult) (attendee : Option String) → Emission

-- All that the services share: the tables, the keys of Redis, and what was sent to sockets.
pub record Db : Type 0 where
  pub users : List User
  pub events : List Event
  pub assignments : List EventStaffAssignment
  pub ticket_types : List TicketType
  pub ticket_codes : List TicketCode
  pub registrations : List Registration
  pub qr_tokens : List QrToken
  pub check_ins : List CheckIn
  pub import_batches : List ImportBatch
  pub notifications : List Notification
  pub audit_logs : List AuditLog
  pub redis : List RedisKey
  pub emitted : List Emission
