-- ===== src/Tests/Fixture.antt =====
-- A database with a published event, a draft, and one registration with its token.
use qpass_backend.Prelude.{true, false, none, some, [], ◌∷◌}
use qpass_backend.Db.{
  Db, User, UserRole, UserStatus, Event, draft, published, public_link, EventStaffAssignment,
  TicketType, Registration, PaymentStatus, RegistrationSource, RegistrationStatus, QrToken, CheckIn,
  valid, pos,
}
use qpass_backend.CheckIn.Resolve.{Context}
use qpass_backend.Qr.{Crypto, Draw}

abbrev pub launch : Event
launch = record {
  id = "e1";
  title = "Launch";
  description = none;
  venue = some "Hall";
  slug = "launch";
  start_time = 1000;
  end_time = 2000;
  status = published;
  owner_id = "o1";
  registration_mode = public_link;
  is_paid = false;
  capacity = some 2;
  registration_opens_at = none;
  registration_closes_at = none;
  published_at = some 100;
  deleted_at = none;
}

abbrev pub plan : Event
plan = record launch {
  id = "e2";
  title = "Plan";
  slug = "plan";
  status = draft;
  published_at = none;
}

abbrev pub ada : Registration
ada = record {
  id = "r1";
  event_id = "e1";
  ticket_code_id = "k1";
  attendee_email = "ada@x.org";
  attendee_name = "Ada";
  phone = none;
  ticket_type_id = some "p1";
  payment_status = PaymentStatus.success;
  source = RegistrationSource.public_link;
  confirmation_code = some "C1";
  qr_issued = true;
  qr_issued_at = some 200;
  status = RegistrationStatus.confirmed;
}

abbrev pub adas_token : QrToken
adas_token = record {
  id = "t1";
  registration_id = "r1";
  token_hash = "q1";
  token_cipher = some "q1";
  expires_at = 90000;
  revoked_at = none;
  scan_count = pos 0;
}

abbrev pub standing : TicketType
standing = record {
  id = "p1";
  event_id = "e1";
  name = "Standing";
  price = 0;
  capacity = some 2;
  quantity_sold = 1;
  active = true;
  sort_order = 0;
}

abbrev pub seated : TicketType
seated = record standing { id = "p2"; name = "Seated"; quantity_sold = 0; sort_order = 1 }

abbrev pub sam : User
sam = record {
  id = "u1";
  name = "sam";
  email = "sam@x.org";
  password_hash = "hash";
  phone = none;
  role = UserRole.staff;
  status = UserStatus.active;
  email_verified_at = none;
  deleted_at = none;
}

abbrev pub sams_place : EventStaffAssignment
sams_place = record {
  id = "a1";
  event_id = "e1";
  user_id = "u1";
  permission_scope = none;
  active = true;
}

abbrev pub store : Db
store = record {
  users = sam ∷ [];
  events = launch ∷ plan ∷ [];
  assignments = sams_place ∷ [];
  ticket_types = standing ∷ seated ∷ [];
  ticket_codes = [];
  registrations = ada ∷ [];
  qr_tokens = adas_token ∷ [];
  check_ins = [];
  import_batches = [];
  notifications = [];
  audit_logs = [];
  redis = [];
  emitted = [];
}

-- Ada's check-in, made by the owner.
abbrev pub adas_check_in : CheckIn
adas_check_in = record {
  id = "c1";
  event_id = "e1";
  registration_id = "r1";
  staff_id = "o1";
  scanned_at = 500;
  result = valid;
  device_info = none;
  deleted_at = none;
}

abbrev pub at_door : Context
at_door = record { now = 500; new_id = "c1"; redis_up = true; io_up = true }

-- A hash and a cipher that keep the text as it is.
abbrev pub plain_crypto : Crypto
plain_crypto = record { hash_token = λ s. s; encrypt = λ iv s. s; decrypt = λ s. some s }

abbrev pub draw : Draw
draw = record { raw_token = "q2"; iv = "iv"; new_id = "t2" }
