-- ===== src/Tests/Others.antt =====
-- Staff, ticket types, CSV and accounts on the same database.
use qpass_backend.Prelude.{
  String, ◌≡◌, refl, arith, true, false, none, some, List, ◌∷◌, [], ◌++◌, map, All,
}
use qpass_backend.Prelude.Tables.{find_first}
use qpass_backend.Fault.{
  conflict, forbidden, unauthorized, event_unauthorized, ticket_type_has_registrations,
  auth_otp_invalid, auth_verify_token_invalid, auth_refresh_revoked,
}
use qpass_backend.Text.{trim, to_lower_case}
use qpass_backend.Db.{Db, UserRole, RedisKey, EventStaffAssignment, ok, err, write_audit_log, ◌>>◌}
use qpass_backend.Db.Users.{insert_user, update_user}
use qpass_backend.Db.Redis.{redis_get, redis_set, redis_del}
use qpass_backend.Event.Handlers.{alone}
use qpass_backend.CheckIn.Scan.{may_scan}
use qpass_backend.Staff.Assign.{
  Hire, StaffData, verify_event_ownership, or_invite, or_reload, make_staff, new_assignment,
  insert_assignment, record_assignment, assign_user, assign_staff, delete_assignment, remove_staff,
}
use qpass_backend.Staff.Access.{assign_staff-may_scan, remove_staff-may_scan}
use qpass_backend.Tickets.Types.{
  NewTicketType, new_ticket_type, next_sort_order, create_ticket_type, get_ticket_types,
  TicketTypeData, update_ticket_type, delete_ticket_type,
}
use qpass_backend.Tickets.Order.{
  Before, quiet, create_ticket_type-last, delete_ticket_type_outcome, ticket_type_handlers_refused,
}
use qpass_backend.Csv.Split.{split_csv_line, split_csv_lines}
use qpass_backend.Csv.Print.{safe_value, to_csv}
use qpass_backend.Csv.Rows.{split-to_csv}
use qpass_backend.Prelude.{length, ◌+◌, ◌==◌, if◌then◌else◌}
use qpass_backend.Prelude.Tables.{Distinct}
use qpass_backend.Import.Validate.{Row, has, validate_rows}
use qpass_backend.Import.Batch.{WellFormed, same_email, validate_rows-accounts}
use qpass_backend.Auth.Otp.{otp_key, verified, verify_otp, verify_email}
use qpass_backend.Auth.Accounts.{
  Claims, Jwt, refresh_token, is_token_blacklisted, blacklist_refresh_token,
}
use qpass_backend.Auth.Sessions.{
  Codec, resolve_ttl, record_session, has_active_session, consume_session,
}
use qpass_backend.Auth.SingleUse.{consume_session-once, verifications_once, refresh_token-once}
use qpass_backend.Tests.Fixture.{store, launch, sam, sams_place, standing}

abbrev hire : Hire
hire = record { user_id = "u2"; password_hash = "h"; assignment_id = "a2" }

abbrev tea : StaffData
tea = record { email = "tea@x.org"; permission_scope = none }

abbrev teas_place : EventStaffAssignment
teas_place = new_assignment hire "e1" "u2" none

assigned_tea : (assign_staff alone hire "e1" "o1" tea store).0 ≡ ok (launch, teas_place)
unfolding assign_staff verify_event_ownership or_invite or_reload insert_user assign_user make_staff
    record_assignment insert_assignment write_audit_log find_first trim to_lower_case ◌>>◌
assigned_tea = refl

assign_staff-may_scan_example :
    may_scan "e1" "u2" (assign_staff alone hire "e1" "o1" tea store).1 ≡ true
assign_staff-may_scan_example =
    assign_staff-may_scan "e1" "o1" store hire tea launch teas_place assigned_tea

remove_staff-may_scan_example :
    may_scan "e1" "u1" (remove_staff alone "e1" "a1" "o1" store).1 ≡ false
unfolding remove_staff verify_event_ownership delete_assignment write_audit_log find_first ◌>>◌
remove_staff-may_scan_example =
    remove_staff-may_scan "e1" "a1" "o1" store launch sams_place (tt, tt) refl refl refl refl

abbrev vip : NewTicketType
vip = record { name = "VIP"; price = 50; capacity = some 5 }

create_ticket_type-last_example :
    ((create_ticket_type quiet (λ k. "p3") "e1" "o1" UserRole.organizer vip store).0
      ≡ ok (new_ticket_type "p3" "e1" vip (next_sort_order "e1" store.ticket_types)))
    × ((create_ticket_type quiet (λ k. "p3") "e1" "o1" UserRole.organizer vip store).1.ticket_types
        ≡ store.ticket_types
          ++ new_ticket_type "p3" "e1" vip (next_sort_order "e1" store.ticket_types) ∷ [])
    × All (Before "e1" (next_sort_order "e1" store.ticket_types)) store.ticket_types
unfolding find_first
create_ticket_type-last_example =
    create_ticket_type-last "e1" "o1" UserRole.organizer store refl refl (λ k. "p3") vip refl

delete_ticket_type_outcome_example :
    delete_ticket_type alone "e1" "p1" "o1" UserRole.organizer store
    ≡ (err (conflict ticket_type_has_registrations), store)
unfolding find_first
delete_ticket_type_outcome_example =
    delete_ticket_type_outcome "e1" "o1" UserRole.organizer store refl refl "p1" standing refl

abbrev closed : TicketTypeData
closed = record { name = none; price = none; capacity = none; active = some false }

ticket_type_handlers_refused_example :
    (create_ticket_type quiet (λ k. "p3") "e1" "o9" UserRole.staff vip store
      ≡ (err (forbidden event_unauthorized), store))
    × (get_ticket_types "e1" "o9" UserRole.staff store
        ≡ (err (forbidden event_unauthorized), store))
    × (update_ticket_type alone "e1" "p1" "o9" UserRole.staff closed store
        ≡ (err (forbidden event_unauthorized), store))
    × (delete_ticket_type alone "e1" "p1" "o9" UserRole.staff store
        ≡ (err (forbidden event_unauthorized), store))
unfolding find_first
ticket_type_handlers_refused_example =
    ticket_type_handlers_refused "e1" "o9" UserRole.staff store refl (λ k. "p3") vip "p1" closed

abbrev headers : List String
headers = "Name" ∷ "Email" ∷ []

abbrev rows : List (List String)
rows = ("Ada \"A\", Countess" ∷ "ada@x.org" ∷ []) ∷ ("=1+1" ∷ "a\nb" ∷ []) ∷ []

split-to_csv_example :
    map split_csv_line (split_csv_lines (to_csv headers rows))
    ≡ map (λ r. map (λ v. trim (safe_value v)) r) (headers ∷ rows)
split-to_csv_example = split-to_csv headers rows tt (tt, (tt, tt))

abbrev code_key : RedisKey
code_key = record { key = otp_key "sam@x.org"; value = "123456"; expires_at = 900 }

abbrev with_code : Db
with_code = record store { redis = code_key ∷ [] }

code_accepted : (verify_otp 500 "sam@x.org" "123456" with_code).0 ≡ ok (verified 500 sam)
unfolding verify_otp redis_get redis_del update_user find_first trim to_lower_case ◌>>◌
code_accepted = refl

abbrev with_link : Db
with_link = record store {
  redis = record { key = "verify_email:tok"; value = "u1"; expires_at = 900 } ∷ [];
}

link_accepted : (verify_email 500 "tok" with_link).0 ≡ ok (verified 500 sam)
unfolding verify_email redis_get redis_del update_user find_first ◌>>◌
link_accepted = refl

verifications_once_example :
    (verify_otp 600 "sam@x.org" "654321" (verify_otp 500 "sam@x.org" "123456" with_code).1
      ≡ (err (unauthorized auth_otp_invalid), (verify_otp 500 "sam@x.org" "123456" with_code).1))
    × (verify_email 600 "tok" (verify_email 500 "tok" with_link).1
        ≡ (err (unauthorized auth_verify_token_invalid), (verify_email 500 "tok" with_link).1))
verifications_once_example =
    verifications_once 500 600 "sam@x.org" "123456" "654321" "tok" (verified 500 sam)
      (verified 500 sam) with_code with_link code_accepted link_accepted

abbrev sams_claims : Claims
sams_claims = record { sub = "u1"; exp = 60 }

abbrev jwt : Jwt
jwt = record {
  verify = λ now s. some sams_claims;
  sign_access = λ u. u.id;
  sign_refresh = λ u. u.email;
}

exchanged : (refresh_token jwt true 500 "tok" store).0 ≡ ok ("u1", "sam@x.org")
unfolding refresh_token is_token_blacklisted blacklist_refresh_token redis_get redis_set find_first
    ◌>>◌
exchanged = refl

refresh_token-once_example :
    (refresh_token jwt false 9000 "tok" (refresh_token jwt true 500 "tok" store).1
      ≡ (err (unauthorized auth_refresh_revoked), (refresh_token jwt true 500 "tok" store).1))
    × (refresh_token jwt false 500 "tok" store ≡ (ok ("u1", "sam@x.org"), store))
refresh_token-once_example =
    refresh_token-once jwt false 500 9000 "tok" sams_claims ("u1", "sam@x.org") store refl
      (ground arith) (ground arith) exchanged

abbrev codec : Codec
codec = record { hash_token = λ s. s; decode_exp = λ s. some 60; to_json = λ a t e. "meta" }

abbrev with_session : Db
with_session = (record_session codec true 5000 "u1" "tok" none store).1

consume_session-once_example :
    (has_active_session codec true 9000 "u1" "tok" with_session ≡ (ok true, with_session))
    × ((consume_session codec true 9000 "u1" "tok" with_session).0 ≡ ok true)
    × (consume_session codec true 9500 "u1" "tok"
          (consume_session codec true 9000 "u1" "tok" with_session).1
        ≡ (ok false, (consume_session codec true 9000 "u1" "tok" with_session).1))
unfolding resolve_ttl
consume_session-once_example =
    consume_session-once codec 5000 9000 9500 "u1" "tok" none store (ground arith)

abbrev line : Row
line = record {
  field = λ k. if k == "email" then " Ada@x.org" else if k == "name" then "Ada" else "";
  source_row = none;
}

-- The same attendee in two lines of a file.
abbrev twice : List Row
twice = line ∷ line ∷ []

validate_rows-accounts_example :
    (length (validate_rows 0 twice []).0 + length (validate_rows 0 twice []).1 ≡ 2)
    × Distinct same_email (validate_rows 0 twice []).0
    × All (λ e. (has e.email [] ≡ false) × WellFormed e) (validate_rows 0 twice []).0
validate_rows-accounts_example = validate_rows-accounts 0 twice []
