-- ===== src/Notifications/Send.antt =====
-- modules/notifications/notification.service.js. The context of a template and the log are left out.
use qpass_backend.Prelude.{
  ℕ, String, Bool, true, false, ◌||◌, Option, none, some, List, [], ◌∷◌, ◌++◌, ◌==◌, is_none,
  is_some,
}
use qpass_backend.Prelude.Tables.{find_first, find_many, update_many}
use qpass_backend.Fault.{
  plain, unique_violation, foreign_key_violation, record_missing, notification_not_found,
}
use qpass_backend.Db.{
  Db, Notification, NotificationStatus, M, ◌>>=◌, ◌>>◌, pure, throw_if, or_throw, gets, modify,
}
use qpass_backend.Db.Users.{is_user}
use qpass_backend.Paging.{newest_first}
use qpass_backend.Registration.Create.{has_id}
use qpass_backend.Registration.Register.{is_registration}
use qpass_backend.Import.Validate.{or_text, or_null}
use qpass_backend.Notifications.Email.{Delivery, delivered, refused, thrown, send_email}

-- The arguments of sendNotification, with the empty text for a missing template or subject.
pub record Letter : Type 0 where
  pub recipient : String
  pub subject : String
  pub template : String
  pub channel : Option String
  pub user_id : Option String
  pub event_id : Option String
  pub registration_id : Option String

pub record Response : Type 0 where
  pub success : Bool
  pub notification : Notification
  pub error : Option String

abbrev pub channel_or_email : Option String → String
channel_or_email none = "EMAIL"
channel_or_email (some c) = c

abbrev pub new_notification : String → Letter → Notification
new_notification id l = record {
  id = id;
  recipient = l.recipient;
  channel = channel_or_email l.channel;
  template = or_text l.template "custom";
  subject = or_null l.subject;
  status = NotificationStatus.pending;
  user_id = l.user_id;
  event_id = l.event_id;
  registration_id = l.registration_id;
  provider_message_id = none;
  failure_reason = none;
  sent_at = none;
}

-- A reference to a row that is not there.
abbrev pub dangling : {A : Type 0} → (String → A → Bool) → Option String → List A → Bool
dangling is_row none rows = false
dangling is_row (some id) rows = is_none (find_first (is_row id) rows)

abbrev pub refers_nowhere : Notification → Db → Bool
refers_nowhere n db =
    dangling is_user n.user_id db.users
    || dangling has_id n.event_id db.events
    || dangling is_registration n.registration_id db.registrations

abbrev pub is_notification : String → Notification → Bool
is_notification id n = n.id == id

-- prisma.notification.create
unfoldable pub insert_notification : Notification → M (Unit {0})
insert_notification new = do
  clash ← gets (λ db. find_first (is_notification new.id) db.notifications)
  throw_if (is_some clash) unique_violation
  dangles ← gets (refers_nowhere new)
  throw_if dangles foreign_key_violation
  modify (λ db. record db { notifications = db.notifications ++ new ∷ [] })

-- prisma.notification.update by id
unfoldable pub update_notification : String → (Notification → Notification) → M Notification
update_notification id f = do
  found ← gets (λ db. find_first (is_notification id) db.notifications)
  n ← or_throw found record_missing
  modify (λ db. record db { notifications = update_many (is_notification id) f db.notifications })
  pure (f n)

abbrev pub mark_sent : ℕ → Option String → Notification → Notification
mark_sent now message_id n = record n {
  status = NotificationStatus.sent;
  provider_message_id = message_id;
  sent_at = some now;
  failure_reason = none;
}

-- result.error || 'Unknown error'
abbrev pub reason : Option String → String
reason none = "Unknown error"
reason (some e) = or_text e "Unknown error"

abbrev pub mark_failed : Option String → Notification → Notification
mark_failed e n = record n { status = NotificationStatus.failed; failure_reason = some (reason e) }

-- What follows the call of `sendEmail`, in the `try` and in the `catch`. The row is there, so that
-- no update throws.
unfoldable pub settle : ℕ → String → Delivery → M Response
settle now id (delivered message_id) = do
  n ← update_notification id (mark_sent now message_id)
  pure (record { success = true; notification = n; error = none })
settle now id (refused e) = do
  n ← update_notification id (mark_failed e)
  pure (record { success = false; notification = n; error = e })
settle now id (thrown e) = do
  n ← update_notification id (mark_failed (some e))
  pure (record { success = false; notification = n; error = some e })

unfoldable pub send_notification : ℕ → String → String → Letter → M Response
send_notification now stamp id l = do
  insert_notification (new_notification id l)
  settle now id (send_email stamp l.recipient l.template)

unfoldable pub get_notification_by_id : String → Db → Option Notification
get_notification_by_id id db = find_first (is_notification id) db.notifications

abbrev pub names : Option String → String → Bool
names none id = false
names (some x) id = x == id

unfoldable pub get_notifications_by_recipient : String → Db → List Notification
get_notifications_by_recipient recipient db =
    newest_first (find_many (λ (n : Notification). n.recipient == recipient) db.notifications)

unfoldable pub get_notifications_by_user : String → Db → List Notification
get_notifications_by_user user_id db =
    newest_first (find_many (λ (n : Notification). names n.user_id user_id) db.notifications)

unfoldable pub get_notifications_by_event : String → Db → List Notification
get_notifications_by_event event_id db =
    newest_first (find_many (λ (n : Notification). names n.event_id event_id) db.notifications)

abbrev pub mark_pending : Notification → Notification
mark_pending n = record n { status = NotificationStatus.pending; failure_reason = none }

unfoldable pub retry_notification : ℕ → String → String → M Response
retry_notification now stamp id = do
  found ← gets (get_notification_by_id id)
  n ← or_throw found (plain notification_not_found)
  pending_again ← update_notification id mark_pending
  settle now id (send_email stamp n.recipient n.template)
