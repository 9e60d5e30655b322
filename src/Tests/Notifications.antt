-- ===== src/Tests/Notifications.antt =====
-- A letter to Ada, and one without a recipient that is sent again.
use qpass_backend.Prelude.{refl, none, some, [], ◌∷◌}
use qpass_backend.Prelude.Tables.{find_first}
use qpass_backend.Db.{Db, Notification, NotificationStatus}
use qpass_backend.Notifications.Send.{
  Letter, send_notification, get_notification_by_id, retry_notification,
}
use qpass_backend.Notifications.Settled.{IsSettled, deliverable, notifications-IsSettled}
use qpass_backend.Tests.Fixture.{store}

abbrev letter : Letter
letter = record {
  recipient = "ada@x.org";
  subject = "Welcome";
  template = "qr-issued";
  channel = none;
  user_id = none;
  event_id = some "e1";
  registration_id = some "r1";
}

abbrev lost : Notification
lost = record {
  id = "n1";
  recipient = "";
  channel = "EMAIL";
  template = "custom";
  subject = none;
  status = NotificationStatus.failed;
  user_id = none;
  event_id = none;
  registration_id = none;
  provider_message_id = none;
  failure_reason = some "Unknown error";
  sent_at = none;
}

abbrev with_lost : Db
with_lost = record store { notifications = lost ∷ [] }

notifications-IsSettled_example :
    IsSettled "n1"
      (deliverable "ada@x.org" "qr-issued")
      (send_notification 500 "500" "n1" letter store)
    × IsSettled "n1" (deliverable "" "custom") (retry_notification 600 "600" "n1" with_lost)
unfolding find_first get_notification_by_id
notifications-IsSettled_example =
    notifications-IsSettled 500 600 "500" "600" "n1" letter lost store refl refl with_lost refl
