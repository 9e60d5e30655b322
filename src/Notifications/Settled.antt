-- ===== src/Notifications/Settled.antt =====
-- modules/notifications/notification.service.js: how sending a notification ends.
use Prim.Native.String.{◌++◌}
use qpass_backend.Prelude.{
  ℕ, String, ◌≡◌, Bool, true, false, not, ◌||◌, none, some, if◌then◌else◌, refl, arith, eq_refl,
  Bool-cases, inl, inr,
}
use qpass_backend.Prelude.Tables.{find_first-append, find_first-update_many, find_first-test}
use qpass_backend.Text.{is_empty}
use qpass_backend.Db.{Db, Notification, NotificationStatus, Result, ok, ◌>>◌}
use qpass_backend.Notifications.Email.{send_email}
use qpass_backend.Notifications.Send.{
  Letter, Response, new_notification, refers_nowhere, is_notification, mark_sent, mark_failed,
  mark_pending, update_notification, insert_notification, settle, send_notification,
  get_notification_by_id, retry_notification,
}

-- The status of a notification that was sent, or not.
abbrev pub outcome : Bool → NotificationStatus
outcome b = if b then NotificationStatus.sent else NotificationStatus.failed

abbrev pub deliverable : String → String → Bool
deliverable to template = not (is_empty to || is_empty template)

-- Done: the response tells whether it was sent, and the row that is stored under the id is the one
-- that is returned, sent or failed.
pub record IsSettled (id : String) (sent : Bool) (done : Result Response × Db) : Type 0 where
  pub response : Response
  pub returned : done.0 ≡ ok response
  pub told : response.success ≡ sent
  pub stored : get_notification_by_id id done.1 ≡ some response.notification
  pub status : response.notification.status ≡ outcome sent

update_notification_lem :
    (id : String) (f : Notification → Notification) (n : Notification) (db : Db)
    → ((m : Notification) → (f m).id ≡ m.id)
    → get_notification_by_id id db ≡ some n
    → ((update_notification id f db).0 ≡ ok (f n))
      × (get_notification_by_id id (update_notification id f db).1 ≡ some (f n))
unfolding update_notification get_notification_by_id ◌>>◌
update_notification_lem id f n db keeps found =
    let there =
      find_first-update_many (is_notification id) (is_notification id) f db.notifications
        (λ m e. rw (keeps m) refl) in
    let test = find_first-test (is_notification id) db.notifications found in
    (ground (arith, found), ground (arith, found, there, test))

module _ (now : ℕ) (stamp id to template : String) (n : Notification) (db : Db) where
  settled :
      get_notification_by_id id db ≡ some n
      → IsSettled id (deliverable to template) (settle now id (send_email stamp to template) db)
  unfolding settle send_email ◌>>◌
  settled found = elim (Bool-cases (is_empty to || is_empty template)) [
    | inl e ↦
        let why : String = "Recipient (to) and content (template, html, or text) are required" in
        let f = mark_failed (some why) in
        let u = update_notification_lem id f n db (λ m. refl) found in
        rw e (record {
          response = record { success = false; notification = f n; error = some why };
          returned = ground (arith, u);
          told = refl;
          stored = ground (arith, u);
          status = refl;
        })
    | inr e ↦
        let f = mark_sent now (some ("simulated-" ++ stamp)) in
        let u = update_notification_lem id f n db (λ m. refl) found in
        rw e (record {
          response = record { success = true; notification = f n; error = none };
          returned = ground (arith, u);
          told = refl;
          stored = ground (arith, u);
          status = refl;
        })
  ]

inserted :
    (id : String) (l : Letter) (db : Db)
    → get_notification_by_id id db ≡ none
    → refers_nowhere (new_notification id l) db ≡ false
    → ((insert_notification (new_notification id l) db).0 ≡ ok tt)
      × (get_notification_by_id id (insert_notification (new_notification id l) db).1
          ≡ some (new_notification id l))
unfolding insert_notification get_notification_by_id ◌>>◌
inserted id l db fresh refers =
    let there =
      find_first-append (is_notification id) db.notifications (new_notification id l) fresh
        (eq_refl id) in
    (ground (arith, fresh, refers), ground (arith, fresh, refers, there))

sent_after :
    (now : ℕ) (stamp id : String) (l : Letter) (db : Db)
    → (insert_notification (new_notification id l) db).0 ≡ ok tt
    → send_notification now stamp id l db
      ≡ settle now id
          (send_email stamp l.recipient l.template)
          (insert_notification (new_notification id l) db).1
unfolding send_notification ◌>>◌
sent_after now stamp id l db h = rw h refl

retried_after :
    (now : ℕ) (stamp id : String) (n : Notification) (db : Db)
    → get_notification_by_id id db ≡ some n
    → (update_notification id mark_pending db).0 ≡ ok (mark_pending n)
    → retry_notification now stamp id db
      ≡ settle now id
          (send_email stamp n.recipient n.template)
          (update_notification id mark_pending db).1
unfolding retry_notification ◌>>◌
retried_after now stamp id n db found h = rw (found, h) refl

-- A notification is stored and settled: where its id is unused and it refers to rows that are there,
-- it is sent exactly if it has a recipient and a template, and failed otherwise; sent again under its
-- id, if it is stored, it is sent exactly if its row has both. What is returned is what is stored, and
-- it is not left pending.
pub notifications-IsSettled :
    (now later : ℕ) (stamp again id : String) (l : Letter) (n : Notification) (db : Db)
    → get_notification_by_id id db ≡ none
    → refers_nowhere (new_notification id l) db ≡ false
    → (other : Db) → get_notification_by_id id other ≡ some n
    → IsSettled id (deliverable l.recipient l.template) (send_notification now stamp id l db)
      × IsSettled id (deliverable n.recipient n.template) (retry_notification later again id other)
notifications-IsSettled now later stamp again id l n db fresh refers other found =
    let i = inserted id l db fresh refers in
    let w = update_notification_lem id mark_pending n other (λ m. refl) found in
    (
      rw (sent_after now stamp id l db i.0) (
          settled now stamp id l.recipient l.template (new_notification id l)
            (insert_notification (new_notification id l) db).1 i.1),
      rw (retried_after later again id n other found w.0) (
          settled later again id n.recipient n.template (mark_pending n)
            (update_notification id mark_pending other).1 w.1),
    )
