-- ===== src/CheckIn/Parts.antt =====
-- modules/checkins/checkins.service.js and realtime/socket.js: who has a part in an event.
use qpass_backend.Prelude.{String, ◌≡◌, Bool, ◌&&◌, ◌||◌, arith, is_some, if◌then◌else◌}
use qpass_backend.Prelude.Tables.{find_first, find_many}
use qpass_backend.Fault.{not_found, forbidden, event_not_found, checkin_not_authorized}
use qpass_backend.Db.{Db, UserRole, ok, err, ◌>>◌}
use qpass_backend.Event.Handlers.{is_admin, alive}
use qpass_backend.CheckIn.Scan.{may_scan}
use qpass_backend.CheckIn.Order.{live_check_in, by_scan}
use qpass_backend.CheckIn.Gate.{
  on_staff, is_authorized_for_event, require_part, get_checkins, Query, shown, attendees_of,
  list_event_attendees, statistics, get_checkin_statistics,
}

module _ (event_id user_id : String) (role : UserRole) (query : Query) (db : Db) where
  abbrev pub live_event : Bool
  live_event = is_some (find_first (alive event_id) db.events)

  -- A live event's owner or active staff, who may scan, or an admin.
  abbrev pub has_part : Bool
  has_part = live_event && (is_admin role || may_scan event_id user_id db)

  -- One rule of access. Those who may scan at an event may join its rooms, list its check-ins and its
  -- attendees and read its statistics. Admins may do all of this but scan and list check-ins; they may
  -- join the room of any id. All others are refused: with 404 where there is no live event, else
  -- with 403, but the list of check-ins answers 404 to them all. Nothing is written.
  pub access-rule :
      (is_authorized_for_event user_id role event_id db
        ≡ (is_admin role || may_scan event_id user_id db))
      × (get_checkins event_id user_id db ≡ (
          if may_scan event_id user_id db
          then (ok (by_scan (find_many (live_check_in event_id) db.check_ins)), db)
          else (err (not_found event_not_found), db)))
      × (list_event_attendees event_id user_id role query db ≡ (
          if has_part
          then (ok (shown db (attendees_of event_id query db)), db)
          else if live_event
          then (err (forbidden checkin_not_authorized), db)
          else (err (not_found event_not_found), db)))
      × (get_checkin_statistics user_id role event_id db ≡ (
          if has_part
          then (ok (statistics event_id db), db)
          else if live_event
          then (err (forbidden checkin_not_authorized), db)
          else (err (not_found event_not_found), db)))
  unfolding is_authorized_for_event get_checkins list_event_attendees get_checkin_statistics
      require_part on_staff may_scan ◌>>◌
  access-rule = (ground arith, ground arith, ground arith, ground arith)
