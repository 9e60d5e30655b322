-- ===== src/CheckIn/Scan.antt =====
-- modules/checkins/checkins.service.js: `scanQr`, with the emissions of realtime/rooms.js.
use Prim.Native.String.{◌++◌}
use qpass_backend.Prelude.{
  ℕ, ◌+◌, String, Bool, true, false, not, ◌&&◌, ◌||◌, Option, none, some, ◌∷◌, ◌==◌, is_none,
  is_some, if◌then◌else◌, ltb,
}
use qpass_backend.Prelude.Tables.{find_first, count, delete_many}
use qpass_backend.Fault.{
  Message, conflict, forbidden, record_missing, checkin_not_authorized, checkin_scan_in_progress,
  checkin_invalid_qr, checkin_qr_expired, checkin_qr_revoked, checkin_event_mismatch,
  checkin_registration_not_confirmed,
}
use qpass_backend.Db.{
  Db, Event, EventStaffAssignment, Registration, RegistrationStatus, QrToken, CheckIn,
  CheckInResult, valid, invalid, expired, wrong_event, revoked, RedisKey, Emission, checkin_update,
  M, ◌>>=◌, ◌>>◌, pure, throw_if, or_throw, gets, modify, when, try_finally,
}
use qpass_backend.Db.Redis.{holds, has_key}
use qpass_backend.Text.{is_empty}
use qpass_backend.Event.Handlers.{alive}
use qpass_backend.CheckIn.Uuid.{is_uuid}
use qpass_backend.CheckIn.Resolve.{Context, ScanResult, Resolved, is_registration, resolve_check_in}

abbrev pub is_confirmed : RegistrationStatus → Bool
is_confirmed RegistrationStatus.confirmed = true
is_confirmed _ = false

abbrev pub is_valid : CheckInResult → Bool
is_valid valid = true
is_valid _ = false

-- where: { eventId_userId: { eventId, userId } }
abbrev pub assigned : String → String → EventStaffAssignment → Bool
assigned event_id user_id a = (a.event_id == event_id) && (a.user_id == user_id)

abbrev active_assignment : Option EventStaffAssignment → Bool
active_assignment none = false
active_assignment (some a) = a.active

abbrev owned_by : Option Event → String → Bool
owned_by none user_id = false
owned_by (some e) user_id = e.owner_id == user_id

-- !(!event || (event.ownerId !== staffId && !assignment?.active))
unfoldable pub may_scan : String → String → Db → Bool
may_scan event_id staff_id db =
    let event = find_first (alive event_id) db.events in
    is_some event
    && (owned_by event staff_id
        || active_assignment (find_first (assigned event_id staff_id) db.assignments))

-- redis.set(key, "1", "EX", 10, "NX"): the key is set unless one that has not expired is there.
unfoldable pub lock_free : Context → String → Db → Bool
lock_free ctx key db = ctx.redis_up && is_none (find_first (holds ctx.now key) db.redis)

abbrev pub lock_key : ℕ → String → RedisKey
lock_key now key = record { key = key; value = "1"; expires_at = now + 10000 }

unfoldable pub add_lock : ℕ → String → Db → Db
add_lock now key db = record db { redis = lock_key now key ∷ delete_many (has_key key) db.redis }

-- redis.del(key)
unfoldable pub release_lock : String → Db → Db
release_lock key db = record db { redis = delete_many (has_key key) db.redis }

abbrev plain_result : CheckInResult → Message → Option String → Resolved
plain_result r m name = record {
  attendee_name = name;
  scan_result = record { result = r; message = m; attendee_name = none; checkin_id = none };
}

-- The manual check-in: the token names a registration.
abbrev scan_registration :
    Context → String → String → String → Option String → Option Registration → M Resolved
scan_registration ctx event_id token staff_id device_info none =
    pure (plain_result invalid checkin_invalid_qr none)
scan_registration ctx event_id token staff_id device_info (some r) =
    if not (r.event_id == event_id)
    then pure (plain_result invalid checkin_invalid_qr none)
    else if not (is_confirmed r.status)
    then pure (plain_result invalid checkin_registration_not_confirmed (some r.attendee_name))
    else resolve_check_in ctx event_id r.id staff_id device_info none

unfoldable pub scan_manual : Context → String → String → String → Option String → M Resolved
scan_manual ctx event_id token staff_id device_info =
    if not (is_uuid token) then pure (plain_result invalid checkin_invalid_qr none) else do
      r ← gets (λ db. find_first (is_registration token) db.registrations)
      scan_registration ctx event_id token staff_id device_info r

-- A token that is stored, with its registration.
unfoldable pub scan_token :
    Context → String → String → Option String → QrToken → Registration → M Resolved
scan_token ctx event_id staff_id device_info t r =
    if ltb t.expires_at ctx.now
    then pure (plain_result expired checkin_qr_expired (some r.attendee_name))
    else if not (is_confirmed r.status)
    then pure (plain_result invalid checkin_registration_not_confirmed (some r.attendee_name))
    else if not (r.event_id == event_id)
    then pure (plain_result wrong_event checkin_event_mismatch (some r.attendee_name))
    else if is_some t.revoked_at
    then pure (plain_result revoked checkin_qr_revoked (some r.attendee_name))
    else resolve_check_in ctx event_id t.registration_id staff_id device_info (some t.id)

-- where: { eventId, result: VALID, deletedAt: null }
abbrev pub counted : String → CheckIn → Bool
counted event_id c = (c.event_id == event_id) && is_valid c.result && is_none c.deleted_at

-- attendeeName ? { attendee: ... } : {}
abbrev pub shown : Option String → Option String
shown none = none
shown (some name) = if is_empty name then none else some name

-- emitCheckinUpdate and emitScanResult, in this order; without a server they send nothing.
unfoldable pub announce : Context → String → Resolved → M (Unit {0})
announce ctx event_id r = when ctx.io_up (do
  total ← gets (λ db. count (counted event_id) db.check_ins)
  modify (λ db. record db {
    emitted =
        Emission.scan_result event_id r.scan_result.result (shown r.attendee_name)
        ∷ checkin_update event_id r.scan_result.result r.attendee_name total
        ∷ db.emitted;
  }))

-- `hash_token` is SHA-256 of Node's crypto.
module _ (hash_token : String → String) where
  abbrev pub has_token : String → QrToken → Bool
  has_token token t = t.token_hash == hash_token token

  abbrev scan_found :
      Context → String → String → String → Option String → Option QrToken → M Resolved
  scan_found ctx event_id token staff_id device_info none =
      scan_manual ctx event_id token staff_id device_info
  scan_found ctx event_id token staff_id device_info (some t) = do
    found ← gets (λ db. find_first (is_registration t.registration_id) db.registrations)
    r ← or_throw found record_missing
    scan_token ctx event_id staff_id device_info t r

  -- What runs under the lock.
  unfoldable pub scan_locked : Context → String → String → String → Option String → M ScanResult
  scan_locked ctx event_id token staff_id device_info = do
    t ← gets (λ db. find_first (has_token token) db.qr_tokens)
    r ← scan_found ctx event_id token staff_id device_info t
    announce ctx event_id r
    pure r.scan_result

  abbrev pub lock_name : String → String → String
  lock_name event_id token = "scan:" ++ (event_id ++ (":" ++ hash_token token))

  -- A failed `redis.set` leaves `lockHeld` false.
  unfoldable pub scan_qr : Context → String → String → Option String → String → M ScanResult
  scan_qr ctx event_id token device_info staff_id = do
    may ← gets (may_scan event_id staff_id)
    throw_if (not may) (forbidden checkin_not_authorized)
    lock_held ← gets (lock_free ctx (lock_name event_id token))
    throw_if (not lock_held) (conflict checkin_scan_in_progress)
    modify (add_lock ctx.now (lock_name event_id token))
    try_finally (scan_locked ctx event_id token staff_id device_info)
        (release_lock (lock_name event_id token))
