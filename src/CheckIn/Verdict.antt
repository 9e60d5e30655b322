-- ===== src/CheckIn/Verdict.antt =====
-- modules/checkins/checkins.service.js: what a scan answers.
use qpass_backend.Prelude.{
  ◌&&◌, ◌||◌, Bool, ℕ, String, ◌≡◌, refl, true, false, not, Option, none, some, arith, ◌==◌,
  eq_refl, is_none, is_some, if◌then◌else◌, ltb, Option-cases, inl, inr, Bool-cases,
}
use qpass_backend.Prelude.Tables.{find_first, find_first-some}
use qpass_backend.Fault.{conflict, forbidden, checkin_not_authorized, checkin_scan_in_progress}
use qpass_backend.Db.{
  Db, Event, EventStaffAssignment, Registration, QrToken, CheckIn, CheckInResult, valid, duplicate,
  invalid, expired, wrong_event, revoked, Result, ok, err, pure, try_finally, ◌>>=◌, ◌>>◌, after,
}
use qpass_backend.CheckIn.Resolve.{
  Context, ScanResult, Resolved, of_pair, is_registration, resolve_check_in,
}
use qpass_backend.CheckIn.Outcome.{IsKnown, resolve_new, resolve_deleted, resolve_active}
use qpass_backend.CheckIn.Scan.{
  is_confirmed, may_scan, lock_free, add_lock, release_lock, lock_name, has_token, scan_token,
  announce, scan_locked, scan_qr,
}

module _ (hash_token : String → String) (ctx : Context) (event_id token : String)
    (device_info : Option String) (staff_id : String) (db : Db) where
  pub scan_unauthorized :
      may_scan event_id staff_id db ≡ false
      → scan_qr hash_token ctx event_id token device_info staff_id db
        ≡ (err (forbidden checkin_not_authorized), db)
  unfolding scan_qr ◌>>◌
  scan_unauthorized h = ground arith

  pub scan_locked_out :
      may_scan event_id staff_id db ≡ true
      → lock_free ctx (lock_name hash_token event_id token) db ≡ false
      → scan_qr hash_token ctx event_id token device_info staff_id db
        ≡ (err (conflict checkin_scan_in_progress), db)
  unfolding scan_qr ◌>>◌
  scan_locked_out h k = ground arith

  -- The staff member owns the event, which is live, or has an active assignment to it.
  abbrev pub has_scan_right : Option Event → Option EventStaffAssignment → Bool
  has_scan_right none a = false
  has_scan_right (some e) none = e.owner_id == staff_id
  has_scan_right (some e) (some a) = (e.owner_id == staff_id) || a.active

  -- Who neither owns the event, which is there and not deleted, nor has an active assignment to it is
  -- refused with 403 by a scan; any other is refused with 409 where Redis does not answer or an
  -- unexpired key with the name of the lock is there. Nothing changes.
  pub scan_refused :
      let may =
        has_scan_right
          (find_first (λ e. (e.id == event_id) && is_none e.deleted_at) db.events)
          (find_first (λ a. (a.event_id == event_id) && (a.user_id == staff_id)) db.assignments) in
      let held = is_some (
        find_first
          (λ k. (k.key == lock_name hash_token event_id token) && ltb ctx.now k.expires_at)
          db.redis) in
      not may || not ctx.redis_up || held ≡ true
      → scan_qr hash_token ctx event_id token device_info staff_id db ≡ (
        err (if may then conflict checkin_scan_in_progress else forbidden checkin_not_authorized),
        db,
      )
  unfolding may_scan lock_free
  scan_refused h = ground (arith, h, scan_unauthorized, scan_locked_out)

-- What an accepted token comes to, by the check-in of its registration at the event.
abbrev pub by_check_in : Option CheckIn → CheckInResult
by_check_in none = valid
by_check_in (some c) = if is_none c.deleted_at then duplicate else valid

-- The result of scanning a stored token, in the order of the code's tests.
abbrev pub verdict : ℕ → String → QrToken → Registration → Option CheckIn → CheckInResult
verdict now event_id t r c =
    if ltb t.expires_at now
    then expired
    else if not (is_confirmed r.status)
    then invalid
    else if not (r.event_id == event_id)
    then wrong_event
    else if is_some t.revoked_at
    then revoked
    else by_check_in c

-- The result of a run that returns.
abbrev pub answer_of : Result ScanResult → Option CheckInResult
answer_of (ok r) = some r.result
answer_of (err e) = none

abbrev resolved_of : Result Resolved → Option CheckInResult
resolved_of (ok r) = some r.scan_result.result
resolved_of (err e) = none

module _ (ctx : Context) (event_id staff_id : String) (device_info : Option String) (db : Db) where
  resolve-verdict :
      (registration_id : String) (token_id : Option String) (r : Registration)
      → find_first (is_registration registration_id) db.registrations ≡ some r
      → IsKnown token_id db
      → resolved_of
          (resolve_check_in ctx event_id registration_id staff_id device_info token_id db).0
        ≡ some (by_check_in (find_first (of_pair event_id registration_id) db.check_ins))
  resolve-verdict id token_id r h k =
      elim (Option-cases (find_first (of_pair event_id id) db.check_ins)) [
        | inl e ↦ rw (resolve_new ctx event_id id staff_id device_info r db h token_id k e, e) refl
        | inr (c, e) ↦ elim (Bool-cases (is_none c.deleted_at)) [
          | inl a ↦
              rw (resolve_active ctx event_id id staff_id device_info r db h c e token_id a, e, a)
                refl
          | inr d ↦
              rw
                (resolve_deleted ctx event_id id staff_id device_info r db h c e token_id k d, e, d)
                refl
        ]
      ]

  scan_token-verdict :
      (t : QrToken) (r : Registration)
      → find_first (is_registration t.registration_id) db.registrations ≡ some r
      → IsKnown (some t.id) db
      → resolved_of (scan_token ctx event_id staff_id device_info t r db).0
        ≡ some (
            verdict ctx.now event_id t r
              (find_first (of_pair event_id t.registration_id) db.check_ins))
  unfolding scan_token ◌>>◌
  scan_token-verdict t r h k = ground (arith, resolve-verdict t.registration_id (some t.id) r h k)

  announced-answer :
      (v : CheckInResult) (p : Result Resolved × Db)
      → resolved_of p.0 ≡ some v
      → answer_of (after p.0 (λ r. announce ctx event_id r >> pure r.scan_result) p.1).0 ≡ some v
  unfolding announce ◌>>◌
  announced-answer v (ok r, d) h = ground arith
  announced-answer v (err e, d) h = cc

-- The lock is in the stores, and nothing else has changed.
module _ (hash_token : String → String) (ctx : Context) (event_id token : String)
    (device_info : Option String) (staff_id : String) (db : Db) where
  unfoldable pub locked : Db
  locked = add_lock ctx.now (lock_name hash_token event_id token) db

  pub scan_qr_runs :
      may_scan event_id staff_id db ≡ true
      → lock_free ctx (lock_name hash_token event_id token) db ≡ true
      → scan_qr hash_token ctx event_id token device_info staff_id db
        ≡ try_finally
            (scan_locked hash_token ctx event_id token staff_id device_info)
            (release_lock (lock_name hash_token event_id token))
            locked
  unfolding scan_qr locked ◌>>◌
  scan_qr_runs h k = ground arith

  -- A scan that is authorized and gets the lock, of a stored token whose registration is stored,
  -- returns a result, and which one is decided by these tests in this order: the token has expired,
  -- the registration is not confirmed, it is for another event, the token is revoked, its check-in
  -- at the event is active; otherwise the check-in is valid.
  pub scan_verdict :
      (t : QrToken) (r : Registration)
      → may_scan event_id staff_id db ≡ true
      → lock_free ctx (lock_name hash_token event_id token) db ≡ true
      → find_first (has_token hash_token token) db.qr_tokens ≡ some t
      → find_first (is_registration t.registration_id) db.registrations ≡ some r
      → answer_of (scan_qr hash_token ctx event_id token device_info staff_id db).0
        ≡ some (
            verdict ctx.now event_id t r
              (find_first (of_pair event_id t.registration_id) db.check_ins))
  unfolding locked add_lock scan_locked ◌>>=◌
  scan_verdict t r may free ht hr =
      rw (scan_qr_runs may free, ht, hr)
        (announced-answer ctx event_id staff_id device_info locked _ _ (
          scan_token-verdict ctx event_id staff_id device_info locked t r hr
            (find_first-some _ _ db.qr_tokens ht (eq_refl t.id))))
