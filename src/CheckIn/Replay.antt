-- ===== src/CheckIn/Replay.antt =====
-- modules/checkins/checkins.service.js: a QR token admits once.
use qpass_backend.Prelude.{
  ℕ, String, ◌≡◌, ◌≢◌, refl, ap, ◌∙◌, Bool, true, Option, some, List, arith, eq_refl, is_none,
  is_some, if◌then◌else◌, Option-cases, inl, inr, Bool-cases,
}
use qpass_backend.Prelude.Tables.{find_first, find_first-some, update_many, find_first-update_many}
use qpass_backend.Db.{
  Db, Event, Registration, QrToken, CheckInResult, valid, Result, ok, err, pure, ◌>>=◌, ◌>>◌, after,
}
use qpass_backend.CheckIn.Resolve.{
  Context, Resolved, of_pair, is_registration, is_qr_token, use_up, resolve_check_in,
}
use qpass_backend.CheckIn.Outcome.{IsKnown, spent, resolve_new, resolve_deleted, resolve_active}
use qpass_backend.CheckIn.Scan.{
  is_valid, may_scan, lock_free, add_lock, release_lock, lock_name, has_token, scan_token, announce,
  scan_locked, scan_qr,
}
use qpass_backend.CheckIn.Verdict.{
  by_check_in, verdict, answer_of, locked, scan_qr_runs, scan_verdict, scan_unauthorized,
  scan_locked_out,
}

-- The tokens, the registrations and the events that a run leaves.
abbrev pub left_by {ℓ} : {A : Type ℓ} → A × Db → List QrToken × List Registration × List Event
left_by p = (p.1.qr_tokens, p.1.registrations, p.1.events)

abbrev used_if : Bool → ℕ → Option String → Db → List QrToken × List Registration × List Event
used_if b now token_id db =
    (if b then spent now token_id db.qr_tokens else db.qr_tokens, db.registrations, db.events)

module _ (ctx : Context) (event_id staff_id : String) (device_info : Option String) (db : Db) where
  resolve-left :
      (registration_id : String) (token_id : Option String) (r : Registration)
      → find_first (is_registration registration_id) db.registrations ≡ some r
      → IsKnown token_id db
      → left_by (resolve_check_in ctx event_id registration_id staff_id device_info token_id db)
        ≡ used_if
            (is_valid (by_check_in (find_first (of_pair event_id registration_id) db.check_ins)))
            ctx.now
            token_id
            db
  resolve-left id token_id r h k =
      elim (Option-cases (find_first (of_pair event_id id) db.check_ins)) [
        | inl e ↦ rw (resolve_new ctx event_id id staff_id device_info r db h token_id k e, e) refl
        | inr (c, e) ↦ elim (Bool-cases (is_none c.deleted_at)) [
          | inl a ↦
              rw (resolve_active ctx event_id id staff_id device_info r db h c e token_id a, e, a)
                refl
          | inr d ↦
              rw
                (resolve_deleted ctx event_id id staff_id device_info r db h c e token_id k d, e, d)
                refl
        ]
      ]

  scan_token-left :
      (t : QrToken) (r : Registration)
      → find_first (is_registration t.registration_id) db.registrations ≡ some r
      → IsKnown (some t.id) db
      → left_by (scan_token ctx event_id staff_id device_info t r db)
        ≡ used_if
            (is_valid (
              verdict ctx.now event_id t r
                (find_first (of_pair event_id t.registration_id) db.check_ins)))
            ctx.now
            (some t.id)
            db
  unfolding scan_token ◌>>◌
  scan_token-left t r h k = ground (arith, resolve-left t.registration_id (some t.id) r h k)

  announced-left :
      (p : Result Resolved × Db)
      → left_by (after p.0 (λ r. announce ctx event_id r >> pure r.scan_result) p.1) ≡ left_by p
  unfolding announce ◌>>◌
  announced-left (ok r, d) = ground arith
  announced-left (err e, d) = refl

module _ (hash_token : String → String) (ctx : Context) (event_id token : String)
    (device_info : Option String) (staff_id : String) (db : Db) (t : QrToken) (r : Registration)
    (ht : find_first (has_token hash_token token) db.qr_tokens ≡ some t)
    (hr : find_first (is_registration t.registration_id) db.registrations ≡ some r) where
  scan_qr-left :
      may_scan event_id staff_id db ≡ true
      → lock_free ctx (lock_name hash_token event_id token) db ≡ true
      → left_by (scan_qr hash_token ctx event_id token device_info staff_id db)
        ≡ used_if
            (is_valid (
              verdict ctx.now event_id t r
                (find_first (of_pair event_id t.registration_id) db.check_ins)))
            ctx.now
            (some t.id)
            db
  unfolding locked add_lock scan_locked release_lock ◌>>=◌
  scan_qr-left may free =
      rw (scan_qr_runs hash_token ctx event_id token device_info staff_id db may free, ht, hr)
        (announced-left ctx event_id staff_id device_info
            (locked hash_token ctx event_id token device_info staff_id db) _
          ∙ scan_token-left ctx event_id staff_id device_info
              (locked hash_token ctx event_id token device_info staff_id db) t r hr
              (find_first-some _ _ db.qr_tokens ht (eq_refl t.id)))

-- A scan that answers at all was authorized and had the lock.
module _ (hash_token : String → String) (ctx : Context) (event_id token : String)
    (device_info : Option String) (staff_id : String) (db : Db) {v : CheckInResult}
    (answered : answer_of (scan_qr hash_token ctx event_id token device_info staff_id db).0
      ≡ some v) where
  pub answered_may : may_scan event_id staff_id db ≡ true
  answered_may =
      ground
        (arith, answered, scan_unauthorized hash_token ctx event_id token device_info staff_id db)

  pub answered_free : lock_free ctx (lock_name hash_token event_id token) db ≡ true
  answered_free = ground (
    arith,
    answered,
    answered_may,
    scan_locked_out hash_token ctx event_id token device_info staff_id db,
  )

module _ (hash_token : String → String) (token : String) (db : Db) (t : QrToken) (r : Registration)
    (ht : find_first (has_token hash_token token) db.qr_tokens ≡ some t)
    (hr : find_first (is_registration t.registration_id) db.registrations ≡ some r) where
  revoked_token_refused :
      (ctx : Context) (event_id : String) (device_info : Option String) (staff_id : String)
      → is_some t.revoked_at ≡ true
      → answer_of (scan_qr hash_token ctx event_id token device_info staff_id db).0 ≢ some valid
  revoked_token_refused ctx event_id device_info staff_id h a =
      let v =
        scan_verdict hash_token ctx event_id token device_info staff_id db t r
          (answered_may hash_token ctx event_id token device_info staff_id db a)
          (answered_free hash_token ctx event_id token device_info staff_id db a) ht hr in
      ground (arith, v, h, a)

module _ (hash_token : String → String) (token : String) (db : Db) (t : QrToken) (r : Registration)
    (ht : find_first (has_token hash_token token) db.qr_tokens ≡ some t)
    (hr : find_first (is_registration t.registration_id) db.registrations ≡ some r) (ctx : Context)
    (event_id : String) (device_info : Option String) (staff_id : String)
    (a : answer_of (scan_qr hash_token ctx event_id token device_info staff_id db).0
      ≡ some valid) where
  abbrev pub scanned : Db
  scanned = (scan_qr hash_token ctx event_id token device_info staff_id db).1

  pub scanned-left :
      left_by (scan_qr hash_token ctx event_id token device_info staff_id db)
      ≡ (update_many (is_qr_token t.id) (use_up ctx.now) db.qr_tokens, db.registrations, db.events)
  scanned-left =
      let may = answered_may hash_token ctx event_id token device_info staff_id db a in
      let free = answered_free hash_token ctx event_id token device_info staff_id db a in
      let v =
        scan_verdict hash_token ctx event_id token device_info staff_id db t r may free ht hr in
      let l =
        scan_qr-left hash_token ctx event_id token device_info staff_id db t r ht hr may free in
      ground (arith, v, l, a)

  -- The token is found again, used up.
  pub token_after :
      find_first (has_token hash_token token) scanned.qr_tokens ≡ some (use_up ctx.now t)
  token_after = rw (ap (λ p. p.0) scanned-left) (
      find_first-update_many (has_token hash_token token) (is_qr_token t.id) (use_up ctx.now)
        db.qr_tokens (λ x h. refl)
      ∙ rw (ht, eq_refl t.id) refl)

  pub registration_after :
      find_first (is_registration t.registration_id) scanned.registrations ≡ some r
  registration_after = rw (ap (λ p. p.1) scanned-left) hr

  -- A scan that answers VALID for a stored token uses the token up: whatever scan of the same
  -- token comes next, at any event, by any staff member, at any time, it does not answer VALID.
  pub scan_once :
      (ctx' : Context) (event_id' : String) (device_info' : Option String) (staff_id' : String)
      → answer_of (scan_qr hash_token ctx' event_id' token device_info' staff_id' scanned).0
        ≢ some valid
  scan_once ctx' event_id' device_info' staff_id' =
      revoked_token_refused hash_token token scanned (use_up ctx.now t) r token_after
        registration_after ctx' event_id' device_info' staff_id' refl
