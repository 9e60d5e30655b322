-- ===== src/CheckIn/RoundTrip.antt =====
-- modules/checkins/checkins.service.js: a scan, undone.
use qpass_backend.Prelude.{
  ℕ, ◌+◌, ◌≤◌, String, ◌≡◌, refl, ap, ◌∙◌, true, Option, none, some, [], ◌∷◌, ◌++◌, arith, eq_refl,
}
use qpass_backend.Prelude.Tables.{
  find_first, find_first-some, find_first-append, find_first-update_many,
}
use qpass_backend.Db.{
  Db, Event, CheckIn, Registration, QrToken, valid, Result, ok, err, pure, after, ◌>>=◌, ◌>>◌,
}
use qpass_backend.Event.Handlers.{alone, alive}
use qpass_backend.CheckIn.Resolve.{
  Context, Resolved, of_pair, is_check_in, is_registration, is_qr_token, use_up, new_check_in,
}
use qpass_backend.CheckIn.Outcome.{IsKnown, resolve_new}
use qpass_backend.CheckIn.Scan.{
  may_scan, lock_free, lock_name, has_token, scan_token, announce, scan_locked, add_lock,
  release_lock, scan_qr,
}
use qpass_backend.CheckIn.Verdict.{verdict, answer_of, locked, scan_qr_runs, scan_verdict}
use qpass_backend.CheckIn.Replay.{answered_may, answered_free, scanned-left, token_after}
use qpass_backend.CheckIn.Undo.{hours_24_ms, token_of, give_back, undo_check_in}
use qpass_backend.CheckIn.Reversal.{undo_lem, decrement-increment, obstacle}

module _ (ctx : Context) (event_id staff_id : String) (device_info : Option String) where
  scan_token-check_ins :
      (db : Db) (t : QrToken) (r : Registration)
      → find_first (is_registration t.registration_id) db.registrations ≡ some r
      → IsKnown (some t.id) db
      → find_first (of_pair event_id t.registration_id) db.check_ins ≡ none
      → verdict ctx.now event_id t r none ≡ valid
      → (scan_token ctx event_id staff_id device_info t r db).1.check_ins
        ≡ db.check_ins ++ new_check_in ctx event_id t.registration_id staff_id device_info ∷ []
  unfolding scan_token ◌>>◌
  scan_token-check_ins db t r hr hk h v = ground (
    arith,
    resolve_new ctx event_id t.registration_id staff_id device_info r db hr (some t.id) hk h,
  )

  announced-check_ins :
      (p : Result Resolved × Db)
      → (after p.0 (λ r. announce ctx event_id r >> pure r.scan_result) p.1).1.check_ins
        ≡ p.1.check_ins
  unfolding announce ◌>>◌
  announced-check_ins (ok r, d) = ground arith
  announced-check_ins (err e, d) = refl

module _ (hash_token : String → String) (ctx : Context) (event_id token : String)
    (device_info : Option String) (staff_id : String) (db : Db) (t : QrToken) (r : Registration)
    (ht : find_first (has_token hash_token token) db.qr_tokens ≡ some t)
    (hr : find_first (is_registration t.registration_id) db.registrations ≡ some r) where
  scan_qr-check_ins :
      may_scan event_id staff_id db ≡ true
      → lock_free ctx (lock_name hash_token event_id token) db ≡ true
      → find_first (of_pair event_id t.registration_id) db.check_ins ≡ none
      → verdict ctx.now event_id t r none ≡ valid
      → (scan_qr hash_token ctx event_id token device_info staff_id db).1.check_ins
        ≡ db.check_ins ++ new_check_in ctx event_id t.registration_id staff_id device_info ∷ []
  unfolding locked add_lock scan_locked release_lock ◌>>=◌
  scan_qr-check_ins may free new v =
      rw (scan_qr_runs hash_token ctx event_id token device_info staff_id db may free, ht, hr)
        (announced-check_ins ctx event_id staff_id device_info _
          ∙ scan_token-check_ins ctx event_id staff_id device_info
              (locked hash_token ctx event_id token device_info staff_id db) t r hr
              (find_first-some _ _ db.qr_tokens ht (eq_refl t.id)) new v)

module _ (hash_token : String → String) (token : String) (db : Db) (t : QrToken) (r : Registration)
    (ht : find_first (has_token hash_token token) db.qr_tokens ≡ some t)
    (hr : find_first (is_registration t.registration_id) db.registrations ≡ some r) (ctx : Context)
    (event_id : String) (device_info : Option String) (staff_id : String)
    (a : answer_of (scan_qr hash_token ctx event_id token device_info staff_id db).0 ≡ some valid)
    (new : find_first (of_pair event_id t.registration_id) db.check_ins ≡ none) where
  fresh_verdict : verdict ctx.now event_id t r none ≡ valid
  fresh_verdict =
      let may = answered_may hash_token ctx event_id token device_info staff_id db a in
      let free = answered_free hash_token ctx event_id token device_info staff_id db a in
      let v =
        scan_verdict hash_token ctx event_id token device_info staff_id db t r may free ht hr in
      ground (arith, v, a, new)

  abbrev scanned_db : Db
  scanned_db = (scan_qr hash_token ctx event_id token device_info staff_id db).1

  abbrev made : CheckIn
  made = new_check_in ctx event_id t.registration_id staff_id device_info

  scanned-check_ins : scanned_db.check_ins ≡ db.check_ins ++ made ∷ []
  scanned-check_ins =
      scan_qr-check_ins hash_token ctx event_id token device_info staff_id db t r ht hr
        (answered_may hash_token ctx event_id token device_info staff_id db a)
        (answered_free hash_token ctx event_id token device_info staff_id db a) new fresh_verdict

  token_restored : some (give_back (use_up ctx.now t)) ≡ some t
  token_restored = ground (arith, decrement-increment t.scan_count, fresh_verdict)

  -- A VALID scan of a registration with no earlier check-in at the event, undone by the same staff
  -- member within 24 hours: the undo succeeds, if the id of the check-in was fresh and the
  -- registration has one token, and the token is then stored as it was before the scan.
  pub scan-undo :
      (e : Event) (now : ℕ)
      → find_first (alive event_id) db.events ≡ some e
      → find_first (is_check_in ctx.new_id) db.check_ins ≡ none
      → find_first (token_of t.registration_id) db.qr_tokens ≡ some t
      → now ≤ ctx.now + hours_24_ms
      → let r = undo_check_in alone now event_id ctx.new_id staff_id scanned_db in
        (r.0 ≡ ok tt) × (find_first (has_token hash_token token) r.1.qr_tokens ≡ some t)
  scan-undo e now he fresh one within =
      let left = scanned-left hash_token token db t r ht hr ctx event_id device_info staff_id a in
      let made_found : find_first (is_check_in ctx.new_id) scanned_db.check_ins ≡ some made =
        rw scanned-check_ins (
          find_first-append (is_check_in ctx.new_id) db.check_ins made fresh
            (eq_refl ctx.new_id)) in
      let event : find_first (alive event_id) scanned_db.events ≡ some e =
        rw (ap (λ p. p.2) left) he in
      let reg : find_first (is_registration t.registration_id) scanned_db.registrations ≡ some r =
        rw (ap (λ p. p.1) left) hr in
      let free : obstacle event_id ctx.new_id staff_id now scanned_db made e made_found event
          ≡ none =
        ground (arith, eq_refl event_id, eq_refl staff_id) in
      let tok : find_first (token_of t.registration_id) scanned_db.qr_tokens
          ≡ some (use_up ctx.now t) =
        rw (ap (λ p. p.0) left) (
          find_first-update_many (token_of t.registration_id) (is_qr_token t.id) (use_up ctx.now)
            db.qr_tokens (λ x h. refl)
          ∙ rw (one, eq_refl t.id) refl) in
      rw
        (
          undo_lem event_id ctx.new_id staff_id now scanned_db made e made_found event r free reg,
          tok,
        )
        (
          refl,
          find_first-update_many (has_token hash_token token) (is_qr_token t.id) give_back
                scanned_db.qr_tokens (λ x h. refl)
              ∙ rw
                  (
                    token_after hash_token token db t r ht hr ctx event_id device_info staff_id a,
                    eq_refl t.id,
                  )
                  token_restored,
        )
