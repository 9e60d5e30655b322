-- ===== src/CheckIn/Reversal.antt =====
-- modules/checkins/checkins.service.js: undoing a check-in takes a scan back.
use qpass_backend.Prelude.{
  ℕ, zero, suc, ◌-◌, String, ◌≡◌, refl, ◌∙◌, false, not, ◌&&◌, Option, none, some, List, [], ◌∷◌,
  ◌++◌, arith, ◌==◌, is_none, is_some, if◌then◌else◌, ltb, eqb,
}
use qpass_backend.Prelude.Tables.{
  find_first, count, update_many, find_first-test, count-eq-zero, count-pos, find_first_narrow,
}
use qpass_backend.Fault.{
  Fault, not_found, forbidden, bad_request, checkin_not_found, checkin_undo_not_authorized,
  checkin_undo_window_expired,
}
use qpass_backend.Db.{
  Db, Event, CheckIn, Registration, QrToken, ℤ, pos, negsuc, ok, err, ◌>>◌, write_audit_log,
}
use qpass_backend.Event.Handlers.{Interleaving, alone, alive, find_event}
use qpass_backend.CheckIn.Resolve.{increment, decrement, is_check_in, is_registration, is_qr_token}
use qpass_backend.CheckIn.Undo.{
  hours_24_ms, active_check_in, token_of, give_back, confirm, reverse_token, undo_writes,
  undo_check_in,
}

pub decrement-increment : (n : ℤ) → decrement (increment n) ≡ n
unfolding increment decrement
decrement-increment (pos n) = refl
decrement-increment (negsuc zero) = refl
decrement-increment (negsuc (suc n)) = refl

-- The tokens after the transaction.
abbrev pub given_back : Option QrToken → List QrToken → List QrToken
given_back none ts = ts
given_back (some t) ts =
    if is_none t.revoked_at then ts else update_many (is_qr_token t.id) give_back ts

abbrev pub undone : ℕ → String → String → CheckIn → Db → Db
undone now check_in_id staff_id c db = record db {
  check_ins =
      update_many (active_check_in check_in_id) (λ x. record x { deleted_at = some now })
        db.check_ins;
  registrations = update_many (is_registration c.registration_id) confirm db.registrations;
  qr_tokens = given_back (find_first (token_of c.registration_id) db.qr_tokens) db.qr_tokens;
  audit_logs =
      db.audit_logs
      ++ record {
        actor_id = some staff_id;
        action = "UNDO_CHECKIN";
        entity = "CheckIn";
        entity_id = check_in_id;
      }
        ∷ [];
}

undo_writes_lem :
    (now : ℕ) (check_in_id staff_id : String) (c : CheckIn) (r : Registration) (db : Db)
    → eqb (count (active_check_in check_in_id) db.check_ins) 0 ≡ false
    → find_first (is_registration c.registration_id) db.registrations ≡ some r
    → undo_writes now check_in_id staff_id c db ≡ (ok tt, undone now check_in_id staff_id c db)
unfolding undo_writes reverse_token write_audit_log ◌>>◌
undo_writes_lem now check_in_id staff_id c r db h hr = ground (arith, hr, h)

-- The tests before the transaction.
module _ (event_id check_in_id staff_id : String) (now : ℕ) (db : Db) (c : CheckIn) (e : Event)
    (found : find_first (is_check_in check_in_id) db.check_ins ≡ some c)
    (event : find_first (alive event_id) db.events ≡ some e) where
  -- What stands in the way of an undo, in the order of the tests: the check-in belongs to another
  -- event or is undone already (404), the caller neither owns the event nor made the check-in (403),
  -- and more than 24 hours have passed (400).
  abbrev pub obstacle : Option Fault
  obstacle =
      if not (c.event_id == event_id)
      then some (not_found checkin_not_found)
      else if is_some c.deleted_at
      then some (not_found checkin_not_found)
      else if not (e.owner_id == staff_id) && not (c.staff_id == staff_id)
      then some (forbidden checkin_undo_not_authorized)
      else if ltb hours_24_ms (now - c.scanned_at)
      then some (bad_request checkin_undo_window_expired)
      else none

  -- An undo that one of the tests stops answers with the first obstacle and changes nothing.
  pub undo_stopped :
      (env : Interleaving) (f : Fault)
      → obstacle ≡ some f
      → undo_check_in env now event_id check_in_id staff_id db ≡ (err f, db)
  unfolding undo_check_in find_event ◌>>◌
  undo_stopped env f h = ground (arith, found, event)

  undo_passes :
      (env : Interleaving)
      → obstacle ≡ none
      → undo_check_in env now event_id check_in_id staff_id db
        ≡ undo_writes now check_in_id staff_id c (env.before_write db)
  unfolding undo_check_in find_event ◌>>◌
  undo_passes env h = ground (arith, found, event)

  -- An undo that passed the tests, but whose check-in was undone by another request before its
  -- transaction, answers 404 and writes nothing.
  pub undo_raced :
      (env : Interleaving)
      → obstacle ≡ none
      → find_first (active_check_in check_in_id) (env.before_write db).check_ins ≡ none
      → undo_check_in env now event_id check_in_id staff_id db
        ≡ (err (not_found checkin_not_found), env.before_write db)
  unfolding undo_writes ◌>>◌
  undo_raced env h gone = rw (undo_passes env h) (
      ground
        (arith, count-eq-zero (active_check_in check_in_id) (env.before_write db).check_ins gone))

  pub undo_lem :
      (r : Registration)
      → obstacle ≡ none
      → find_first (is_registration c.registration_id) db.registrations ≡ some r
      → undo_check_in alone now event_id check_in_id staff_id db
        ≡ (ok tt, undone now check_in_id staff_id c db)
  undo_lem r h hr =
      undo_passes alone h
      ∙ undo_writes_lem now check_in_id staff_id c r db
          (ground (
            arith,
            find_first-test (is_check_in check_in_id) db.check_ins found,
            count-pos (active_check_in check_in_id) db.check_ins {a = c},
            find_first_narrow (is_check_in check_in_id) (active_check_in check_in_id) db.check_ins
                {a = c} (λ b x. ground arith) found,
          ))
          hr
