-- ===== src/Tests/Scans.antt =====
-- modules/checkins/checkins.service.js: scans of Ada's token at the door.
use qpass_backend.Prelude.{String, ◌≡◌, ◌≢◌, refl, arith, false, none, some, ◌∷◌, []}
use qpass_backend.Prelude.Tables.{find_first}
use qpass_backend.Fault.{
  conflict, bad_request, not_found, checkin_scan_in_progress, checkin_undo_window_expired,
  checkin_not_found,
}
use qpass_backend.Db.{Db, valid, ok, err}
use qpass_backend.Event.Handlers.{alone}
use qpass_backend.CheckIn.Scan.{may_scan, lock_free, scan_qr, has_token}
use qpass_backend.CheckIn.Undo.{undo_check_in}
use qpass_backend.CheckIn.Verdict.{answer_of, scan_refused, scan_verdict}
use qpass_backend.CheckIn.Replay.{scan_once}
use qpass_backend.CheckIn.Reversal.{undo_stopped, undo_raced}
use qpass_backend.CheckIn.RoundTrip.{scan-undo}
use qpass_backend.Tests.Fixture.{store, launch, ada, adas_token, adas_check_in, at_door}

-- The hash that keeps the text as it is.
abbrev same : String → String
same s = s

-- Ada's token is admitted, by the owner, at a door that Redis serves.
abbrev scanned : Db
scanned = (scan_qr same at_door "e1" "q1" none "o1" store).1

admitted : answer_of (scan_qr same at_door "e1" "q1" none "o1" store).0 ≡ some valid
unfolding find_first may_scan lock_free
admitted = scan_verdict same at_door "e1" "q1" none "o1" store adas_token ada refl refl refl refl

scan_once_example :
    answer_of
      (scan_qr same (record at_door { now = 600; new_id = "c2" }) "e1" "q1" none "o1" scanned).0
    ≢ some valid
unfolding find_first
scan_once_example =
    scan_once same "q1" store adas_token ada refl refl at_door "e1" none "o1" admitted
      (record at_door { now = 600; new_id = "c2" }) "e1" none "o1"

scan_verdict_example : answer_of (scan_qr same at_door "e1" "q1" none "u1" store).0 ≡ some valid
unfolding find_first may_scan lock_free
scan_verdict_example =
    scan_verdict same at_door "e1" "q1" none "u1" store adas_token ada refl refl refl refl

scan_refused_example :
    scan_qr same (record at_door { redis_up = false }) "e1" "q1" none "o1" store
    ≡ (err (conflict checkin_scan_in_progress), store)
unfolding find_first
scan_refused_example =
    scan_refused same (record at_door { redis_up = false }) "e1" "q1" none "o1" store refl

scan-undo_example :
    ((undo_check_in alone 700 "e1" "c1" "o1" scanned).0 ≡ ok tt)
    × (find_first (has_token same "q1") (undo_check_in alone 700 "e1" "c1" "o1" scanned).1.qr_tokens
        ≡ some adas_token)
unfolding find_first
scan-undo_example =
    scan-undo same "q1" store adas_token ada refl refl at_door "e1" none "o1" admitted refl launch
      700 refl refl refl (ground arith)

abbrev checked_in : Db
checked_in = record store { check_ins = adas_check_in ∷ [] }

undo_stopped_example :
    undo_check_in alone 86400501 "e1" "c1" "o1" checked_in
    ≡ (err (bad_request checkin_undo_window_expired), checked_in)
unfolding find_first
undo_stopped_example =
    undo_stopped "e1" "c1" "o1" 86400501 checked_in adas_check_in launch refl refl alone
      (bad_request checkin_undo_window_expired) refl

undo_raced_example :
    undo_check_in
      (record alone { before_write = λ db. record db { check_ins = [] } })
      600
      "e1"
      "c1"
      "o1"
      checked_in
    ≡ (err (not_found checkin_not_found), record checked_in { check_ins = [] })
unfolding find_first
undo_raced_example =
    undo_raced "e1" "c1" "o1" 600 checked_in adas_check_in launch refl refl
      (record alone { before_write = λ db. record db { check_ins = [] } }) refl refl
