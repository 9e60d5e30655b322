-- ===== src/CheckIn/Refine.antt =====
-- modules/checkins/checkins.service.js: `resolveCheckIn` and `undoCheckin` on the table of check-ins
-- are arriving and departing on the set of attendees that are inside.
use qpass_backend.Prelude.{
  ℕ, String, ◌≡◌, refl, sym, ◌∙◌, ap, true, false, ◌==◌, eq_refl, eq_iff, Option, none, some, arith,
  inl, inr, Bool-cases, Option-cases, eq_both, is_some, is_none, and-left,
}
use qpass_backend.Prelude.Tables.{
  find_first, find_first-none, find_first-some, find_first-test, find_first-All, find_first_unique,
  Distinct,
}
use qpass_backend.Db.{Db, Event, Registration, CheckIn, CheckInResult, Result, ok, err}
use qpass_backend.Event.Handlers.{alone, alive}
use qpass_backend.CheckIn.Resolve.{
  Context, Resolved, of_pair, is_registration, is_check_in, restore, new_check_in, resolve_check_in,
}
use qpass_backend.CheckIn.Undo.{active_check_in, undo_check_in}
use qpass_backend.CheckIn.Outcome.{IsKnown, resolve_new, resolve_deleted, resolve_active}
use qpass_backend.CheckIn.Reversal.{obstacle, undo_lem}
use qpass_backend.CheckIn.Attendance.{
  Attendance, arrive, depart, attendance, present, same_pair, same_check_in, both_of_pair,
  attendance-row, attendance_others, attendance_in, attendance_out, attendance_new,
}

-- The result that a scan answers.
abbrev pub result_of : Result Resolved → Option CheckInResult
result_of (ok r) = some r.scan_result.result
result_of (err e) = none

module _ (event_id id : String) (db : Db) (pairs : Distinct same_pair db.check_ins)
    (ids : Distinct same_check_in db.check_ins) where
  abbrev pub inside : Attendance
  inside = attendance event_id db.check_ins

  -- The table of check-ins keeps its unique index and its ids distinct, and the registration and its
  -- token are stored. Then what `resolveCheckIn` answers, and whom it leaves inside, is an arrival in
  -- the set of attendees: whether the registration is new, undone or inside already.
  pub resolve_check_in-refines :
      (ctx : Context) (staff_id : String) (device_info token_id : Option String) (r : Registration)
      (other : String)
      → find_first (is_registration id) db.registrations ≡ some r
      → IsKnown token_id db
      → let after = resolve_check_in ctx event_id id staff_id device_info token_id db in
        (result_of after.0 ≡ some (arrive id inside).0)
        × (attendance event_id after.1.check_ins other ≡ (arrive id inside).1 other)
  resolve_check_in-refines ctx staff_id device_info token_id r other known token =
      elim (Option-cases (find_first (of_pair event_id id) db.check_ins)) [
        | inl e ↦
            let outside : inside id ≡ false = ap is_some (
              find_first-none (of_pair event_id id) (present event_id id) db.check_ins
                (λ x h. and-left _ _ h) e) in
            let new = new_check_in ctx event_id id staff_id device_info in
            rw (resolve_new ctx event_id id staff_id device_info r db known token_id token e) (
              rw outside refl,
              attendance_new event_id id db.check_ins new other
                  (ground (arith, eq_refl event_id, eq_refl id)) refl e,
            )
        | inr (c, e) ↦
            let row = attendance-row event_id id db.check_ins c pairs ids e in
            elim (Bool-cases (is_none c.deleted_at)) [
              | inl active ↦
                  rw
                    (resolve_active ctx event_id id staff_id device_info r db known c e token_id
                      active)
                    (
                      rw (row, active) refl,
                      elim (Bool-cases (other == id)) [
                        | inl k ↦
                            let same = (eq_iff other id).0 k in rw (same, eq_refl id, row) active
                        | inr k ↦ rw k refl
                      ],
                    )
              | inr gone ↦
                  rw
                    (resolve_deleted ctx event_id id staff_id device_info r db known c e token_id
                      token gone)
                    (
                      rw (row, gone) refl,
                      elim (Bool-cases (other == id)) [
                        | inl k ↦
                            let same = (eq_iff other id).0 k in
                            rw (same, eq_refl id)
                              (attendance_in event_id id db.check_ins c pairs ids e
                                (restore ctx staff_id device_info) (λ o x. refl) refl)
                        | inr k ↦ rw k (
                            attendance_others event_id id db.check_ins c pairs ids e
                              (restore ctx staff_id device_info) (λ o x. refl) (is_check_in c.id)
                              other (λ x h. h) k)
                      ],
                    )
            ]
      ]

  pair_found :
      (c : CheckIn) (check_in_id : String)
      → find_first (is_check_in check_in_id) db.check_ins ≡ some c
      → of_pair event_id id c ≡ true
      → find_first (of_pair event_id id) db.check_ins ≡ some c
  pair_found c check_in_id found pair =
      elim (Option-cases (find_first (of_pair event_id id) db.check_ins)) [
        | inl e ↦ ground (
          arith,
          e,
          find_first-some (is_check_in check_in_id) (of_pair event_id id) db.check_ins found pair,
        )
        | inr (a, e) ↦
            let u =
              find_first_unique same_pair (of_pair event_id id) db.check_ins
                (both_of_pair event_id id) pairs e in
            let same =
              find_first-All (λ x. of_pair event_id id x ≡ true → x ≡ a) (is_check_in check_in_id)
                db.check_ins u found pair in
            e ∙ ap some (sym same)
      ]

  -- Under the same conditions, an undo of a check-in that nothing stands in the way of, with no other
  -- request between, is the departure of its registration.
  pub undo_check_in-refines :
      (check_in_id staff_id : String) (now : ℕ) (c : CheckIn) (e : Event) (r : Registration)
      (other : String)
      → (found : find_first (is_check_in check_in_id) db.check_ins ≡ some c)
      → (event : find_first (alive event_id) db.events ≡ some e)
      → obstacle event_id check_in_id staff_id now db c e found event ≡ none
      → c.registration_id ≡ id
      → find_first (is_registration c.registration_id) db.registrations ≡ some r
      → attendance event_id
          (undo_check_in alone now event_id check_in_id staff_id db).1.check_ins
          other
        ≡ depart id inside other
  undo_check_in-refines check_in_id staff_id now c e r other found event free theirs known =
      let same_event : (c.event_id == event_id) ≡ true = ground (arith, free) in
      let active : is_none c.deleted_at ≡ true = ground (arith, free) in
      let pair : of_pair event_id id c ≡ true =
        ground (arith, same_event, (eq_iff c.registration_id id).1 theirs) in
      let test = find_first-test (is_check_in check_in_id) db.check_ins found in
      let of = pair_found c check_in_id found pair in
      let f : CheckIn → CheckIn = λ x. record x { deleted_at = some now } in
      rw (undo_lem event_id check_in_id staff_id now db c e found event r free known)
        (elim (Bool-cases (other == id)) [
          | inl k ↦
              let same = (eq_iff other id).0 k in
              rw (same, eq_refl id)
                (attendance_out event_id id db.check_ins c pairs ids of f (λ o x. refl)
                  (active_check_in check_in_id) (ground (arith, test, active)) (λ x. refl))
          | inr k ↦ rw k (
              attendance_others event_id id db.check_ins c pairs ids of f (λ o x. refl)
                (active_check_in check_in_id) other
                (λ x h. eq_both x.id c.id check_in_id (and-left _ _ h) test) k)
        ])
