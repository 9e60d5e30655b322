-- ===== src/Staff/Access.antt =====
-- modules/staff/staff.service.js and the guard of modules/checkins/checkins.service.js: an
-- assignment opens the scanner of the event, and its removal closes it.
use qpass_backend.Prelude.{
  String, ◌≡◌, refl, Bool, true, false, Option, none, some, List, [], ◌∷◌, arith, ◌==◌, eq_refl,
  eq_iff, All, Bool-cases, Option-cases, ap, ◌∙◌, inl, inr,
}
use qpass_backend.Prelude.Tables.{
  find_first, delete_many, find_first-append, find_first-All, Distinct,
}
use qpass_backend.Db.{
  Db, User, UserRole, attendee, staff, Event, EventStaffAssignment, Result, ok, err, after, pure,
  ◌>>=◌, ◌>>◌, write_audit_log,
}
use qpass_backend.Db.Users.{has_email, insert_user, update_user}
use qpass_backend.Text.{trim, to_lower_case}
use qpass_backend.Event.Handlers.{alone, alive}
use qpass_backend.CheckIn.Scan.{assigned, may_scan}
use qpass_backend.Staff.Assign.{
  verify_event_ownership, is_assignment, Hire, StaffData, or_reload, or_invite, make_staff,
  new_assignment, insert_assignment, record_assignment, assign_user, assign_staff,
  delete_assignment, remove_staff,
}

-- The tables that the scanner's guard reads.
abbrev read {ℓ} : {A : Type ℓ} → A × Db → List Event × List EventStaffAssignment
read p = (p.1.events, p.1.assignments)

or_invite-read :
    (hire : Hire) (email : String) (o : Option User) (db : Db)
    → read (or_invite alone hire email o db) ≡ (db.events, db.assignments)
unfolding or_invite insert_user or_reload ◌>>◌
or_invite-read hire email (some u) db = refl
or_invite-read hire email none db = ground arith

make_staff-read :
    (id : String) (role : UserRole) (db : Db)
    → read (make_staff id role db) ≡ (db.events, db.assignments)
unfolding make_staff update_user ◌>>◌
make_staff-read id attendee db = ground arith
make_staff-read id staff db = refl
make_staff-read id UserRole.organizer db = refl
make_staff-read id UserRole.admin db = refl

record_assignment-may_scan :
    (new a : EventStaffAssignment) (owner_id : String) (b : Bool) (db : Db) (e : Event)
    → new.active ≡ true
    → find_first (alive new.event_id) db.events ≡ some e
    → find_first (assigned new.event_id new.user_id) db.assignments ≡ none
    → (record_assignment new owner_id b db).0 ≡ ok a
    → (a ≡ new) × (may_scan new.event_id new.user_id (record_assignment new owner_id b db).1 ≡ true)
unfolding record_assignment insert_assignment may_scan write_audit_log ◌>>◌
record_assignment-may_scan new a owner_id b db e act live free h =
    let x =
      find_first-append (assigned new.event_id new.user_id) db.assignments new free
        (ground (arith, eq_refl new.event_id, eq_refl new.user_id)) in
    (ground arith, ground (arith, x))

assign_user-may_scan :
    (hire : Hire) (event_id owner_id : String) (scope : Option String) (u : User) (b : Bool)
    (db : Db) (e : Event) (a : EventStaffAssignment)
    → find_first (alive event_id) db.events ≡ some e
    → (assign_user alone hire event_id owner_id scope u b db).0 ≡ ok a
    → may_scan event_id a.user_id (assign_user alone hire event_id owner_id scope u b db).1 ≡ true
unfolding assign_user ◌>>◌
assign_user-may_scan hire event_id owner_id scope u b db e a live h =
    let k = make_staff-read u.id u.role db in
    let x =
      record_assignment-may_scan (new_assignment hire event_id u.id scope) a owner_id b
        (make_staff u.id u.role db).1 e refl in
    ground (arith, k, x)

module _ (event_id owner_id : String) (db : Db) where
  finish-may_scan :
      (hire : Hire) (scope : Option String) (r : Result (User × Bool)) (db' : Db) (e e' : Event)
      (a : EventStaffAssignment)
      → find_first (alive event_id) db'.events ≡ some e'
      → (after {B = Event × EventStaffAssignment} r
          (λ p. assign_user alone hire event_id owner_id scope p.0 p.1 >>= λ x. pure (e', x))
          db').0
        ≡ ok (e, a)
      → may_scan event_id a.user_id
          (after {B = Event × EventStaffAssignment} r
            (λ p. assign_user alone hire event_id owner_id scope p.0 p.1 >>= λ x. pure (e', x))
            db').1
        ≡ true
  unfolding ◌>>=◌
  finish-may_scan hire scope (err f) db' e e' a live h = ground arith
  finish-may_scan hire scope (ok (u, b)) db' e e' a live h =
      let x = assign_user-may_scan hire event_id owner_id scope u b db' e' a live in
      ground (arith, x)

  -- When staff are assigned to an event and no other request comes between, the user of the
  -- assignment that is returned may scan at that event.
  pub assign_staff-may_scan :
      (hire : Hire) (d : StaffData) (e : Event) (a : EventStaffAssignment)
      → (assign_staff alone hire event_id owner_id d db).0 ≡ ok (e, a)
      → may_scan event_id a.user_id (assign_staff alone hire event_id owner_id d db).1 ≡ true
  unfolding assign_staff verify_event_ownership ◌>>◌
  assign_staff-may_scan hire d e a h = elim (Option-cases (find_first (alive event_id) db.events)) [
    | inl n ↦ ground (arith, n)
    | inr (e', n) ↦
        let email = to_lower_case (trim d.email) in
        let r = or_invite alone hire email (find_first (has_email email) db.users) db in
        let k = or_invite-read hire email (find_first (has_email email) db.users) db in
        let x =
          finish-may_scan hire d.permission_scope r.0 r.1 e e' a
            (ap (λ q. find_first (alive event_id) q.0) k ∙ n) in
        ground (arith, n, x)
  ]

-- The unique pair of the table.
abbrev pub same_pair : EventStaffAssignment → EventStaffAssignment → Bool
same_pair new old = assigned old.event_id old.user_id new

eq_turn : (s t : String) → s == t ≡ true → t == s ≡ true
eq_turn s t e = rw ((eq_iff s t).0 e) (eq_refl t)

eq_sym : (s t : String) → (s == t) ≡ (t == s)
eq_sym s t = ground (arith, eq_turn s t, eq_turn t s)

others_kept :
    (e u id : String) (xs : List EventStaffAssignment)
    → All (λ y. assigned e u y ≡ false) xs
    → find_first (assigned e u) (delete_many (is_assignment id) xs) ≡ none
unfolding find_first delete_many
others_kept e u id [] h = refl
others_kept e u id (x ∷ xs) h =
    let head = h.0 in let ih = others_kept e u id xs h.1 in ground (arith, head, ih)

removed :
    (id : String) (xs : List EventStaffAssignment) {a : EventStaffAssignment}
    → Distinct same_pair xs
    → find_first (is_assignment id) xs ≡ some a
    → find_first (assigned a.event_id a.user_id) (delete_many (is_assignment id) xs) ≡ none
unfolding find_first delete_many
removed id [] d h = refl
removed id (x ∷ xs) {a} (clean, d) h = elim (Bool-cases (is_assignment id x)) [
  | inl e ↦
      let o = others_kept x.event_id x.user_id id xs clean in
      let k : some x ≡ some a = ground (arith, e) in ground (arith, e, o, k)
  | inr e ↦
      let k : find_first (is_assignment id) xs ≡ some a = ground (arith, e) in
      let c =
        find_first-All (λ y. assigned x.event_id x.user_id y ≡ false) (is_assignment id) xs clean
          k in
      let ih = removed id xs d k in
      ground (arith, ih, c, e, eq_sym a.event_id x.event_id, eq_sym a.user_id x.user_id)
]

-- When an assignment of the event is removed and no other request comes between, its user may no
-- longer scan at the event, unless they own it; no two assignments are for one event and user.
pub remove_staff-may_scan :
    (event_id staff_id owner_id : String) (db : Db) (e : Event) (a : EventStaffAssignment)
    → Distinct same_pair db.assignments
    → find_first (alive event_id) db.events ≡ some e
    → find_first (is_assignment staff_id) db.assignments ≡ some a
    → (e.owner_id == a.user_id) ≡ false
    → (remove_staff alone event_id staff_id owner_id db).0 ≡ ok (staff_id, event_id)
    → may_scan event_id a.user_id (remove_staff alone event_id staff_id owner_id db).1 ≡ false
unfolding remove_staff verify_event_ownership delete_assignment may_scan write_audit_log ◌>>◌
remove_staff-may_scan event_id staff_id owner_id db e a d live found other h =
    let x = removed staff_id db.assignments d found in ground (arith, x, eq_iff a.event_id event_id)
