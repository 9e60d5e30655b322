-- ===== src/Registration/Oversell.antt =====
-- modules/registrations/registration.service.js: free registrations, however they interleave, never
-- oversell.
use qpass_backend.Prelude.{ℕ, zero, suc, ◌+◌, String, refl, Option, none, some, List}
use qpass_backend.Prelude.Tables.{count-update_many, update_many}
use qpass_backend.Fault.{unique_violation}
use qpass_backend.Db.{
  Db, Event, QrToken, Registration, Emission, Result, ok, err, M, modify, write_audit_log,
}
use qpass_backend.Db.Guarantee.{
  Guarantees, IsPreorder, Preserves, Preserves-IsPreorder, Guarantees-modify, guarantee_rules,
}
use qpass_backend.Event.Handlers.{Interleaving}
use qpass_backend.Qr.{
  Crypto, Draw, insert_token, generate_token, rotate_token, or_rotate, recover_raw_token,
}
use qpass_backend.Registration.Checks.{
  find_open_event, attending, check_ticket_type, assert_capacity,
}
use qpass_backend.Registration.Create.{
  Codes, Attendee, after_attempt, create_free_from, create_free_registration,
}
use qpass_backend.Registration.Register.{
  Request, raw_token_for, is_registration, mark_issued, issue_qr_token, complete_registration,
  with_existing, register_free,
}
use qpass_backend.Registration.Capacity.{IsWithin, registration_writes-IsWithin}

abbrev Within : Db → Db → Type 0
Within = Preserves IsWithin

Within-IsPreorder : IsPreorder Within
Within-IsPreorder = Preserves-IsPreorder IsWithin

audit-Within :
    (actor : Option String) (action entity id : String)
    → Guarantees Within (write_audit_log actor action entity id)
unfolding write_audit_log
audit-Within actor action entity id = record {
  at = λ db h. record { events = h.events; tickets = h.tickets };
}

tokens-Within :
    (f : Db → List QrToken) → Guarantees Within (modify (λ db. record db { qr_tokens = f db }))
tokens-Within f = Guarantees-modify _ λ db h. record { events = h.events; tickets = h.tickets }

emitted-Within :
    (f : Db → List Emission) → Guarantees Within (modify (λ db. record db { emitted = f db }))
emitted-Within f = Guarantees-modify _ λ db h. record { events = h.events; tickets = h.tickets }

issued-Within :
    (id : String) (now : ℕ)
    → Guarantees Within (
        modify (λ db. record db {
          registrations = update_many (is_registration id) (mark_issued now) db.registrations;
        }))
issued-Within id now = Guarantees-modify _ λ db h. record {
  events = λ e_id e found.
      rw
        (count-update_many (attending e_id) (is_registration id) (mark_issued now) db.registrations
          (λ a x. refl))
        (h.events e_id e found);
  tickets = h.tickets;
}

ruleset within_rules =
    (guarantee_rules, Within-IsPreorder, audit-Within, tokens-Within, emitted-Within, issued-Within)

after_attempt-Within :
    (event : Event) (a : Attendee) (r : Result Registration) (again : M Registration)
    → Guarantees Within again
    → Guarantees Within (after_attempt event a r again)
unfolding after_attempt
after_attempt-Within event a (ok r) again h = search within_rules
after_attempt-Within event a (err unique_violation) again h = search within_rules
after_attempt-Within event a (err e) again h = search within_rules

create_free_from-Within :
    (event : Event) (a : Attendee) (codes : ℕ → Codes) (left k : ℕ)
    → Guarantees Within (create_free_from event a codes left k)
unfolding create_free_from
create_free_from-Within event a codes zero k = search within_rules
create_free_from-Within event a codes (suc left) k =
    let ih = create_free_from-Within event a codes left (k + 1) in
    search (within_rules, after_attempt-Within, registration_writes-IsWithin) depth 8

module _ (crypto : Crypto) (env : Interleaving)
    (before : Guarantees Within (modify env.before_write))
    (after : Guarantees Within (modify env.after_write)) where
  rotate_token-Within :
      (draw : Draw) (expires_at : ℕ) (t : QrToken)
      → Guarantees Within (rotate_token crypto env draw expires_at t)
  unfolding rotate_token
  rotate_token-Within draw expires_at t = search within_rules depth 12

  or_rotate-Within :
      (o : Option String) (m : M (Option String))
      → Guarantees Within m
      → Guarantees Within (or_rotate crypto o m)
  unfolding or_rotate
  or_rotate-Within none m h = h
  or_rotate-Within (some raw) m h = search within_rules

  raw_token_for-Within :
      (req : Request) (id : String) (event : Event) (o : Option QrToken)
      → Guarantees Within (raw_token_for crypto env req id event o)
  unfolding raw_token_for recover_raw_token generate_token insert_token
  raw_token_for-Within req id event none = search within_rules depth 12
  raw_token_for-Within req id event (some t) =
      search (within_rules, or_rotate-Within, rotate_token-Within) depth 12

  complete_registration-Within :
      (req : Request) (event : Event) (r : Registration)
      → Guarantees Within (complete_registration crypto env req event r)
  unfolding complete_registration issue_qr_token
  complete_registration-Within req event r = search (within_rules, raw_token_for-Within) depth 15

  with_existing-Within :
      (req : Request) (event : Event) (a : Attendee) (o : Option Registration)
      → Guarantees Within (with_existing crypto env req event a o)
  unfolding with_existing create_free_registration
  with_existing-Within req event a none =
      search (within_rules, complete_registration-Within, create_free_from-Within)
  with_existing-Within req event a (some r) = search (within_rules, complete_registration-Within)

  reads-Within : (now : ℕ) (slug : String) → Guarantees Within (find_open_event now slug)
  unfolding find_open_event
  reads-Within now slug = search within_rules depth 12

  check_ticket_type-Within :
      (event : Event) (id : Option String) → Guarantees Within (check_ticket_type event id)
  unfolding check_ticket_type
  check_ticket_type-Within event none = search within_rules depth 12
  check_ticket_type-Within event (some id) = search within_rules depth 12

  assert_capacity-Within :
      (event : Event) (id : Option String) → Guarantees Within (assert_capacity event id)
  unfolding assert_capacity
  assert_capacity-Within event id = search (within_rules, check_ticket_type-Within) depth 12

  register_free-Within :
      (between : Db → Db) (req : Request) (slug : String) (a : Attendee)
      → Guarantees Within (modify between)
      → Guarantees Within (register_free crypto env between req slug a)
  unfolding register_free
  register_free-Within between req slug a h =
      search (within_rules, reads-Within, assert_capacity-Within, with_existing-Within) depth 15

-- No overselling. What other requests do between the statements of a free registration is
-- arbitrary, as long as each keeps every event and every ticket type within its capacity. Then the
-- registration keeps them within it too, whether it succeeds or throws.
pub register_free-IsWithin :
    (crypto : Crypto) (env : Interleaving) (between : Db → Db) (req : Request) (slug : String)
    (a : Attendee) (db : Db)
    → ((d : Db) → IsWithin d → IsWithin (env.before_write d))
    → ((d : Db) → IsWithin d → IsWithin (env.after_write d))
    → ((d : Db) → IsWithin d → IsWithin (between d))
    → IsWithin db
    → IsWithin (register_free crypto env between req slug a db).1
register_free-IsWithin crypto env between req slug a db before after between_ within =
    (register_free-Within crypto env (Guarantees-modify env.before_write before)
        (Guarantees-modify env.after_write after) between req slug a
        (Guarantees-modify between between_)).at
      db within
