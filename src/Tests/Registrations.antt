-- ===== src/Tests/Registrations.antt =====
-- modules/registrations/registration.service.js and modules/tickets/qr.service.js: Ben registers.
use qpass_backend.Prelude.{◌∷◌, [], ℕ, String, ◌≡◌, refl, arith, true, none, some}
use qpass_backend.Prelude.Tables.{find_first, count}
use qpass_backend.Db.{Event, ok, ◌>>◌}
use qpass_backend.Event.Handlers.{alone}
use qpass_backend.Qr.{generate_token, insert_token, new_token, validate_token, recover_raw_token}
use qpass_backend.Qr.Tokens.{generate_round_trip}
use qpass_backend.Qr.Rotation.{rotate_token-converges}
use qpass_backend.Db.{Db, QrToken}
use qpass_backend.Qr.{Draw, rotate_token}
use qpass_backend.Registration.Checks.{attending}
use qpass_backend.Registration.Create.{Codes, Attendee, has_id}
use qpass_backend.Registration.Register.{Request, register_free}
use qpass_backend.Registration.Capacity.{IsWithin, Fits}
use qpass_backend.Registration.Oversell.{register_free-IsWithin}
use qpass_backend.Tests.Fixture.{adas_token, store, plain_crypto, draw}

abbrev ben : Attendee
ben = record { name = "Ben"; email = "ben@x.org"; phone = none; ticket_type_id = some "p2" }

abbrev codes : ℕ → Codes
codes k = record {
  ticket_code_id = "k2";
  ticket_code = "QP-2";
  registration_id = "r2";
  confirmation_code = "C2";
}

abbrev request : Request
request = record { now = 300; codes = codes; draw = draw; io_up = true }

store_events :
    (id : String) (e : Event)
    → find_first (has_id id) store.events ≡ some e
    → Fits e.capacity (count (attending id) store.registrations)
unfolding find_first count
store_events id e h = ground arith

store-IsWithin : IsWithin store
store-IsWithin = record { events = store_events; tickets = (ground arith, (ground arith, tt)) }

register_free-IsWithin_example :
    IsWithin (register_free plain_crypto alone (λ db. db) request "launch" ben store).1
register_free-IsWithin_example =
    register_free-IsWithin plain_crypto alone (λ db. db) request "launch" ben store (λ d h. h)
      (λ d h. h) (λ d h. h) store-IsWithin

issued : (generate_token plain_crypto draw "r2" 90000 store).0 ≡ ok "q2"
unfolding generate_token insert_token find_first ◌>>◌
issued = refl

generate_round_trip_example :
    (validate_token plain_crypto 400 "q2" (generate_token plain_crypto draw "r2" 90000 store).1 ≡ (
      ok (new_token plain_crypto draw "r2" 90000),
      (generate_token plain_crypto draw "r2" 90000 store).1,
    ))
    × (recover_raw_token plain_crypto alone draw 400
          (some 2000)
          (new_token plain_crypto draw "r2" 90000)
          store
        ≡ (ok (some "q2"), store))
generate_round_trip_example =
    generate_round_trip plain_crypto draw "r2" "q2" 90000 400 store issued (ground arith)
      (λ iv s. refl) alone draw (some 2000) store

-- A token from before ciphertexts were stored.
abbrev legacy : QrToken
legacy = record adas_token { token_cipher = none }

abbrev legacy_store : Db
legacy_store = record store { qr_tokens = legacy ∷ [] }

abbrev other_draw : Draw
other_draw = record { raw_token = "q3"; iv = "iv"; new_id = "t3" }

rotate_token-converges_example :
    ((rotate_token plain_crypto alone draw 3000 legacy legacy_store).0 ≡ ok (some "q2"))
    × ((rotate_token plain_crypto
          (record alone {
            before_write = λ d. (rotate_token plain_crypto alone draw 3000 legacy d).1;
          })
          other_draw
          4000
          legacy
          legacy_store).0
        ≡ ok (some "q2"))
unfolding find_first count
rotate_token-converges_example =
    rotate_token-converges plain_crypto legacy legacy_store refl refl refl draw 3000 refl other_draw
      4000 (λ iv s. refl)
