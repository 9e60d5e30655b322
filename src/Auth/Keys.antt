-- ===== src/Auth/Keys.antt =====
-- modules/auth/session.service.js: the keys of sessions, and the session that a key names.
use Prim.Native.Char.{code}
use Prim.Native.String.{[], ◌∷◌, ◌++◌}
use text.Mathlib.TextLemmas.{nil-append, cons-append}
use qpass_backend.Prelude.{
  String, ◌≡◌, Bool, true, false, Option, none, some, eqb, if◌then◌else◌, arith,
}
use qpass_backend.Auth.Sessions.{session_key}

abbrev pub session_pattern : String → String
session_pattern user_id = "session:" ++ user_id ++ ":*"

-- The text after the last colon, where there is one.
unfoldable pub after_last : String → Option String
after_last [] = none
after_last (c ∷ s) = elim (after_last s) [
  | some t ↦ some t
  | none ↦ if eqb (code c) 58 then some s else none
]

-- key.slice(key.lastIndexOf(":") + 1)
unfoldable pub id_of : String → String
id_of key = elim (after_last key) [ some t ↦ t | none ↦ key ]

abbrev pub has_no_colon : String → Bool
has_no_colon s = elim (after_last s) [ none ↦ true | some t ↦ false ]

after_last-append :
    (s t : String) {r : String} → after_last t ≡ some r → after_last (s ++ t) ≡ some r
unfolding after_last
after_last-append [] t h = rw (nil-append t) h
after_last-append (c ∷ s) t {r} h =
    rw (cons-append c s t) (ground (arith, after_last-append s t {r = r} h))

-- The session of a key is the one that the key was made for.
pub id_of-session_key :
    (user_id id : String) → has_no_colon id ≡ true → id_of (session_key user_id id) ≡ id
unfolding id_of after_last
id_of-session_key user_id id h =
    let colon : after_last (":" ++ id) ≡ some id =
      rw (cons-append ":" [] id, nil-append id) (ground (arith, h)) in
    let whole =
      after_last-append "session:" (user_id ++ ":" ++ id)
        (after_last-append user_id (":" ++ id) colon) in
    ground (arith, whole)
