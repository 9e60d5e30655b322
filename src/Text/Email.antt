-- ===== src/Text/Email.antt =====
-- EMAIL_REGEX, /^[^\s@]+@[^\s@]+\.[^\s@]+$/, and `normalizeEmail`, of
-- modules/registrations/registration.service.js and import.service.js.
use Prim.Native.Char.{Char, code}
use Prim.Native.String.{[], ◌∷◌}
use qpass_backend.Prelude.{
  ℕ, ◌+◌, String, ◌≡◌, refl, Bool, true, false, not, ◌&&◌, leb, eqb, if◌then◌else◌,
}
use qpass_backend.Text.Chars.{is_space, trim, to_lower_case}

-- How much of the part after the @ has been read: nothing, some characters, a dot behind some
-- character, and a character behind that dot.
pub data Domain : Type 0 where
  nothing some_chars dot_read complete : Domain

read : Domain → Char → Domain
read nothing c = some_chars
read some_chars c = if eqb (code c) b'.' then dot_read else some_chars
read dot_read c = complete
read complete c = complete

is_complete : Domain → Bool
is_complete complete = true
is_complete _ = false

domain : Domain → String → Bool
domain d [] = is_complete d
domain d (c ∷ s) =
    let rest = domain (read d c) s in not (eqb (code c) b'@') && not (is_space (code c)) && rest

-- The part before the @; the flag says that it is not empty.
local : Bool → String → Bool
local started [] = false
local started (c ∷ s) =
    let after = domain nothing s in
    let longer = local true s in
    if eqb (code c) b'@' then started && after else not (is_space (code c)) && longer

unfoldable pub is_email : String → Bool
unfolding read is_complete domain local
is_email s = local false s

abbrev pub normalize_email : String → String
normalize_email email = to_lower_case (trim email)

-- The property `length` of a text: UTF-16 units.
unfoldable pub utf16_length : String → ℕ
utf16_length [] = 0
utf16_length (c ∷ s) = (if leb 0x10000 (code c) then 2 else 1) + utf16_length s

abbrev pub max_email_length : ℕ
max_email_length = 254

is_email_tests :
    (is_email "ann@mail.example.org" ≡ true)
    × (is_email "a@b." ≡ false)
    × (is_email "a@.b" ≡ false)
    × (is_email "a@b@c.d" ≡ false)
    × (is_email "a b@c.d" ≡ false)
    × (is_email (normalize_email "  Ann@Mail.ORG ") ≡ true)
unfolding is_email trim to_lower_case
is_email_tests = (refl, refl, refl, refl, refl, refl)
