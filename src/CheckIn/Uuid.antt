-- ===== src/CheckIn/Uuid.antt =====
-- modules/checkins/checkins.service.js: UUID_REGEX,
-- /^[0-9a-f]{8}-[0-9a-f]{4}-[0-9a-f]{4}-[0-9a-f]{4}-[0-9a-f]{12}$/i.
use Prim.Native.Char.{code}
use Prim.Native.String.{[], ◌∷◌}
use qpass_backend.Prelude.{
  ℕ, zero, suc, String, ◌≡◌, refl, Bool, true, false, ◌&&◌, ◌||◌, Option, none, some, leb, eqb,
  if◌then◌else◌,
}

-- [0-9a-f] under the flag i
abbrev hex_digit : ℕ → Bool
hex_digit c = (leb b'0' c && leb c b'9') || (leb b'a' c && leb c b'f') || (leb b'A' c && leb c b'F')

-- What is left after `n` digits.
digits : ℕ → String → Option String
digits zero s = some s
digits (suc n) [] = none
digits (suc n) (c ∷ s) = let rest = digits n s in if hex_digit (code c) then rest else none

hyphen : Option String → Option String
hyphen none = none
hyphen (some []) = none
hyphen (some (c ∷ s)) = if eqb (code c) b'-' then some s else none

group : ℕ → Option String → Option String
group n none = none
group n (some s) = digits n s

at_end : Option String → Bool
at_end (some []) = true
at_end _ = false

unfoldable pub is_uuid : String → Bool
unfolding digits hyphen group at_end
is_uuid s =
    at_end (group 12 (hyphen (group 4 (hyphen (group 4 (hyphen (group 4 (hyphen (digits 8 s)))))))))

is_uuid_tests :
    (is_uuid "0Fc3ab12-0000-4abc-9def-0123456789aB" ≡ true)
    × (is_uuid "0fc3ab12-0000-4abc-9def-0123456789a" ≡ false)
    × (is_uuid "0fc3ab12-0000-4abc-9def-0123456789abc" ≡ false)
unfolding is_uuid
is_uuid_tests = (refl, refl, refl)
