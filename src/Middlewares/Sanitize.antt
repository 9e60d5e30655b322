-- ===== src/Middlewares/Sanitize.antt =====
-- middlewares/sanitize.middleware.js: the values of JSON, and what `sanitizeBody` leaves of them. The
-- keys of an object stand in the order of Object.keys.
use qpass_backend.Prelude.{String, Bool, ◌==◌, if◌then◌else◌}

mutual
  -- `scalar` is any value that is neither an array nor an object, by its text.
  pub data Json : Type 0 where
    scalar : String → Json
    array : Items → Json
    object : Fields → Json

  pub data Items : Type 0 where
    nil : Items
    cons : Json → Items → Items

  pub data Fields : Type 0 where
    end : Fields
    field : String → Json → Fields → Fields

-- DANGEROUS_KEYS.has(key)
abbrev pub is_dangerous : String → Bool
is_dangerous key = key == "__proto__"

unfoldable mutual
  pub sanitize_value : Json → Json
  sanitize_value (scalar s) = scalar s
  sanitize_value (array xs) = array (sanitize_items xs)
  sanitize_value (object fs) = object (sanitize_object fs)

  pub sanitize_items : Items → Items
  sanitize_items nil = nil
  sanitize_items (cons x xs) = cons (sanitize_value x) (sanitize_items xs)

  pub sanitize_object : Fields → Fields
  sanitize_object end = end
  sanitize_object (field key value fs) =
      let rest = sanitize_object fs in
      let kept = sanitize_value value in if is_dangerous key then rest else field key kept rest

-- A body that is neither an array nor an object is left as it is.
unfoldable pub sanitize_body : Json → Json
sanitize_body (scalar s) = scalar s
sanitize_body body = sanitize_value body
