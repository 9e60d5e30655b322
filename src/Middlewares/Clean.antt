-- ===== src/Middlewares/Clean.antt =====
-- middlewares/sanitize.middleware.js: no dangerous key is left, and nothing else is lost.
use qpass_backend.Prelude.{ap, sym, ◌∙◌, ◌↔◌, ◌≡◌, refl, Bool, true, not, ◌&&◌, arith}
use qpass_backend.Middlewares.Sanitize.{
  Json, scalar, array, object, Items, nil, cons, Fields, end, field, is_dangerous, sanitize_value,
  sanitize_items, sanitize_object, sanitize_body,
}

-- No object of the value has a dangerous key, at any depth.
unfoldable mutual
  pub is_clean : Json → Bool
  is_clean (scalar s) = true
  is_clean (array xs) = are_clean xs
  is_clean (object fs) = is_clean_object fs

  pub are_clean : Items → Bool
  are_clean nil = true
  are_clean (cons x xs) = is_clean x && are_clean xs

  pub is_clean_object : Fields → Bool
  is_clean_object end = true
  is_clean_object (field key value fs) =
      not (is_dangerous key) && is_clean value && is_clean_object fs

mutual
  unfolding sanitize_value sanitize_items sanitize_object is_clean are_clean is_clean_object

  clean_value : (j : Json) → is_clean (sanitize_value j) ≡ true
  clean_value (scalar s) = refl
  clean_value (array xs) = clean_items xs
  clean_value (object fs) = clean_object fs

  clean_items : (xs : Items) → are_clean (sanitize_items xs) ≡ true
  clean_items nil = refl
  clean_items (cons x xs) = rw (clean_value x, clean_items xs) refl

  clean_object : (fs : Fields) → is_clean_object (sanitize_object fs) ≡ true
  clean_object end = refl
  clean_object (field key value fs) = ground (arith, clean_value value, clean_object fs)

mutual
  unfolding sanitize_value sanitize_items sanitize_object is_clean are_clean is_clean_object

  kept_value : (j : Json) → is_clean j ≡ true → sanitize_value j ≡ j
  kept_value (scalar s) h = refl
  kept_value (array xs) h = ap array (kept_items xs h)
  kept_value (object fs) h = ap object (kept_object fs h)

  kept_items : (xs : Items) → are_clean xs ≡ true → sanitize_items xs ≡ xs
  kept_items nil h = refl
  kept_items (cons x xs) h = ground (arith, h, kept_value x, kept_items xs)

  kept_object : (fs : Fields) → is_clean_object fs ≡ true → sanitize_object fs ≡ fs
  kept_object end h = refl
  kept_object (field key value fs) h = ground (arith, h, kept_value value, kept_object fs)

body_value : (j : Json) → sanitize_body j ≡ sanitize_value j
unfolding sanitize_body sanitize_value
body_value (scalar s) = refl
body_value (array xs) = refl
body_value (object fs) = refl

-- A sanitized body has no dangerous key in any object, at any depth; and a body is left as it was
-- exactly if it had none.
pub sanitize_body_clean :
    (body : Json)
    → (is_clean (sanitize_body body) ≡ true)
      × ((sanitize_body body ≡ body) ↔ (is_clean body ≡ true))
sanitize_body_clean body = (
  rw (body_value body) (clean_value body),
  (
    (λ e. ap is_clean (sym e) ∙ rw (body_value body) (clean_value body)),
    (λ h. body_value body ∙ kept_value body h),
  ),
)
