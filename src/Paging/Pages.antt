-- ===== src/Paging/Pages.antt =====
-- The pages of a listing together are the list.
use qpass_backend.Prelude.{
  ℕ, zero, suc, ◌+◌, ◌-◌, ◌*◌, ◌<◌, ◌≤◌, ◌≡◌, refl, ◌∙◌, ap, Bool, List, [], ◌∷◌, ◌++◌, length,
  length-append, arith, take, drop, take_all, take-append_drop,
}
use native.Mathlib.Nat.{div-add-mod', mod-lt}
use qpass_backend.Prelude.Tables.{find_many, count}
use qpass_backend.Paging.{Listing, ceil_div, newest_first, listed}

-- The items of the first `n` pages.
unfoldable pub collect : {A : Type 0} → (ℕ → Listing A) → ℕ → List A
collect page zero = []
collect page (suc n) = collect page n ++ (page (suc n)).items

pub ceil_div-enough : (total size : ℕ) → 0 < size → total ≤ ceil_div total size * size
ceil_div-enough total size h =
    let s = div-add-mod' (total + (size - 1)) size in
    let r = mod-lt (total + (size - 1)) h in omega (arith, s, r)

pub ceil_div-least : (total size : ℕ) → 0 < size → ceil_div total size * size < total + size
ceil_div-least total size h = let s = div-add-mod' (total + (size - 1)) size in omega (arith, s, h)

module _ {A : Type 0} where
  collect-take :
      (page : ℕ → Listing A) (size : ℕ) (xs : List A)
      → ((k : ℕ) → (page (suc k)).items ≡ take size (drop (k * size) xs))
      → (n : ℕ) → collect page n ≡ take (n * size) xs
  unfolding collect take
  collect-take page size xs h zero = let z : 0 * size ≡ 0 = omega arith in rw z refl
  collect-take page size xs h (suc n) =
      ap (λ r. r ++ (page (suc n)).items) (collect-take page size xs h n)
      ∙ ap (λ r. take (n * size) xs ++ r) (h n)
      ∙ take-append_drop (n * size) size xs
      ∙ ap (λ m. take m xs) (omega arith)

  length-find_many : (p : A → Bool) (xs : List A) → length (find_many p xs) ≡ count p xs
  unfolding find_many count
  length-find_many p [] = refl
  length-find_many p (x ∷ xs) = ground (arith, length-find_many p xs)

  length-newest_first : (xs : List A) → length (newest_first xs) ≡ length xs
  unfolding newest_first
  length-newest_first [] = refl
  length-newest_first (x ∷ xs) =
      omega (arith, length-append (newest_first xs) (x ∷ []), length-newest_first xs)

  pub collect-listed :
      (p : A → Bool) (rows : List A) (size : ℕ)
      → 0 < size
      → (page : ℕ → Listing A)
      → ((k : ℕ)
          → page (suc k) ≡ listed (suc k) size (count p rows) (newest_first (find_many p rows)))
      → collect page (ceil_div (count p rows) size) ≡ newest_first (find_many p rows)
  unfolding listed
  collect-listed p rows size h page e =
      let xs = newest_first (find_many p rows) in
      let items : (k : ℕ) → (page (suc k)).items ≡ take size (drop (k * size) xs) =
        λ k. let n : suc k - 1 ≡ k = omega arith in rw (e k, n) refl in
      collect-take page size xs items (ceil_div (count p rows) size)
      ∙ take_all _ xs (
          omega (
            arith,
            length-newest_first (find_many p rows),
            length-find_many p rows,
            ceil_div-enough (count p rows) size h,
          ))
