-- ===== src/Prelude/Lists.antt =====
-- Lists over the native numbers, and predicates on lists by recursion.
use Prim.Native.Nat.{ℕ, zero, suc, ◌+◌, ◌≤◌}
use mathlib.Core.Path.{◌≡◌, refl, ap}
use mathlib.Core.List.{List, [], ◌∷◌, ◌++◌}
use native.Mathlib.Omega.{arith}
use native.Mathlib.Nat.{zero-add}

module _ {ℓ} {A : Type ℓ} where
  abbrev pub length : List A → ℕ
  length [] = 0
  length (x ∷ xs) = suc (length xs)

  pub length-append : (xs ys : List A) → length (xs ++ ys) ≡ length xs + length ys
  length-append [] ys = omega arith
  length-append (x ∷ xs) ys = omega (arith, length-append xs ys)

  -- slice(0, n) and slice(n)
  unfoldable pub take : ℕ → List A → List A
  take zero xs = []
  take (suc n) [] = []
  take (suc n) (x ∷ xs) = x ∷ take n xs

  unfoldable pub drop : ℕ → List A → List A
  drop zero xs = xs
  drop (suc n) [] = []
  drop (suc n) (x ∷ xs) = drop n xs

  pub length-take-drop : (n : ℕ) (xs : List A) → length (take n xs) + length (drop n xs) ≡ length xs
  unfolding take drop
  length-take-drop zero xs = omega arith
  length-take-drop (suc n) [] = refl
  length-take-drop (suc n) (x ∷ xs) = omega (arith, length-take-drop n xs)

  pub take_all : (n : ℕ) (xs : List A) → length xs ≤ n → take n xs ≡ xs
  unfolding take
  take_all zero [] h = refl
  take_all zero (x ∷ xs) h = ground arith
  take_all (suc n) [] h = refl
  take_all (suc n) (x ∷ xs) h = ap (λ r. x ∷ r) (take_all n xs (omega (arith, h)))

  take_nil : (n : ℕ) → take n [] ≡ []
  unfolding take
  take_nil zero = refl
  take_nil (suc n) = refl

  pub take-append_drop : (m n : ℕ) (xs : List A) → take m xs ++ take n (drop m xs) ≡ take (m + n) xs
  unfolding take drop
  take-append_drop zero n xs = rw (zero-add n) refl
  take-append_drop (suc m) n [] = rw (take_nil n, take_nil (suc m + n)) refl
  take-append_drop (suc m) n (x ∷ xs) =
      let k : suc m + n ≡ suc (m + n) = omega arith in
      rw k (ap (λ r. x ∷ r) (take-append_drop m n xs))

module _ {ℓ κ} {A : Type ℓ} (P : A → Type κ) where
  abbrev pub All : List A → Type κ
  All [] = Unit
  All (x ∷ xs) = P x × All xs

  pub All-append : (xs ys : List A) → All xs → All ys → All (xs ++ ys)
  All-append [] ys hx hy = hy
  All-append (x ∷ xs) ys hx hy = (hx.0, All-append xs ys hx.1 hy)

-- A table after some updates and inserts: each old row is related to the row in its place.
module _ {ℓ} {A : Type ℓ} (R : A → A → Type 0) where
  abbrev pub Grows : List A → List A → Type 0
  Grows [] ys = Unit
  Grows (x ∷ xs) [] = ⊥
  Grows (x ∷ xs) (y ∷ ys) = R x y × Grows xs ys

  pub Grows-refl : ((a : A) → R a a) → (xs : List A) → Grows xs xs
  Grows-refl r [] = tt
  Grows-refl r (x ∷ xs) = (r x, Grows-refl r xs)

  pub Grows-append : ((a : A) → R a a) → (xs ys : List A) → Grows xs (xs ++ ys)
  Grows-append r [] ys = tt
  Grows-append r (x ∷ xs) ys = (r x, Grows-append r xs ys)

  pub Grows-trans :
      ((a b c : A) → R a b → R b c → R a c)
      → (xs ys zs : List A) → Grows xs ys
      → Grows ys zs
      → Grows xs zs
  Grows-trans t [] ys zs h k = tt
  Grows-trans t (x ∷ xs) [] zs h k = elim h [ ]
  Grows-trans t (x ∷ xs) (y ∷ ys) [] h k = elim k [ ]
  Grows-trans t (x ∷ xs) (y ∷ ys) (z ∷ zs) h k = (t x y z h.0 k.0, Grows-trans t xs ys zs h.1 k.1)

pub Grows-map {ℓ} :
    {A : Type ℓ} (R S : A → A → Type 0)
    → ((a b : A) → R a b → S a b)
    → (xs ys : List A) → Grows R xs ys
    → Grows S xs ys
Grows-map R S f [] ys h = tt
Grows-map R S f (x ∷ xs) [] h = elim h [ ]
Grows-map R S f (x ∷ xs) (y ∷ ys) h = (f x y h.0, Grows-map R S f xs ys h.1)
