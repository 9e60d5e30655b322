-- ===== src/Prelude/Tables.antt =====
-- A database table as the list of its rows, and the queries of the Prisma client on one table.
-- The `where` of a query is a Boolean test on a row, its `data` a function on rows.
use qpass_backend.Prelude.Tests.{is_some, if◌then◌else◌, Bool-cases}
use qpass_backend.Prelude.Lists.{All, All-append, Grows}
use Prim.Native.Nat.{ℕ, ◌+◌, ◌<◌, ◌≤◌}
use mathlib.Core.Path.{◌≡◌, refl}
use mathlib.Core.Logic.{inl, inr}
use mathlib.Core.Bool.{Bool, true, false}
use mathlib.Core.Option.{Option, none, some}
use mathlib.Core.List.{List, [], ◌∷◌, ◌++◌}
use native.Mathlib.Omega.{arith}

module _ {ℓ} {A : Type ℓ} where
  -- findFirst, findUnique
  unfoldable pub find_first : (A → Bool) → List A → Option A
  find_first p [] = none
  find_first p (x ∷ xs) = if p x then some x else find_first p xs

  -- findMany, without an order
  unfoldable pub find_many : (A → Bool) → List A → List A
  find_many p [] = []
  find_many p (x ∷ xs) = let rest = find_many p xs in if p x then x ∷ rest else rest

  unfoldable pub count : (A → Bool) → List A → ℕ
  count p [] = 0
  count p (x ∷ xs) = (if p x then 1 else 0) + count p xs

  -- updateMany: every row that the test selects
  unfoldable pub update_many : (A → Bool) → (A → A) → List A → List A
  update_many p f [] = []
  update_many p f (x ∷ xs) = (if p x then f x else x) ∷ update_many p f xs

  unfoldable pub delete_many : (A → Bool) → List A → List A
  delete_many p [] = []
  delete_many p (x ∷ xs) = let rest = delete_many p xs in if p x then rest else x ∷ rest

  pub find_first-test : (p : A → Bool) (xs : List A) {a : A} → find_first p xs ≡ some a → p a ≡ true
  unfolding find_first
  find_first-test p [] h = ground arith
  find_first-test p (x ∷ xs) {a} h = ground (arith, find_first-test p xs {a = a})

  -- What holds of every row holds of the row that is found.
  pub find_first-All {κ} :
      (P : A → Type κ) (p : A → Bool) (xs : List A) {a : A}
      → All P xs
      → find_first p xs ≡ some a
      → P a
  unfolding find_first
  find_first-All P p [] h e = ground arith
  find_first-All P p (x ∷ xs) {a} h e = ground (arith, find_first-All P p xs {a = a} h.1)

  pub count-eq-zero : (p : A → Bool) (xs : List A) → find_first p xs ≡ none → count p xs ≡ 0
  unfolding find_first count
  count-eq-zero p [] h = refl
  count-eq-zero p (x ∷ xs) h = ground (arith, count-eq-zero p xs)

  pub find_first-eq-none : (p : A → Bool) (xs : List A) → count p xs ≡ 0 → find_first p xs ≡ none
  unfolding find_first count
  find_first-eq-none p [] h = refl
  find_first-eq-none p (x ∷ xs) h = ground (arith, find_first-eq-none p xs)

  pub count-append : (p : A → Bool) (xs ys : List A) → count p (xs ++ ys) ≡ count p xs + count p ys
  unfolding count
  count-append p [] ys = omega arith
  count-append p (x ∷ xs) ys = omega (arith, count-append p xs ys)

  -- An update changes only selected rows.
  pub Grows-update_many :
      (R : A → A → Type 0) (p : A → Bool) (f : A → A) (xs : List A)
      → ((a : A) → R a a)
      → ((a : A) → p a ≡ true → R a (f a))
      → Grows R xs (update_many p f xs)
  unfolding update_many
  Grows-update_many R p f [] r s = tt
  Grows-update_many R p f (x ∷ xs) r s = elim (Bool-cases (p x)) [
    | inl e ↦ rw e (s x e, Grows-update_many R p f xs r s)
    | inr e ↦ rw e (r x, Grows-update_many R p f xs r s)
  ]

  -- An update that no row is selected for changes nothing.
  pub update_many_none :
      (p : A → Bool) (f : A → A) (xs : List A) → count p xs ≡ 0 → update_many p f xs ≡ xs
  unfolding update_many count
  update_many_none p f [] h = refl
  update_many_none p f (x ∷ xs) h = ground (arith, update_many_none p f xs)

  -- Where the update keeps a test, it keeps its count.
  pub count-update_many :
      (q p : A → Bool) (f : A → A) (xs : List A)
      → ((a : A) → p a ≡ true → q (f a) ≡ q a)
      → count q (update_many p f xs) ≡ count q xs
  unfolding update_many count
  count-update_many q p f [] h = refl
  count-update_many q p f (x ∷ xs) h = ground (arith, h x, count-update_many q p f xs h)

  pub All-update_many {κ} :
      (P : A → Type κ) (p : A → Bool) (f : A → A) (xs : List A)
      → ((a : A) → p a ≡ true → P a → P (f a))
      → All P xs
      → All P (update_many p f xs)
  unfolding update_many
  All-update_many P p f [] s h = tt
  All-update_many P p f (x ∷ xs) s h = elim (Bool-cases (p x)) [
    | inl e ↦ rw e (s x e h.0, All-update_many P p f xs s h.1)
    | inr e ↦ rw e (h.0, All-update_many P p f xs s h.1)
  ]

  -- The row that is found after an update is the update of the row that was found before it, where
  -- the update keeps the test.
  pub find_first-update_many :
      (q p : A → Bool) (f : A → A) (xs : List A)
      → ((a : A) → p a ≡ true → q (f a) ≡ q a)
      → find_first q (update_many p f xs)
        ≡ elim (find_first q xs) [ none ↦ none | some a ↦ some (if p a then f a else a) ]
  unfolding update_many find_first
  find_first-update_many q p f [] h = refl
  find_first-update_many q p f (x ∷ xs) h = ground (arith, h x, find_first-update_many q p f xs h)

  -- A narrower test finds the same row, if that row passes it.
  pub find_first_narrow :
      (p q : A → Bool) (xs : List A) {a : A}
      → ((b : A) → q b ≡ true → p b ≡ true)
      → find_first p xs ≡ some a
      → q a ≡ true
      → find_first q xs ≡ some a
  unfolding find_first
  find_first_narrow p q [] s h e = ground arith
  find_first_narrow p q (x ∷ xs) {a} s h e = ground (arith, s x, find_first_narrow p q xs {a = a} s)

  -- A test that a found row passes finds some row.
  pub find_first-some :
      (p q : A → Bool) (xs : List A) {a : A}
      → find_first p xs ≡ some a
      → q a ≡ true
      → is_some (find_first q xs) ≡ true
  unfolding find_first
  find_first-some p q [] h e = cc
  find_first-some p q (x ∷ xs) {a} h e = ground (arith, find_first-some p q xs {a = a})

  count_le :
      (p q : A → Bool) (xs : List A) → ((a : A) → q a ≡ true → p a ≡ true) → count q xs ≤ count p xs
  unfolding count
  count_le p q [] s = ground arith
  count_le p q (x ∷ xs) s = ground (arith, s x, count_le p q xs s)

  -- Where one row passes a test, a narrower test counts that row or nothing.
  pub count_narrow :
      (p q : A → Bool) (xs : List A) {a : A}
      → ((b : A) → q b ≡ true → p b ≡ true)
      → find_first p xs ≡ some a
      → count p xs ≡ 1
      → count q xs ≡ (if q a then 1 else 0)
  unfolding find_first count
  count_narrow p q [] s h k = ground arith
  count_narrow p q (x ∷ xs) {a} s h k =
      ground (arith, s x, count_narrow p q xs {a = a} s, count_le p q xs s)

  pub find_first-append :
      (p : A → Bool) (xs : List A) (a : A)
      → find_first p xs ≡ none
      → p a ≡ true
      → find_first p (xs ++ a ∷ []) ≡ some a
  unfolding find_first
  find_first-append p [] a h e = ground arith
  find_first-append p (x ∷ xs) a h e = ground (arith, find_first-append p xs a)

  pub count-pos : (p : A → Bool) (xs : List A) {a : A} → find_first p xs ≡ some a → 0 < count p xs
  unfolding find_first count
  count-pos p [] h = ground arith
  count-pos p (x ∷ xs) {a} h = ground (arith, count-pos p xs {a = a})

  pub All-find_none :
      (p : A → Bool) (xs : List A) → find_first p xs ≡ none → All (λ a. p a ≡ false) xs
  unfolding find_first
  All-find_none p [] h = tt
  All-find_none p (x ∷ xs) h = (ground arith, All-find_none p xs (ground arith))

  -- A narrower test finds nothing where a wider one does not.
  pub find_first-none :
      (p q : A → Bool) (xs : List A)
      → ((a : A) → q a ≡ true → p a ≡ true)
      → find_first p xs ≡ none
      → find_first q xs ≡ none
  unfolding find_first
  find_first-none p q [] s h = refl
  find_first-none p q (x ∷ xs) s h = ground (arith, s x, find_first-none p q xs s)

  pub find_first-delete_many : (p : A → Bool) (xs : List A) → find_first p (delete_many p xs) ≡ none
  unfolding find_first delete_many
  find_first-delete_many p [] = refl
  find_first-delete_many p (x ∷ xs) = ground (arith, find_first-delete_many p xs)

  pub find_first-none_delete :
      (p q : A → Bool) (xs : List A)
      → find_first p xs ≡ none
      → find_first p (delete_many q xs) ≡ none
  unfolding find_first delete_many
  find_first-none_delete p q [] h = refl
  find_first-none_delete p q (x ∷ xs) h = ground (arith, h, find_first-none_delete p q xs)

  pub delete_many_twice :
      (p : A → Bool) (xs : List A) → delete_many p (delete_many p xs) ≡ delete_many p xs
  unfolding delete_many
  delete_many_twice p [] = refl
  delete_many_twice p (x ∷ xs) = ground (arith, delete_many_twice p xs)

-- The rows of a unique index: no row clashes with one before it, where `clash new old`.
module _ {ℓ} {A : Type ℓ} (clash : A → A → Bool) where
  abbrev pub Distinct : List A → Type ℓ
  Distinct [] = Unit
  Distinct (x ∷ xs) = All (λ y. clash y x ≡ false) xs × Distinct xs

  pub Distinct-insert :
      (xs : List A) (new : A)
      → Distinct xs
      → find_first (clash new) xs ≡ none
      → Distinct (xs ++ new ∷ [])
  unfolding find_first
  Distinct-insert [] new d h = (tt, tt)
  Distinct-insert (x ∷ xs) new (a, d) h = (
    All-append (λ y. clash y x ≡ false) xs (new ∷ []) a (ground arith, tt),
    Distinct-insert xs new d (ground arith),
  )

  -- Where rows that pass a test clash, the row that is found is the only one that passes.
  pub find_first_unique :
      (p : A → Bool) (xs : List A) {a : A}
      → ((x y : A) → p x ≡ true → p y ≡ true → clash x y ≡ true)
      → Distinct xs
      → find_first p xs ≡ some a
      → All (λ x. p x ≡ true → x ≡ a) xs
  unfolding find_first
  find_first_unique p [] s d h = tt
  find_first_unique p (x ∷ xs) {a} s (c, d) h = elim (Bool-cases (p x)) [
    | inl e ↦ (λ k. ground (arith, e, h), others x xs c e)
    | inr e ↦ (λ k. ground (arith, e, k), find_first_unique p xs {a = a} s d (ground (arith, e, h)))
  ]
    where
      others :
          (x : A) (ys : List A)
          → All (λ y. clash y x ≡ false) ys
          → p x ≡ true
          → All (λ y. p y ≡ true → y ≡ a) ys
      others x [] c e = tt
      others x (y ∷ ys) (c, cs) e =
          (λ k. let b = s y x k e in ground (arith, b, c), others x ys cs e)

  All-clash_update :
      (p : A → Bool) (f : A → A) (x x' : A) (xs : List A)
      → ((a : A) → clash a x' ≡ clash a x)
      → ((a : A) → clash (f a) x ≡ clash a x)
      → All (λ y. clash y x ≡ false) xs
      → All (λ y. clash y x' ≡ false) (update_many p f xs)
  unfolding update_many
  All-clash_update p f x x' [] s t h = tt
  All-clash_update p f x x' (y ∷ ys) s t h = elim (Bool-cases (p y)) [
    | inl e ↦ rw (e, s (f y), t y) (h.0, All-clash_update p f x x' ys s t h.1)
    | inr e ↦ rw (e, s y) (h.0, All-clash_update p f x x' ys s t h.1)
  ]

  -- An update that leaves the indexed columns alone.
  pub Distinct-update_many :
      (p : A → Bool) (f : A → A) (xs : List A)
      → ((a b : A) → clash a (f b) ≡ clash a b)
      → ((a b : A) → clash (f a) b ≡ clash a b)
      → Distinct xs
      → Distinct (update_many p f xs)
  unfolding update_many
  Distinct-update_many p f [] s t d = tt
  Distinct-update_many p f (x ∷ xs) s t (a, d) = elim (Bool-cases (p x)) [
    | inl e ↦ rw e (
      All-clash_update p f x (f x) xs (λ b. s b x) (λ b. t b x) a,
      Distinct-update_many p f xs s t d,
    )
    | inr e ↦
        rw e (
          All-clash_update p f x x xs (λ b. refl) (λ b. t b x) a,
          Distinct-update_many p f xs s t d,
        )
  ]
