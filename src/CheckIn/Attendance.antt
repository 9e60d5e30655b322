-- ===== src/CheckIn/Attendance.antt =====
-- modules/checkins/checkins.service.js: the gate of an event as a set of the attendees that are inside,
-- which the table of check-ins represents.
use qpass_backend.Prelude.{
  String, ◌≡◌, refl, sym, ◌∙◌, ap, Bool, true, false, not, ◌&&◌, ◌||◌, ◌==◌, eq_refl, eq_iff, none,
  some, List, [], ◌∷◌, ◌++◌, arith, inl, inr, Bool-cases, Option-cases, eq_both, and-left,
  and-right, is_some, is_none, All, if◌then◌else◌,
}
use qpass_backend.Prelude.Tables.{
  find_first, update_many, find_first-some, find_first-test, find_first-All, find_first_unique,
  Distinct, find_first-update_many,
}
use qpass_backend.Db.{CheckIn, CheckInResult, valid, duplicate}
use qpass_backend.CheckIn.Resolve.{of_pair, is_check_in}

-- The registrations that are inside.
abbrev pub Attendance : Type 0
Attendance = String → Bool

-- One arrives: those inside already are duplicates.
abbrev pub arrive : String → Attendance → CheckInResult × Attendance
arrive id inside = (if inside id then duplicate else valid, λ other. (other == id) || inside other)

abbrev pub depart : String → Attendance → Attendance
depart id inside = λ other. not (other == id) && inside other

abbrev pub present : String → String → CheckIn → Bool
present event_id registration_id c = of_pair event_id registration_id c && is_none c.deleted_at

-- The set that a table of check-ins stands for.
abbrev pub attendance : String → List CheckIn → Attendance
attendance event_id cs = λ other. is_some (find_first (present event_id other) cs)

abbrev pub same_pair : CheckIn → CheckIn → Bool
same_pair a b = of_pair b.event_id b.registration_id a

abbrev pub same_check_in : CheckIn → CheckIn → Bool
same_check_in a b = a.id == b.id

find_first-snoc :
    (p : CheckIn → Bool) (xs : List CheckIn) (a : CheckIn)
    → is_some (find_first p (xs ++ a ∷ [])) ≡ (is_some (find_first p xs) || p a)
unfolding find_first
find_first-snoc p [] a = ground arith
find_first-snoc p (x ∷ xs) a = ground (arith, find_first-snoc p xs a)

-- An update of one row that keeps a test keeps whether some row passes it.
find_first-update_one :
    (w p q : CheckIn → Bool) (f : CheckIn → CheckIn) (c : CheckIn) (xs : List CheckIn)
    → All (λ x. w x ≡ true → x ≡ c) xs
    → ((x : CheckIn) → p x ≡ true → w x ≡ true)
    → q (f c) ≡ q c
    → is_some (find_first q (update_many p f xs)) ≡ is_some (find_first q xs)
unfolding find_first update_many
find_first-update_one w p q f c [] u s e = refl
find_first-update_one w p q f c (x ∷ xs) (u, us) s e =
    let ih = find_first-update_one w p q f c xs us s e in
    elim (Bool-cases (p x)) [
      | inl h ↦
          let same = u (s x h) in
          let kept : q (f x) ≡ q x = rw same e in ground (arith, h, kept, ih)
      | inr h ↦ ground (arith, h, ih)
    ]

-- Where all that passes a test is updated so that it fails it, nothing passes it.
find_first-update_out :
    (p q : CheckIn → Bool) (f : CheckIn → CheckIn) (c : CheckIn) (xs : List CheckIn)
    → All (λ x. q x ≡ true → x ≡ c) xs
    → p c ≡ true
    → ((x : CheckIn) → q (f x) ≡ false)
    → find_first q (update_many p f xs) ≡ none
unfolding find_first update_many
find_first-update_out p q f c [] u h o = refl
find_first-update_out p q f c (x ∷ xs) (u, us) h o =
    let ih = find_first-update_out p q f c xs us h o in
    elim (Bool-cases (p x)) [
      | inl e ↦ let out = o x in ground (arith, e, out, ih)
      | inr e ↦ elim (Bool-cases (q x)) [
        | inl k ↦ let same : p x ≡ true = rw (u k) h in ground (arith, e, same)
        | inr k ↦ ground (arith, e, k, ih)
      ]
    ]

-- Where all that passes a test is one row, that row decides a narrower test.
find_first_only :
    (p q : CheckIn → Bool) (c : CheckIn) (xs : List CheckIn)
    → All (λ x. p x ≡ true → x ≡ c) xs
    → find_first p xs ≡ some c
    → ((x : CheckIn) → q x ≡ true → p x ≡ true)
    → is_some (find_first q xs) ≡ q c
unfolding find_first
find_first_only p q c xs u h s = elim (Bool-cases (q c)) [
  | inl e ↦ find_first-some p q xs h e ∙ sym e
  | inr e ↦ ap is_some (out xs u e) ∙ sym e
]
  where
    out :
        (ys : List CheckIn)
        → All (λ x. p x ≡ true → x ≡ c) ys
        → q c ≡ false
        → find_first q ys ≡ none
    out [] v e = refl
    out (y ∷ ys) (v, vs) e = elim (Bool-cases (q y)) [
      | inl k ↦ let same : q c ≡ true = rw (sym (v (s y k))) k in ground (arith, e, same)
      | inr k ↦ let ih = out ys vs e in ground (arith, k, ih)
    ]

pub both_of_pair :
    (event_id id : String) (x y : CheckIn)
    → of_pair event_id id x ≡ true
    → of_pair event_id id y ≡ true
    → same_pair x y ≡ true
both_of_pair event_id id x y h k =
    let e = eq_both x.event_id y.event_id event_id (and-left _ _ h) (and-left _ _ k) in
    let r =
      eq_both x.registration_id y.registration_id id
        (and-right (x.event_id == event_id) (x.registration_id == id) h)
        (and-right (y.event_id == event_id) (y.registration_id == id) k) in
    ground (arith, e, r)

both_check_ins :
    (id : String) (x y : CheckIn)
    → is_check_in id x ≡ true
    → is_check_in id y ≡ true
    → same_check_in x y ≡ true
both_check_ins id x y h k = eq_both x.id y.id id h k

differs : (a b c : String) → (a == b) ≡ true → (c == b) ≡ false → (a == c) ≡ false
differs a b c h n = elim (Bool-cases (a == c)) [
  | inl e ↦
      let same : c ≡ b = sym ((eq_iff a c).0 e) ∙ (eq_iff a b).0 h in
      ground (arith, n, (eq_iff c b).1 same)
  | inr e ↦ e
]

module _ (event_id id : String) (cs : List CheckIn) where
  module _ (c : CheckIn) (pairs : Distinct same_pair cs) (ids : Distinct same_check_in cs)
      (found : find_first (of_pair event_id id) cs ≡ some c) where
    only : All (λ x. of_pair event_id id x ≡ true → x ≡ c) cs
    only =
        find_first_unique same_pair (of_pair event_id id) cs (both_of_pair event_id id) pairs found

    -- The row of a pair says whether its registration is inside.
    pub attendance-row : attendance event_id cs id ≡ is_none c.deleted_at
    attendance-row =
        let test = find_first-test (of_pair event_id id) cs found in
        find_first_only (of_pair event_id id) (present event_id id) c cs only found
          (λ x h. and-left _ _ h)
        ∙ ground (arith, test)

    present_only : All (λ x. present event_id id x ≡ true → x ≡ c) cs
    present_only = narrower cs only
      where
        narrower :
            (xs : List CheckIn)
            → All (λ x. of_pair event_id id x ≡ true → x ≡ c) xs
            → All (λ x. present event_id id x ≡ true → x ≡ c) xs
        narrower [] u = tt
        narrower (x ∷ xs) (u, us) = (λ h. u (and-left _ _ h), narrower xs us)

    only_id : All (λ x. is_check_in c.id x ≡ true → x ≡ c) cs
    only_id = elim (Option-cases (find_first (is_check_in c.id) cs)) [
      | inl e ↦ ground (
        arith,
        e,
        eq_refl c.id,
        find_first-some (of_pair event_id id) (is_check_in c.id) cs found (eq_refl c.id),
      )
      | inr (a, e) ↦
          let u =
            find_first_unique same_check_in (is_check_in c.id) cs (both_check_ins c.id) ids e in
          let same : c ≡ a =
            find_first-All (λ x. is_check_in c.id x ≡ true → x ≡ a) (of_pair event_id id) cs u found
              (eq_refl c.id) in
          rw (sym same) at u
    ]

    module _ (f : CheckIn → CheckIn)
        (kept : (other : String) (x : CheckIn)
          → of_pair event_id other (f x) ≡ of_pair event_id other x) where
      -- An update of the row leaves the other registrations where they are.
      pub attendance_others :
          (p : CheckIn → Bool) (other : String)
          → ((x : CheckIn) → p x ≡ true → is_check_in c.id x ≡ true)
          → (other == id) ≡ false
          → attendance event_id (update_many p f cs) other ≡ attendance event_id cs other
      attendance_others p other s ne =
          let test =
            and-right (c.event_id == event_id) (c.registration_id == id)
              (find_first-test (of_pair event_id id) cs found) in
          let away = differs c.registration_id id other test ne in
          find_first-update_one (is_check_in c.id) p (present event_id other) f c cs only_id s
            (ground (arith, kept other c, away))

      -- An update of the row that leaves it present puts its registration inside.
      pub attendance_in :
          is_none (f c).deleted_at ≡ true
          → attendance event_id (update_many (is_check_in c.id) f cs) id ≡ true
      attendance_in h =
          let x =
            find_first-update_many (of_pair event_id id) (is_check_in c.id) f cs
              (λ b e. kept id b) in
          let at : find_first (of_pair event_id id) (update_many (is_check_in c.id) f cs)
              ≡ some (f c) =
            ground (arith, x, found, eq_refl c.id) in
          find_first-some (of_pair event_id id) (present event_id id) _ at
            (ground (arith, kept id c, find_first-test (of_pair event_id id) cs found, h))

      -- An update of the row that leaves it absent puts its registration outside.
      pub attendance_out :
          (p : CheckIn → Bool)
          → p c ≡ true
          → ((x : CheckIn) → is_none (f x).deleted_at ≡ false)
          → attendance event_id (update_many p f cs) id ≡ false
      attendance_out p h out = ap is_some (
          find_first-update_out p (present event_id id) f c cs present_only h
            (λ x. let o = out x in ground (arith, o)))

  -- A new row puts its registration inside, and no other.
  pub attendance_new :
      (new : CheckIn) (other : String)
      → of_pair event_id id new ≡ true
      → is_none new.deleted_at ≡ true
      → find_first (of_pair event_id id) cs ≡ none
      → attendance event_id (cs ++ new ∷ []) other ≡ ((other == id) || attendance event_id cs other)
  attendance_new new other pair there h =
      let reg = and-right (new.event_id == event_id) (new.registration_id == id) pair in
      find_first-snoc (present event_id other) cs new ∙ elim (Bool-cases (other == id)) [
        | inl e ↦
            let same = eq_both new.registration_id other id reg e in
            ground (arith, pair, there, e, same)
        | inr e ↦ let away = differs new.registration_id id other reg e in ground (arith, e, away)
      ]
